-- ===== src/Tail/Stop.antt =====
-- agent/tail/tail.go: that Cleanup, which stops a tail and waits for its goroutine, comes to an end.
use fireactions.Prelude.{
  ℕ, suc, ◌+◌, ◌*◌, ◌≤◌, ◌≡◌, ◌≢◌, refl, ◌⊎◌, inl, inr, Bool, true, false, [], none, some, ok, err,
  arith,
}
use fireactions.Tail.Goroutine.{
  Place, opening, seeking, starting, scanning, waiting, sending_history, reading, making_watcher,
  following, sending_error, reopening, rewatching, returned, Goroutine, Turn, opens, watches, seeks,
  scans, goes_on, sends, is_done, hears, is_written, other_event, removes_or_renames, closes, fails,
  turn_at, run_turn, open_step, seek_step, history_step, start_step, read_step, watch_step,
  follow_step, wait_step, scan_step, error_step, reopen_step, rewatch_step, stop, Waited,
}

-- How far a place is from the end of a goroutine that is stopped and whose lines nobody takes.
abbrev pub rank : Place → ℕ
rank returned = 0
rank waiting = 1
rank sending_error = 1
rank reopening = 1
rank (reading ls) = 1
rank (following ls) = 2
rank scanning = 3
rank rewatching = 4
rank (making_watcher ls) = 4
rank starting = 5
rank (sending_history ls) = 6
rank seeking = 7
rank opening = 8

-- An event of the watcher takes the goroutine back, but not far.
abbrev pub cost : Turn → ℕ
cost (hears c) = 3
cost _ = 0

abbrev is_send : Turn → Bool
is_send sends = true
is_send _ = false

rank-turn :
    (p : Place) (t : Turn) (g : Goroutine) {h : Goroutine}
    → g.cancelled ≡ true
    → is_send t ≡ false
    → turn_at p t g ≡ some h
    → (suc (rank h.place) ≤ rank p + cost t) × (h.cancelled ≡ true)
unfolding turn_at open_step seek_step history_step start_step read_step watch_step follow_step
    wait_step scan_step error_step reopen_step rewatch_step
rank-turn opening (opens none) g c s e = ground arith
rank-turn opening (opens (some x)) g c s e = ground arith
rank-turn seeking (seeks (ok ls)) g c s e = ground arith
rank-turn seeking (seeks (err x)) g c s e = ground arith
rank-turn (sending_history []) t g c s e = ground arith
rank-turn (reading []) t g c s e = ground arith
rank-turn (following []) t g c s e = ground arith
rank-turn (making_watcher ls) (watches none) g c s e = ground arith
rank-turn (making_watcher ls) (watches (some x)) g c s e = ground arith
rank-turn rewatching (watches none) g c s e = ground arith
rank-turn rewatching (watches (some x)) g c s e = ground arith
rank-turn reopening (opens none) g c s e = ground arith
rank-turn reopening (opens (some x)) g c s e = ground arith
rank-turn waiting (hears is_written) g c s e = ground arith
rank-turn waiting (hears removes_or_renames) g c s e = ground arith
rank-turn waiting (hears other_event) g c s e = ground arith
rank-turn waiting (hears closes) g c s e = ground arith
rank-turn waiting (hears fails) g c s e = ground arith
rank-turn _ _ g c s e = ground arith

-- What the goroutine does while nobody takes a line.
pub data Alone (g : Goroutine) : Goroutine → Type 0 where
  at_first : Alone g g
  turn :
      {h u : Goroutine} (t : Turn)
      → Alone g h
      → is_send t ≡ false
      → run_turn t h ≡ some u
      → Alone g u

-- How many turns it has taken, and how many of them were events of the watcher.
abbrev pub turns : {g u : Goroutine} → Alone g u → ℕ
turns at_first = 0
turns (turn t r s e) = suc (turns r)

abbrev is_event : Turn → ℕ
is_event (hears c) = 1
is_event _ = 0

abbrev pub heard : {g u : Goroutine} → Alone g u → ℕ
heard at_first = 0
heard (turn t r s e) = is_event t + heard r

rank-run_turn :
    (t : Turn) (g : Goroutine) {h : Goroutine}
    → g.cancelled ≡ true
    → is_send t ≡ false
    → run_turn t g ≡ some h
    → (suc (rank h.place) ≤ rank g.place + cost t) × (h.cancelled ≡ true)
unfolding run_turn
rank-run_turn t g c s e = rank-turn g.place t g c s e

cost-is_event : (t : Turn) → cost t ≡ 3 * is_event t
cost-is_event (hears c) = refl
cost-is_event _ = refl

turns-rank :
    {g u : Goroutine}
    → g.cancelled ≡ true
    → (r : Alone g u) → (turns r + rank u.place ≤ rank g.place + 3 * heard r) × (u.cancelled ≡ true)
turns-rank c at_first = (omega arith, c)
turns-rank c (turn {h} t r s e) =
    let before = turns-rank c r in
    let now = rank-run_turn t h before.1 s e in
    (omega (arith, before.0, now.0, cost-is_event t), now.1)

rank-at_most : (p : Place) → rank p ≤ 8
rank-at_most p = ground arith

-- A turn that needs no reader and no event of the watcher.
abbrev pub CanGoOn : Goroutine → Type 0
CanGoOn g = (t : Turn) × (is_send t ≡ false) × (is_event t ≡ 0) × (run_turn t g ≢ none)

turn_at-possible :
    (p : Place) (g : Goroutine)
    → g.cancelled ≡ true
    → (p ≡ returned)
      ⊎ ((t : Turn) × (is_send t ≡ false) × (is_event t ≡ 0) × (turn_at p t g ≢ none))
unfolding turn_at open_step seek_step history_step start_step read_step watch_step follow_step
    wait_step scan_step error_step reopen_step rewatch_step
turn_at-possible opening g c = inr (opens none, refl, refl, ground arith)
turn_at-possible seeking g c = inr (seeks (ok []), refl, refl, ground arith)
turn_at-possible (sending_history []) g c = inr (goes_on, refl, refl, ground arith)
turn_at-possible starting g c = inr (scans [], refl, refl, ground arith)
turn_at-possible (reading []) g c = inr (goes_on, refl, refl, ground arith)
turn_at-possible (making_watcher ls) g c = inr (watches none, refl, refl, ground arith)
turn_at-possible (following []) g c = inr (goes_on, refl, refl, ground arith)
turn_at-possible scanning g c = inr (scans [], refl, refl, ground arith)
turn_at-possible rewatching g c = inr (watches none, refl, refl, ground arith)
turn_at-possible returned g c = inl refl
turn_at-possible _ g c = inr (is_done, refl, refl, ground arith)

possible : (g : Goroutine) → g.cancelled ≡ true → Waited g ⊎ CanGoOn g
unfolding run_turn
possible g c = turn_at-possible g.place g c

-- After Stop, while nobody takes a line, whatever the goroutine was at and whatever the files, the
-- scanners and the watcher answer: it takes at most eight turns, and three more for each event of the
-- watcher that its select takes instead of the end of the context; and until it has returned, so that Wait
-- and Cleanup return, there is a turn that it can take without a reader and without an event.
pub stop-Alone :
    (g u : Goroutine) (r : Alone (stop g) u) → (turns r ≤ 8 + 3 * heard r) × (Waited u ⊎ CanGoOn u)
unfolding stop
stop-Alone g u r =
    let counted = turns-rank refl r in
    (omega (arith, counted.0, rank-at_most (stop g).place), possible u counted.1)
