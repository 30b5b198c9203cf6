-- ===== src/Pool/Settle.antt =====
-- server/pool.go: what becomes of a call of Scale once the goroutines that it launched have returned,
-- in any interleaving, where no creation fails and no machine exits meanwhile.
use fireactions.Prelude.{
  Text, ℕ, ℕ-cases, List-cases, fresh_key, zero, suc, ◌+◌, ◌*◌, ◌≤◌, ◌<◌, ◌≡◌, ap, subst, ◌∙◌, inl,
  inr, ◌≢◌, false, List, ◌∷◌, none, some, ok, ℤ, pos_part, ◌-ℤ◌, -ℤ_parts, parts_cases, arith,
  length, lookup, length-insert_new, length-delete, Option-cases, text_eq_refl,
}
use fireactions.Pool.{Pool, Machine, scale, effective_size}
use fireactions.Pool.Events.{
  take_out, Event, exec, creator_starts, creator_returns, deleter_starts, deleter_gives_up,
  creator_stores, deleter_picks, deleter_returns,
}
use fireactions.Pool.Counters.{CountersAgree, in_creation, in_deletion, length-take_out}
use fireactions.Pool.Target.{Scaled, scale-Scaled, InRange, effective_size_parts}

-- The steps of launched goroutines, where each creation succeeds under a name that is not in use.
abbrev pub IsWork : Event → Pool → Type 0
IsWork creator_starts p = Unit
IsWork creator_returns p = Unit
IsWork deleter_starts p = Unit
IsWork deleter_gives_up p = Unit
IsWork (creator_stores name m) p = lookup name p.machines ≡ none
IsWork (deleter_picks name) p = Unit
IsWork (deleter_returns name) p = Unit
IsWork _ p = ⊥

pub data Work (s : Pool) : Pool → Type 0 where
  done : Work s s
  step : {t u : Pool} (e : Event) → Work s t → IsWork e t → exec e t ≡ some u → Work s u

abbrev pub in_flight : Pool → ℕ
in_flight p = in_creation p + in_deletion p

-- The size of the map once every goroutine in flight has done its work; there are machines enough.
pub record Heads (n : ℕ) (p : Pool) : Type 0 where
  pub live : p.cancelled ≡ false
  pub enough : p.deleters_spawned + p.deleters_deleting ≤ length p.machines
  pub projected :
      length p.machines + (p.creators_spawned + p.creators_creating)
      ≡ n + (p.deleters_spawned + p.deleters_deleting)

exec-Heads :
    (n : ℕ) (e : Event) (p : Pool) {q : Pool}
    → IsWork e p
    → exec e p ≡ some q
    → Heads n p
    → Heads n q
unfolding exec
exec-Heads n creator_starts p w h k = ground arith
exec-Heads n creator_returns p w h k = ground arith
exec-Heads n deleter_starts p w h k = ground arith
exec-Heads n deleter_gives_up p w h k = ground arith
exec-Heads n (creator_stores name m) p w h k = ground (arith, length-insert_new name m p.machines w)
exec-Heads n (deleter_picks name) p w h k = elim (Option-cases (lookup name p.machines)) [
  | inl e ↦ ground arith
  | inr (m, e) ↦ ground (arith, length-delete name m p.machines e)
]
exec-Heads n (deleter_returns name) p w h k = ground arith
exec-Heads n _ p w h k = absurd w

pub Work-Heads : (n : ℕ) {p q : Pool} → Work p q → Heads n p → Heads n q
Work-Heads n done k = k
Work-Heads n (step e r w x) k = exec-Heads n e _ w x (Work-Heads n r k)

scale-Heads :
    (d : ℤ) (p : Pool) {q : Pool}
    → p.cancelled ≡ false
    → CountersAgree p
    → in_flight p ≡ 0
    → scale d p ≡ ok q
    → Heads (pos_part d) q
scale-Heads d p {q} live c idle e =
    let (q', e', s') = scale-Scaled d p live in
    let r : InRange p = record { creates_fit = omega arith; deletes_fit = omega arith } in
    let same : q' ≡ q = cc in
    let s : Scaled (d -ℤ effective_size p) p q = subst (Scaled (d -ℤ effective_size p) p) same s' in
    let z = -ℤ_parts d (effective_size p) in
    let signs = parts_cases (d -ℤ effective_size p) in
    let dsigns = parts_cases d in
    let size = effective_size_parts p c r in
    let esigns = parts_cases (effective_size p) in
    let len = ap length s.same_machines in
    let stops = ap length s.same_stopping in
    record {
      live = s.same_cancelled ∙ live;
      enough = omega (arith, s);
      projected = omega (arith, s);
    }

-- From a pool with nothing in flight, Scale and then any interleaving of the goroutines that it
-- launches lead, once all have returned, to a map of exactly desired machines (none for a negative
-- number). No creation fails, no machine exits and the pool is not stopped meanwhile.
pub scale-settles :
    (d : ℤ) (p : Pool) {q u : Pool}
    → p.cancelled ≡ false
    → CountersAgree p
    → in_flight p ≡ 0
    → scale d p ≡ ok q
    → Work q u
    → in_flight u ≡ 0
    → length u.machines ≡ pos_part d
scale-settles d p {q} {u} live c idle e w over =
    let k = Work-Heads (pos_part d) w (scale-Heads d p live c idle e) in omega (arith, k)

-- Every step of a goroutine in flight brings the last one nearer its end.
pub work_left : Pool → ℕ
work_left p =
    3 * p.creators_spawned
    + 2 * p.creators_creating
    + p.creators_returning
    + (3 * p.deleters_spawned + 2 * p.deleters_deleting + length p.stopping)

-- A step that some goroutine in flight can take.
abbrev Progress : Pool → Type 0
Progress p = (e : Event) × (exec e p ≢ none) × IsWork e p

creators-Progress : (p : Pool) (m : Machine) → 0 < in_creation p → Progress p
unfolding exec
creators-Progress p m h = elim (ℕ-cases p.creators_spawned) [
  | inr (n, e) ↦ (creator_starts, ground arith, tt)
  | inl no_spawned ↦ elim (ℕ-cases p.creators_creating) [
    | inr (n, e) ↦ let (k, new) = fresh_key p.machines in (creator_stores k m, ground arith, new)
    | inl no_creating ↦ elim (ℕ-cases p.creators_returning) [
      | inr (n, e) ↦ (creator_returns, ground arith, tt)
      | inl no_returning ↦ absurd (omega arith)
    ]
  ]
]

deleting-Progress : (p : Pool) (n : ℕ) → p.deleters_deleting ≡ suc n → Progress p
unfolding exec lookup
deleting-Progress p n e = elim (List-cases p.machines) [
  | inl empty ↦ (deleter_gives_up, ground arith, tt)
  | inr ((k, m), rest, some_left) ↦ (deleter_picks k, ground (arith, text_eq_refl k), tt)
]

stopping-Progress : (p : Pool) (x : Text) (xs : List Text) → p.stopping ≡ x ∷ xs → Progress p
unfolding exec take_out
stopping-Progress p x xs e = (deleter_returns x, ground (arith, text_eq_refl x), tt)

deleters-Progress : (p : Pool) → 0 < in_deletion p → Progress p
unfolding exec
deleters-Progress p h = elim (ℕ-cases p.deleters_spawned) [
  | inr (n, e) ↦ (deleter_starts, ground arith, tt)
  | inl no_spawned ↦ elim (ℕ-cases p.deleters_deleting) [
    | inr (n, e) ↦ deleting-Progress p n e
    | inl no_deleting ↦ elim (List-cases p.stopping) [
      | inl e ↦ absurd (omega (arith, ap length e))
      | inr (x, xs, e) ↦ stopping-Progress p x xs e
    ]
  ]
]

-- No goroutine waits for another: where one is in flight, some goroutine can take a step.
in_flight-Progress : (p : Pool) (m : Machine) → 0 < in_flight p → Progress p
in_flight-Progress p m h = elim (ℕ-cases (in_creation p)) [
  | inl none_created ↦ deleters-Progress p (omega arith)
  | inr (n, e) ↦ creators-Progress p m (omega arith)
]

-- Each step uses up work, so every interleaving of the goroutines in flight comes to an end.
pub work_left-exec :
    (e : Event) (p : Pool) {q : Pool} → IsWork e p → exec e p ≡ some q → work_left q < work_left p
unfolding exec work_left
work_left-exec creator_starts p w h = ground arith
work_left-exec creator_returns p w h = ground arith
work_left-exec deleter_starts p w h = ground arith
work_left-exec deleter_gives_up p w h = ground arith
work_left-exec (creator_stores name m) p w h = ground arith
work_left-exec (deleter_picks name) p w h = ground arith
work_left-exec (deleter_returns name) p w h = elim (Option-cases (take_out name p.stopping)) [
  | inl e ↦ ground arith
  | inr (ys, e) ↦ ground (arith, length-take_out name p.stopping {ys = ys} e)
]
work_left-exec _ p w h = absurd w

Work-first : {p q u : Pool} (e : Event) → IsWork e p → exec e p ≡ some q → Work q u → Work p u
Work-first e w x done = step e done w x
Work-first e w x (step e' r w' x') = step e' (Work-first e w x r) w' x'

pub all_return :
    (fuel : ℕ) (p : Pool) (m : Machine)
    → work_left p < fuel
    → (u : Pool) × Work p u × (in_flight u ≡ 0)
all_return zero p m h = absurd (omega arith)
all_return (suc fuel) p m h = elim (ℕ-cases (in_flight p)) [
  | inl over ↦ (p, done, over)
  | inr (n, e) ↦
      let (ev, possible, w) = in_flight-Progress p m (omega arith) in
      elim (Option-cases (exec ev p)) [
        | inl stuck ↦ absurd (possible stuck)
        | inr (q, x) ↦
            let (u, r, over) = all_return fuel q m (omega (arith, work_left-exec ev p w x)) in
            (u, Work-first ev w x r, over)
      ]
]

-- From a pool that is not stopping and has nothing in flight, Scale answers, and some interleaving of
-- the goroutines that it launches, each creation storing a machine, ends with none in flight and
-- exactly desired machines in the map (none for a negative number).
pub scale_can_settle :
    (d : ℤ) (p : Pool) (m : Machine)
    → p.cancelled ≡ false
    → CountersAgree p
    → in_flight p ≡ 0
    → (q : Pool) × (u : Pool) × (scale d p ≡ ok q)
      × Work q u
      × (in_flight u ≡ 0)
      × (length u.machines ≡ pos_part d)
scale_can_settle d p m live c idle =
    let (q, e, s) = scale-Scaled d p live in
    let (u, w, over) = all_return (suc (work_left q)) q m (omega arith) in
    (q, u, e, w, over, scale-settles d p live c idle e w over)
