-- ===== src/Pool/Drain.antt =====
-- server/pool.go: what Stop leaves behind when it returns.
use mathlib.Core.List.{reverse, reverse_aux}
use fireactions.Prelude.{
  Text, ℕ, suc, ◌+◌, ◌≡◌, refl, ◌∙◌, ◌≢◌, true, List, [], ◌∷◌, none, some, ok, arith, lookup,
  text_eq_refl, delete, lookup-insert, List-cases, inl, inr,
}
use fireactions.Config.{PoolConfig}
use fireactions.Pool.{Pool, Machine, new_pool, values}
use fireactions.Pool.Events.{
  take_out, exec, store_machine, Event, Reach, Reach-trans, here, next, stop, run_round, rounds,
  trigger, timer, stop_signal, ctx_done, creator_stores, cleanup_removes, cleanup_is_done, stops,
}
use fireactions.Pool.Stop.{
  Stopping, StopRun, listing, stopping_machines, awaiting_cleanups, returned, begins, run_is_done,
  run_is_late, lists, stops_machine, has_stopped, cleanups_are_done, cleanups_are_late, meanwhile,
}
use fireactions.Pool.Watched.{Owned, Reach-Owned, take_out-cons}
use fireactions.Pool.Shutdown.{stopped-Reach}

-- While Stop is under way the pool goes through states that the events reach.
StopRun-Reach : {p q : Pool} {s : Stopping} → StopRun p s q → Reach (stop p) q
StopRun-Reach begins = here
StopRun-Reach (run_is_done r h) = StopRun-Reach r
StopRun-Reach (run_is_late r) = StopRun-Reach r
StopRun-Reach (lists r) = StopRun-Reach r
StopRun-Reach (stops_machine r) = StopRun-Reach r
StopRun-Reach (has_stopped r) = StopRun-Reach r
StopRun-Reach (cleanups_are_done r c d) = StopRun-Reach r
StopRun-Reach (cleanups_are_late r) = StopRun-Reach r
StopRun-Reach (meanwhile e r h) = next e (StopRun-Reach r) h

-- Nothing is left of the pool's machines, and none can come.
abbrev pub Empty : Pool → Type 0
Empty q =
    (q.cancelled ≡ true)
    × (q.creators_creating ≡ 0)
    × (q.machines ≡ [])
    × (q.cleanups ≡ [])
    × (q.closing ≡ [])

exec-Empty : (e : Event) (q : Pool) {r : Pool} → exec e q ≡ some r → Empty q → Empty r
unfolding exec run_round take_out lookup delete
exec-Empty (rounds trigger) q h o = ground arith
exec-Empty (rounds timer) q h o = ground arith
exec-Empty (rounds stop_signal) q h o = ground arith
exec-Empty (rounds ctx_done) q h o = ground arith
exec-Empty _ q h o = ground arith

-- A machine has a cleanup goroutine, so that there is none without one.
no_machine_left : (p : Pool) → Owned p → p.cleanups ≡ [] → p.machines ≡ []
unfolding lookup take_out
no_machine_left p o h = elim (List-cases p.machines) [
  | inl e ↦ e
  | inr ((k, m), rest, e) ↦ absurd (ground (arith, o.watched k, text_eq_refl k))
]

-- If no createMachine is under way when Stop is called, and Stop returns because no cleanup goroutine is
-- left, then the map is empty, no cleanup goroutine runs, and it stays so, whatever happens after that.
pub stop-Empty :
    (c : PoolConfig) (s p q : Pool) (done : List Machine)
    → new_pool c true ≡ ok s
    → Reach s p
    → p.creators_creating ≡ 0
    → StopRun p (returned done) q
    → Empty q
unfolding stop exec
stop-Empty c s p q done new r quiet (meanwhile e run h) =
    exec-Empty e _ h (stop-Empty c s p _ done new r quiet run)
stop-Empty c s p q done new r quiet (cleanups_are_done run none_left none_closing) =
    let later = StopRun-Reach run in
    let stopped = stopped-Reach (stop p) q refl later in
    let owned = Reach-Owned c s q new (Reach-trans (next stops r refl) later) in
    (
      stopped.0,
      omega (arith, stopped.2, quiet),
      no_machine_left q owned.0 none_left,
      none_left,
      none_closing,
    )

-- The machines of the map at a moment when Stop took its list.
abbrev pub Listed : Pool → List Machine → Pool → Type 0
Listed p done q =
    (at : Pool) × StopRun p listing at × Reach at q × (done ≡ reverse (values at.machines))

Listed-meanwhile :
    (p : Pool) {done : List Machine} {q r : Pool} (e : Event)
    → exec e q ≡ some r
    → Listed p done q
    → Listed p done r
Listed-meanwhile p e h (at, l, r, d) = (at, l, next e r h, d)

stopping-Listed :
    (p : Pool) {ms done : List Machine} {q : Pool}
    → StopRun p (stopping_machines ms done) q
    → Listed p (reverse_aux ms done) q
stopping-Listed p (lists r) = (_, r, here, refl)
stopping-Listed p (stops_machine r) = stopping-Listed p r
stopping-Listed p (meanwhile e r h) = Listed-meanwhile p e h (stopping-Listed p r)

awaiting-Listed :
    (p : Pool) {done : List Machine} {q : Pool}
    → StopRun p (awaiting_cleanups done) q
    → Listed p done q
awaiting-Listed p (has_stopped r) = stopping-Listed p r
awaiting-Listed p (meanwhile e r h) = Listed-meanwhile p e h (awaiting-Listed p r)

-- When Stop returns because no cleanup goroutine is left, it has called StopVMM once for each machine that
-- was in the map when it took its list, and for no other.
pub stop-Listed :
    (p : Pool) (done : List Machine) (q : Pool) → StopRun p (returned done) q → Listed p done q
stop-Listed p done q (cleanups_are_done r c d) = awaiting-Listed p r
stop-Listed p done q (meanwhile e r h) = Listed-meanwhile p e h (stop-Listed p done _ r)

stop_all :
    (p : Pool) (ms done : List Machine) (q : Pool)
    → StopRun p (stopping_machines ms done) q
    → StopRun p (awaiting_cleanups (reverse_aux ms done)) q
stop_all p [] done q r = has_stopped r
stop_all p (m ∷ ms) done q r = stop_all p ms (m ∷ done) q (stops_machine r)

-- Stop at its last wait, with as many creations under way.
abbrev Waiting : Pool → List Machine → ℕ → Pool → Type 0
Waiting p done n q = StopRun p (awaiting_cleanups done) q × (q.creators_creating ≡ n)

drain_cleanups :
    (p : Pool) (done : List Machine) (n : ℕ) (xs : List Text) (q : Pool)
    → q.cleanups ≡ xs
    → Waiting p done n q
    → (r : Pool) × Waiting p done n r × (r.cleanups ≡ [])
unfolding exec take_out
drain_cleanups p done n [] q e w = (q, w, e)
drain_cleanups p done n (x ∷ xs) q e w =
    let r : Pool = record q {
      machines = delete x q.machines;
      cleanups = xs;
      closing = x ∷ q.closing;
    } in
    let removes : exec (cleanup_removes x) q ≡ some r = ground (arith, text_eq_refl x) in
    drain_cleanups p done n xs r refl (meanwhile (cleanup_removes x) w.0 removes, w.1)

drain_closing :
    (p : Pool) (done : List Machine) (n : ℕ) (xs : List Text) (q : Pool)
    → q.closing ≡ xs
    → Waiting p done n q
    → q.cleanups ≡ []
    → (r : Pool) × Waiting p done n r × (r.cleanups ≡ []) × (r.closing ≡ [])
unfolding exec take_out
drain_closing p done n [] q e w c = (q, w, c, e)
drain_closing p done n (x ∷ xs) q e w c =
    let r : Pool = record q { closing = xs } in
    let closes : exec (cleanup_is_done x) q ≡ some r = ground (arith, text_eq_refl x) in
    drain_closing p done n xs r refl (meanwhile (cleanup_is_done x) w.0 closes, w.1) c

-- Whatever is under way in a pool, Stop can return because no cleanup goroutine is left, and with the
-- same creations still under way.
pub stop_can_return :
    (p : Pool)
    → (done : List Machine) × (q : Pool) × StopRun p (returned done) q
      × (q.creators_creating ≡ p.creators_creating)
unfolding stop
stop_can_return p =
    let listed = stop_all p (values p.machines) [] (stop p) (lists (run_is_late begins)) in
    let done = reverse (values p.machines) in
    let n = p.creators_creating in
    let (q, w, c) = drain_cleanups p done n p.cleanups (stop p) refl (listed, refl) in
    let (r, v, d, e) = drain_closing p done n q.closing q refl w c in
    (done, r, cleanups_are_done v.0 d e, v.1)

late_store :
    (q : Pool) (n : ℕ) (name : Text) (m : Machine)
    → q.creators_creating ≡ suc n
    → (u : Pool) × (exec (creator_stores name m) q ≡ some u)
      × (lookup name u.machines ≡ some m)
      × (take_out name u.cleanups ≢ none)
unfolding exec
late_store q n name m h = (
  record (store_machine name m q) {
    creators_creating = n;
    creators_returning = q.creators_returning + 1;
  },
  ground arith,
  ground (arith, lookup-insert name name m q.machines, text_eq_refl name),
  take_out-cons name name q.cleanups (inl (text_eq_refl name)),
)

-- Where a createMachine is under way when Stop is called, Stop can return because no cleanup goroutine is
-- left, and the machine, of whatever name, be stored after that: it is in the map, and its cleanup
-- goroutine has just begun.
pub stop-misses :
    (p : Pool) (n : ℕ) (name : Text) (m : Machine)
    → p.creators_creating ≡ suc n
    → (done : List Machine) × (q : Pool) × StopRun p (returned done) q
      × (lookup name q.machines ≡ some m)
      × (take_out name q.cleanups ≢ none)
stop-misses p n name m h =
    let (done, q, r, e) = stop_can_return p in
    let (u, stored, kept, watched) = late_store q n name m (e ∙ h) in
    (done, u, meanwhile (creator_stores name m) r stored, kept, watched)
