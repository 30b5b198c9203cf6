-- ===== src/Pool/Shutdown.antt =====
-- server/pool.go: Stop, against what the goroutines and the Run loop do afterwards.
use fireactions.Prelude.{◌≤◌, ◌≡◌, refl, inl, inr, true, some, err, ℤ, arith, Option-cases}
use fireactions.Pool.{Pool, context_canceled, scale}
use fireactions.Pool.Events.{
  take_out, Event, exec, run_round, Reach, here, next, deleter_returns, rounds, trigger, timer,
  stop_signal, ctx_done,
}
use fireactions.Pool.Counters.{in_creation, in_deletion, length-take_out}

-- Nothing new was launched between two pools. `creators_creating` bounds the machines that can still
-- be stored.
pub record Quieter (p q : Pool) : Type 0 where
  pub creations : in_creation q ≤ in_creation p
  pub deletions : in_deletion q ≤ in_deletion p

stopped-exec :
    (e : Event) (p : Pool) {q : Pool}
    → p.cancelled ≡ true
    → exec e p ≡ some q
    → (q.cancelled ≡ true) × Quieter p q × (q.creators_creating ≤ p.creators_creating)
unfolding exec run_round scale
stopped-exec (rounds trigger) p c h = ground arith
stopped-exec (rounds timer) p c h = ground arith
stopped-exec (rounds stop_signal) p c h = ground arith
stopped-exec (rounds ctx_done) p c h = ground arith
stopped-exec (deleter_returns name) p c h = elim (Option-cases (take_out name p.stopping)) [
  | inl e ↦ ground arith
  | inr (ys, e) ↦ ground (arith, length-take_out name p.stopping {ys = ys} e)
]
stopped-exec _ p c h = ground arith

stopped :
    (p q : Pool)
    → p.cancelled ≡ true
    → Reach p q
    → (q.cancelled ≡ true) × Quieter p q × (q.creators_creating ≤ p.creators_creating)
stopped p q c here = (c, omega arith, omega arith)
stopped p q c (next {t} e r h) =
    let before = stopped p t c r in
    let after = stopped-exec e t before.0 h in (after.0, omega arith, omega arith)

stopped-scale : (q : Pool) → q.cancelled ≡ true → (d : ℤ) → scale d q ≡ err context_canceled
unfolding scale
stopped-scale q c d = rw c refl

-- Over the events of Pool/Events, with rounds that nothing falls into; Pool/Loop/Stopped has what falls
-- into a round.
pub stopped-Reach :
    (p q : Pool)
    → p.cancelled ≡ true
    → Reach p q
    → (q.cancelled ≡ true)
      × Quieter p q
      × (q.creators_creating ≤ p.creators_creating)
      × ((d : ℤ) → scale d q ≡ err context_canceled)
stopped-Reach p q c r = let s = stopped p q c r in (s.0, s.1, s.2, stopped-scale q s.0)
