-- ===== src/Pool/Overshoot.antt =====
-- server/pool.go: the two windows in which a goroutine is counted twice. deleteMachine takes its
-- machine out of the map before StopVMM, and pendingDeletes falls only after it; createMachine puts
-- its machine into the map before pendingCreates falls.
use fireactions.Prelude.{
  ℕ, ◌+◌, ◌-◌, ◌≤◌, ◌<◌, ◌≡◌, ap, subst, sym, refl, ◌∙◌, false, ok, err, ℤ, pos, pos_part, neg_part,
  ◌-ℤ◌, -ℤ_parts, parts_cases, arith, length,
}
use fireactions.Pool.{Pool, scale, effective_size}
use fireactions.Pool.Loop.{Loop, Alone, at, scaling, waiting}
use fireactions.Pool.Loop.Whole.{round-Alone}
use fireactions.Pool.Counters.{CountersAgree, in_creation, in_deletion}
use fireactions.Pool.Target.{Scaled, scale-Scaled, InRange, effective_size_parts}
use fireactions.Pool.Settle.{Work, Work-Heads, Heads, in_flight}

drift-Heads :
    (d : ℤ) (p : Pool) {q : Pool} (n : ℕ)
    → p.cancelled ≡ false
    → CountersAgree p
    → InRange p
    → p.deleters_spawned + p.deleters_deleting + neg_part (d -ℤ effective_size p)
      ≤ length p.machines
    → n + p.creators_returning + neg_part d ≡ pos_part d + length p.stopping
    → scale d p ≡ ok q
    → Heads n q
drift-Heads d p {q} n live c r enough target e =
    let (q', e', s') = scale-Scaled d p live in
    let same : q' ≡ q = cc in
    let s : Scaled (d -ℤ effective_size p) p q = subst (Scaled (d -ℤ effective_size p) p) same s' in
    let z = -ℤ_parts d (effective_size p) in
    let signs = parts_cases (d -ℤ effective_size p) in
    let size = effective_size_parts p c r in
    let len = ap length s.same_machines in
    let stops = ap length s.same_stopping in
    record {
      live = s.same_cancelled ∙ live;
      enough = omega (arith, s);
      projected = omega (arith, s);
    }

-- Scale's steps alone give what Scale does.
alone :
    (d : ℤ) (p : Pool) {q : Pool}
    → p.cancelled ≡ false
    → Alone (at (scaling d) p) (at waiting q)
    → scale d p ≡ ok q
alone d p live h =
    let (q', e', s') = scale-Scaled d p live in
    e' ∙ ap ok (sym (ap Loop.pool ((round-Alone p).2 d _ h) ∙ scaled-ok d p e'))
  where
    scaled-ok :
        (d : ℤ) (p : Pool) {q : Pool}
        → scale d p ≡ ok q
        → (elim (scale d p) [ ok q ↦ q | err e ↦ p ]) ≡ q
    scaled-ok d p e = rw e refl

scale_settled :
    (d : ℕ) (p : Pool) {q u : Pool}
    → p.cancelled ≡ false
    → CountersAgree p
    → InRange p
    → p.deleters_spawned + p.deleters_deleting + neg_part (pos d -ℤ effective_size p)
      ≤ length p.machines
    → p.creators_returning ≤ d + length p.stopping
    → scale (pos d) p ≡ ok q
    → Work q u
    → in_flight u ≡ 0
    → length u.machines + p.creators_returning ≡ d + length p.stopping
scale_settled d p live c r enough room e w over =
    let n = d + length p.stopping - p.creators_returning in
    let k = Work-Heads n w (drift-Heads (pos d) p n live c r enough (omega arith) e) in
    omega (arith, k)

-- In a pool that is not stopping, with counters that agree and do not wrap, and with a machine for
-- each deletion in flight or launched: when a call of Scale with a number that is not negative has made all
-- its steps, from its look at ctx to its last launch, with no other's step between them, and then all
-- goroutines have returned, no creation failing and no machine exiting, the map has one machine more
-- than desired for each goroutine of scaleDown that was inside StopVMM when Scale looked, and one less
-- for each of scaleUp that had stored its machine and not yet returned.
pub scale_drift :
    (d : ℕ) (p : Pool) {q u : Pool}
    → p.cancelled ≡ false
    → CountersAgree p
    → InRange p
    → p.deleters_spawned + p.deleters_deleting + neg_part (pos d -ℤ effective_size p)
      ≤ length p.machines
    → p.creators_returning ≤ d + length p.stopping
    → Alone (at (scaling (pos d)) p) (at waiting q)
    → Work q u
    → in_flight u ≡ 0
    → length u.machines + p.creators_returning ≡ d + length p.stopping
scale_drift d p live c r enough room h w over =
    scale_settled d p live c r enough room (alone (pos d) p live h) w over

-- The bug: a pool that already has as many machines as it wants, and whose goroutines of scaleDown
-- are still inside StopVMM, is scaled up by a machine for each of them, and stays above its target by
-- as many when all goroutines have returned.
pub scale_overshoots :
    (p : Pool) {q u : Pool}
    → p.cancelled ≡ false
    → CountersAgree p
    → in_creation p ≡ 0
    → in_deletion p ≡ length p.stopping
    → length p.stopping < 2147483648
    → scale (pos (length p.machines)) p ≡ ok q
    → Work q u
    → in_flight u ≡ 0
    → (in_creation q ≡ length p.stopping)
      × (length u.machines ≡ length p.machines + length p.stopping)
scale_overshoots p {q} live c no_creation stops few e w over =
    let r : InRange p = record { creates_fit = omega arith; deletes_fit = omega arith } in
    let d = pos (length p.machines) in
    let (q', e', s') = scale-Scaled d p live in
    let same : q' ≡ q = cc in
    let s : Scaled (d -ℤ effective_size p) p q = subst (Scaled (d -ℤ effective_size p) p) same s' in
    let size = effective_size_parts p c r in
    let z = -ℤ_parts d (effective_size p) in
    let signs = parts_cases (d -ℤ effective_size p) in
    let k = scale_settled (length p.machines) p live c r (omega arith) (omega arith) e w over in
    (omega (arith, s), omega arith)
