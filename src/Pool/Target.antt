-- ===== src/Pool/Target.antt =====
-- server/pool.go: what one call of Scale does to the effective size that it computes.
use fireactions.Prelude.{
  ℕ, zero, suc, ◌+◌, ◌<◌, ◌≡◌, refl, inl, inr, false, ok, ℤ, pos, negsuc, pos_part, neg_part, sub_ℕ,
  ◌-ℤ◌, ◌+ℤ◌, ◌≤ℤ◌, -ℤ_parts, +ℤ_parts, eq_of_parts, min, signed32-wrap32, arith, length, ltb,
  if◌then◌else◌, leb-cases, parts_cases, ap,
}
use fireactions.Pool.{
  Pool, scale_up, scale_down, spawn_deleters, spawn_creator, spawn_deleter, scale_by, scale,
  effective_size, get_current_size,
}
use fireactions.Pool.Counters.{CountersAgree, in_creation, in_deletion, scale-CountersAgree}

-- scaleUp changes the counter and launches that many goroutines.
pub scale_up_lem :
    (n : ℕ) (p : Pool)
    → scale_up n p ≡ record p {
      pending_creates = (scale_up n p).pending_creates;
      creators_spawned = p.creators_spawned + n;
    }
unfolding scale_up
scale_up_lem zero p = ground arith
scale_up_lem (suc n) p = ground (arith, scale_up_lem n (spawn_creator p))

pub spawn_deleters_lem :
    (n : ℕ) (p : Pool)
    → spawn_deleters n p ≡ record p {
      pending_deletes = (spawn_deleters n p).pending_deletes;
      deleters_spawned = p.deleters_spawned + n;
    }
unfolding spawn_deleters
spawn_deleters_lem zero p = ground arith
spawn_deleters_lem (suc n) p = ground (arith, spawn_deleters_lem n (spawn_deleter p))

-- While fewer than 2 ^ 31 goroutines of each kind are in flight, nothing wraps.
pub record InRange (p : Pool) : Type 0 where
  pub creates_fit : in_creation p < 2147483648
  pub deletes_fit : in_deletion p < 2147483648

pub effective_size_lem :
    (p : Pool)
    → CountersAgree p
    → InRange p
    → effective_size p ≡ sub_ℕ (length p.machines + in_creation p) (in_deletion p)
unfolding effective_size
effective_size_lem p c r =
    ground (arith, signed32-wrap32 (in_creation p), signed32-wrap32 (in_deletion p))

pub effective_size_parts :
    (p : Pool)
    → CountersAgree p
    → InRange p
    → pos_part (effective_size p) + in_deletion p
      ≡ neg_part (effective_size p) + (length p.machines + in_creation p)
effective_size_parts p c r = rw (effective_size_lem p c r) (ground arith)

-- What scaling by a difference launches.
pub record Scaled (z : ℤ) (p q : Pool) : Type 0 where
  pub same_machines : q.machines ≡ p.machines
  pub same_cancelled : q.cancelled ≡ p.cancelled
  pub same_returning : q.creators_returning ≡ p.creators_returning
  pub same_stopping : q.stopping ≡ p.stopping
  pub created : in_creation q ≡ in_creation p + pos_part z
  pub deleted : in_deletion q ≡ in_deletion p + min (neg_part z) (length p.machines)

scale_by-Scaled : (z : ℤ) (p : Pool) → Scaled z p (scale_by z p)
unfolding scale_by scale_down get_current_size
scale_by-Scaled (pos zero) p = ground arith
scale_by-Scaled (pos (suc n)) p = ground (arith, scale_up_lem (suc n) p)
scale_by-Scaled (negsuc n) p =
    let cur = length p.machines in
    ground (arith, spawn_deleters_lem (if ltb cur (suc n) then cur else suc n) p)

-- A pool that is not stopping is scaled: the map of machines stays as it is, as many creations are
-- launched as desired lies above the effective size, and as many deletions as it lies below, but at
-- most one for each machine in the map.
pub scale-Scaled :
    (d : ℤ) (p : Pool)
    → p.cancelled ≡ false
    → (q : Pool) × (scale d p ≡ ok q) × Scaled (d -ℤ effective_size p) p q
unfolding scale
scale-Scaled d p live =
    (scale_by (d -ℤ effective_size p) p, rw live, scale_by-Scaled (d -ℤ effective_size p) p)

-- How near one call comes to its target.
pub data Meets (d : ℤ) (p q : Pool) : Type 0 where
  reached : effective_size q ≡ d → Meets d p q
  capped :
      d ≤ℤ effective_size q
      → effective_size q +ℤ pos (length p.machines) ≡ effective_size p
      → Meets d p q

scale_by-Meets :
    (d : ℤ) (p q : Pool)
    → CountersAgree p
    → InRange p
    → CountersAgree q
    → InRange q
    → Scaled (d -ℤ effective_size p) p q
    → Meets d p q
scale_by-Meets d p q c r c' r' s =
    let same = ap length s.same_machines in
    let before = effective_size_parts p c r in
    let after = effective_size_parts q c' r' in
    let delta = -ℤ_parts d (effective_size p) in
    let signs = parts_cases (d -ℤ effective_size p) in
    elim (leb-cases (neg_part (d -ℤ effective_size p)) (length p.machines)) [
      | inl small ↦ reached (eq_of_parts _ _ (omega (arith, s)))
      | inr big ↦ capped (omega (arith, s)) (
          eq_of_parts _ _ (omega (arith, s, +ℤ_parts (effective_size q) (pos (length p.machines)))))
    ]

-- Scale either brings the effective size to desired, or, with too few machines in the map, launches a
-- deletion for each machine there and leaves the effective size at or above desired. It does so in
-- every pool that is not stopping, whose counters are those of the goroutines in flight, and where
-- fewer than 2 ^ 31 goroutines of each kind are in flight, those that it launches included.
pub scale-Meets :
    (d : ℤ) (p : Pool)
    → p.cancelled ≡ false
    → CountersAgree p
    → in_creation p + pos_part (d -ℤ effective_size p) < 2147483648
    → in_deletion p + length p.machines < 2147483648
    → (q : Pool) × (scale d p ≡ ok q) × Meets d p q
scale-Meets d p live c few_created few_deleted =
    let (q, e, s) = scale-Scaled d p live in
    let r : InRange p = record { creates_fit = omega arith; deletes_fit = omega arith } in
    let r' : InRange q = record {
      creates_fit = omega (arith, s);
      deletes_fit = omega (arith, s);
    } in
    (q, e, scale_by-Meets d p q c r (scale-CountersAgree d p e c) r' s)

-- A pool whose effective size is the desired one is left as it is.
pub scale-settled : (p : Pool) → p.cancelled ≡ false → scale (effective_size p) p ≡ ok p
unfolding scale scale_by
scale-settled p live =
    let same : effective_size p -ℤ effective_size p ≡ pos 0 =
      eq_of_parts _ _ (omega (arith, -ℤ_parts (effective_size p) (effective_size p))) in
    rw (live, same)

-- Scaling leaves the map and the cleanup goroutines alone.
pub scale_by_machines :
    (z : ℤ) (p : Pool)
    → ((scale_by z p).machines ≡ p.machines) × ((scale_by z p).cleanups ≡ p.cleanups)
unfolding scale_by scale_down get_current_size
scale_by_machines (pos zero) p = (refl, refl)
scale_by_machines (pos (suc n)) p = ground (arith, scale_up_lem (suc n) p)
scale_by_machines (negsuc n) p =
    let cur = length p.machines in
    ground (arith, spawn_deleters_lem (if ltb cur (suc n) then cur else suc n) p)
