-- ===== src/Pool/Converge.antt =====
-- server/pool.go: the Run loop and the goroutines together, and where a pool can always be brought to.
use fireactions.Prelude.{
  zero, suc, ◌≡◌, refl, ap, ◌∙◌, sym, true, false, some, ok, ℤ, pos, negsuc, pos_part, ◌-ℤ◌,
  -ℤ_parts, parts_cases, eq_of_parts, arith, length, inl, inr, ltb, if◌then◌else◌,
}
use fireactions.Config.{PoolConfig}
use fireactions.Pool.{
  Pool, Machine, new_pool, scale_by, scale, scale_down, spawn_deleters, effective_size,
  get_current_size, get_replicas,
}
use fireactions.Pool.Events.{
  Event, exec, run_round, wake_up, round, Reach, Reach-trans, here, next, timer, rounds,
}
use fireactions.Pool.Counters.{CountersAgree, Reach-CountersAgree}
use fireactions.Pool.Target.{InRange, effective_size_parts, scale_up_lem, spawn_deleters_lem}
use fireactions.Pool.Settle.{
  Work, done, step, IsWork, in_flight, all_return, scale_can_settle, work_left,
}

-- The pool is active, and its Run loop is neither over nor asked to end.
pub record Running (p : Pool) : Type 0 where
  pub active : p.is_active ≡ true
  pub live : p.cancelled ≡ false
  pub looping : p.exited ≡ false
  pub unsignalled : p.stop_ch ≡ false

-- What neither Scale nor the goroutines touch.
record Kept (p q : Pool) : Type 0 where
  same_active : q.is_active ≡ p.is_active
  same_cancelled : q.cancelled ≡ p.cancelled
  same_exited : q.exited ≡ p.exited
  same_signal : q.stop_ch ≡ p.stop_ch
  same_replicas : q.replicas ≡ p.replicas

exec-Kept : (e : Event) (p : Pool) {q : Pool} → IsWork e p → exec e p ≡ some q → Kept p q
unfolding exec
exec-Kept (Event.rounds x) p w h = absurd w
exec-Kept e p w h = ground arith

Work-Kept : {p q : Pool} → Work p q → Kept p q
Work-Kept done = ground arith
Work-Kept (step e r w x) =
    let before = Work-Kept r in let after = exec-Kept e _ w x in ground (arith, before, after)

Work-Reach : {p q : Pool} → Work p q → Reach p q
Work-Reach done = here
Work-Reach (step e r w x) = next e (Work-Reach r) x

scale_by-Kept : (z : ℤ) (p : Pool) → Kept p (scale_by z p)
unfolding scale_by scale_down
scale_by-Kept (pos zero) p = ground arith
scale_by-Kept (pos (suc n)) p = ground (arith, scale_up_lem (suc n) p)
scale_by-Kept (negsuc n) p =
    let cur = get_current_size p in
    ground (arith, spawn_deleters_lem (if ltb cur (suc n) then cur else suc n) p)

-- A round that the timer wakes is a call of Scale.
round_scales :
    (p q : Pool) → Running p → scale (get_replicas p) p ≡ ok q → exec (rounds timer) p ≡ some q
unfolding exec run_round wake_up round
round_scales p q r h = ground (arith, r, h)

-- A pool at rest at its target.
record Settled (d : ℤ) (p : Pool) : Type 0 where
  idle : in_flight p ≡ 0
  full : length p.machines ≡ pos_part d

scale_by_rest : (z : ℤ) (p : Pool) → pos_part z ≡ 0 → length p.machines ≡ 0 → scale_by z p ≡ p
unfolding scale_by scale_down spawn_deleters get_current_size
scale_by_rest (pos zero) p h e = refl
scale_by_rest (pos (suc n)) p h e = ground arith
scale_by_rest (negsuc n) p h e = ground arith

scale_rests :
    (d : ℤ) (p : Pool)
    → p.cancelled ≡ false
    → CountersAgree p
    → in_flight p ≡ 0
    → length p.machines ≡ pos_part d
    → scale d p ≡ ok p
unfolding scale
scale_rests d p live c idle full =
    let r : InRange p = record { creates_fit = omega arith; deletes_fit = omega arith } in
    let size = effective_size_parts p c r in
    let delta = -ℤ_parts d (effective_size p) in
    let signs = parts_cases (d -ℤ effective_size p) in
    let esigns = parts_cases (effective_size p) in
    elim (parts_cases d) [
      | inl negative ↦
          ground (arith, scale_by_rest (d -ℤ effective_size p) p (omega arith) (omega arith))
      | inr no_debt ↦
          let same : d -ℤ effective_size p ≡ pos 0 = eq_of_parts _ _ (omega arith) in
          let rest : scale_by (d -ℤ effective_size p) p ≡ p = rw same (unfold scale_by in refl) in
          ground (arith, rest)
    ]

Running-Kept : {p q : Pool} → Running p → Kept p q → Running q
Running-Kept r k = record {
  active = k.same_active ∙ r.active;
  live = k.same_cancelled ∙ r.live;
  looping = k.same_exited ∙ r.looping;
  unsignalled = k.same_signal ∙ r.unsignalled;
}

get_replicas-Kept : {p q : Pool} → Kept p q → get_replicas q ≡ get_replicas p
unfolding get_replicas
get_replicas-Kept k = rw k.same_replicas refl

Kept-trans : {p q r : Pool} → Kept p q → Kept q r → Kept p r
Kept-trans a b = ground (arith, a, b)

scale-Kept : (d : ℤ) (p : Pool) {q : Pool} → scale d p ≡ ok q → Kept p q
unfolding scale
scale-Kept d p h = ground (arith, scale_by-Kept (d -ℤ effective_size p) p)

-- A pool at rest: nothing is in flight, there are as many machines as the pool is to have (none for a
-- negative number), and a further round of the Run loop changes nothing.
abbrev pub AtRest : Pool → Type 0
AtRest p =
    (in_flight p ≡ 0)
    × (length p.machines ≡ pos_part (get_replicas p))
    × (exec (rounds timer) p ≡ some p)

-- Whatever has happened to an active pool whose Run loop goes on, its goroutines can all return, the
-- next round that the timer wakes call Scale, and the goroutines which that launches return too: the
-- pool is then at rest with the number of machines that it was to have, and still runs.
pub Reach-AtRest :
    (c : PoolConfig) (s p : Pool) (m : Machine)
    → new_pool c true ≡ ok s
    → Reach s p
    → Running p
    → (u : Pool) × Reach p u × AtRest u × (get_replicas u ≡ get_replicas p) × Running u
Reach-AtRest c s p m new r run =
    let (t, w, idle) = all_return (suc (work_left p)) p m (omega arith) in
    let quiet = Work-Kept w in
    let running = Running-Kept run quiet in
    let agree = Reach-CountersAgree c s t new (Reach-trans r (Work-Reach w)) in
    let d = get_replicas t in
    let (q, u, scaled, v, over, full) = scale_can_settle d t m running.live agree idle in
    let to_u =
      Reach-trans (next (rounds timer) (Work-Reach w) (round_scales t q running scaled))
        (Work-Reach v) in
    let since = Kept-trans (scale-Kept d t scaled) (Work-Kept v) in
    let same = get_replicas-Kept since in
    let still = Running-Kept running since in
    let agree' = Reach-CountersAgree c s u new (Reach-trans r to_u) in
    let rests = scale_rests d u still.live agree' over full in
    (
      u,
      to_u,
      (
        over,
        full ∙ ap pos_part (sym same),
        round_scales u u still (ap (λ x. scale x u) same ∙ rests),
      ),
      same ∙ get_replicas-Kept quiet,
      still,
    )
