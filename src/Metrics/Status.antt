-- ===== src/Metrics/Status.antt =====
-- server/rpc.go: PausePool and ResumePool change the pool and then its pool_status gauge, in two steps
-- that no lock joins.
use fireactions.Prelude.{
  ℕ, zero, suc, ◌+◌, ◌≡◌, refl, Bool, true, false, Option, none, some, ok, ℤ, pos, arith,
  if◌then◌else◌, inl, inr, Option-cases, ltb, negsuc, ◌-ℤ◌,
}
use fireactions.Config.{PoolConfig}
use fireactions.Pool.{
  Pool, new_pool, pause, resume, scale_by, scale_down, scale, effective_size, get_replicas,
  get_current_size,
}
use fireactions.Pool.Events.{
  Event, Wake, exec, rounds, trigger, timer, stop_signal, ctx_done, run_round, wake_up, round,
}
use fireactions.Pool.Target.{scale_up_lem, spawn_deleters_lem}
use fireactions.Metrics.{
  Series, Metered, new_metered, exec_metered, record_event, record_wake, observe_round, observe,
  record_success_up, record_deletion, Recorded, at_start, recorded,
}

-- 0 is paused, 1 is active.
abbrev pub status_of : Bool → Option ℤ
status_of b = some (if b then pos 1 else pos 0)

scale_by-is_active : (z : ℤ) (p : Pool) → (scale_by z p).is_active ≡ p.is_active
unfolding scale_by scale_down
scale_by-is_active (pos zero) p = refl
scale_by-is_active (pos (suc n)) p = ground (arith, scale_up_lem (suc n) p)
scale_by-is_active (negsuc n) p =
    let cur = get_current_size p in
    ground (arith, spawn_deleters_lem (if ltb cur (suc n) then cur else suc n) p)

round-is_active : (p : Pool) → (round p).is_active ≡ p.is_active
unfolding round scale
round-is_active p = ground (arith, scale_by-is_active (get_replicas p -ℤ effective_size p) p)

record_wake-status :
    (w : Wake) (p : Pool) {q : Pool} (s : Series)
    → run_round w p ≡ some q
    → s.pool_status ≡ status_of p.is_active
    → (record_wake w p s).pool_status ≡ status_of q.is_active
unfolding run_round wake_up record_wake observe_round observe
record_wake-status trigger p s h e =
    ground (arith, round-is_active (record p { scale_trigger = false }))
record_wake-status timer p s h e = ground (arith, round-is_active p)
record_wake-status stop_signal p s h e = ground arith
record_wake-status ctx_done p s h e = ground arith

record_event-status :
    (e : Event) (fails : Bool) (p : Pool) {q : Pool} (s : Series)
    → exec e p ≡ some q
    → s.pool_status ≡ status_of p.is_active
    → (record_event e fails p s).pool_status ≡ status_of q.is_active
unfolding exec record_event record_success_up record_deletion
record_event-status (rounds w) fails p s h e = record_wake-status w p s h e
record_event-status _ fails p s h e = ground arith

exec_metered-status :
    (e : Event) (fails : Bool) (m : Metered) {n : Metered}
    → exec_metered e fails m ≡ some n
    → m.series.pool_status ≡ status_of m.pool.is_active
    → n.series.pool_status ≡ status_of n.pool.is_active
unfolding exec_metered
exec_metered-status e fails m h s = elim (Option-cases (exec e m.pool)) [
  | inl stuck ↦ ground arith
  | inr (q, x) ↦ ground (arith, record_event-status e fails m.pool m.series x s)
]

-- Over any history of a new pool in which no two calls of PausePool and ResumePool overlap, the
-- pool_status gauge is 1 while the pool is active and 0 while it is paused.
pub Recorded-status :
    (c : PoolConfig) (old : Series) (s u : Metered)
    → new_metered c true old ≡ ok s
    → Recorded s u
    → u.series.pool_status ≡ status_of u.pool.is_active
unfolding new_metered new_pool
Recorded-status c old s u new at_start = ground arith
Recorded-status c old s u new (recorded {t} e fails r h) =
    exec_metered-status e fails t h (Recorded-status c old s t new r)

-- How many handlers stand between their call of Pause, or Resume, and their Set.
pub record Handlers : Type 0 where
  pub metered : Metered
  pub pausing : ℕ
  pub resuming : ℕ

unfoldable pub set_status : ℤ → Metered → Metered
set_status n m = record m { series = record m.series { pool_status = some n } }

unfoldable pub pause_begins : Handlers → Handlers
unfolding pause
pause_begins h = record h {
  metered = record h.metered { pool = pause h.metered.pool };
  pausing = h.pausing + 1;
}

unfoldable pub pause_ends : Handlers → Option Handlers
unfolding set_status
pause_ends h = elim h.pausing [
  | zero ↦ none
  | suc n ↦ some (record h { metered = set_status (pos 0) h.metered; pausing = n })
]

unfoldable pub resume_begins : Handlers → Handlers
unfolding resume
resume_begins h = record h {
  metered = record h.metered { pool = resume h.metered.pool };
  resuming = h.resuming + 1;
}

unfoldable pub resume_ends : Handlers → Option Handlers
unfolding set_status
resume_ends h = elim h.resuming [
  | zero ↦ none
  | suc n ↦ some (record h { metered = set_status (pos 1) h.metered; resuming = n })
]

-- The steps of the handlers, in any order.
pub data Handled (s : Handlers) : Handlers → Type 0 where
  no_calls : Handled s s
  calls_pause : {t : Handlers} → Handled s t → Handled s (pause_begins t)
  calls_resume : {t : Handlers} → Handled s t → Handled s (resume_begins t)
  sets_paused : {t u : Handlers} → Handled s t → pause_ends t ≡ some u → Handled s u
  sets_active : {t u : Handlers} → Handled s t → resume_ends t ≡ some u → Handled s u

abbrev pub no_handlers : Metered → Handlers
no_handlers m = record { metered = m; pausing = 0; resuming = 0 }

-- No handler is under way, and the gauge says the opposite of what the pool is.
abbrev pub Wrong : Bool → Handlers → Type 0
Wrong active h =
    (h.pausing ≡ 0)
    × (h.resuming ≡ 0)
    × (h.metered.pool.is_active ≡ active)
    × (h.metered.series.pool_status ≡ status_of (if active then false else true))

-- One call of PausePool and one of ResumePool that overlap can leave any pool active with a gauge that
-- says paused, and can leave it paused with a gauge that says active.
pub overlap-Wrong :
    (m : Metered)
    → ((t : Handlers) × Handled (no_handlers m) t × Wrong true t)
      × ((u : Handlers) × Handled (no_handlers m) u × Wrong false u)
unfolding pause_begins pause_ends resume_begins resume_ends pause resume set_status
overlap-Wrong m =
    let none_yet : Handled (no_handlers m) (no_handlers m) = no_calls in
    let resumed_last = calls_resume (calls_pause none_yet) in
    let paused_last = calls_pause (calls_resume none_yet) in
    (
      (_, sets_paused (sets_active resumed_last refl) refl, (refl, refl, ground arith, refl)),
      (_, sets_active (sets_paused paused_last refl) refl, (refl, refl, ground arith, refl)),
    )
