-- ===== src/Metrics/Counts.antt =====
-- server/metrics.go: what the counters of scale operations count.
use fireactions.Prelude.{
  ℕ, zero, suc, ◌+◌, ◌-◌, ◌≤◌, ◌≡◌, Bool, true, false, some, ok, ℤ, pos, negsuc, ◌-ℤ◌, ap, arith,
  length, ltb, if◌then◌else◌, inl, inr, Option-cases,
}
use fireactions.Config.{PoolConfig}
use fireactions.Pool.{
  new_pool, Pool, scale_by, scale_down, scale, effective_size, get_replicas, get_current_size,
}
use fireactions.Pool.Events.{
  Event, exec, take_out, rounds, creator_starts, creator_stores, deleter_starts, deleter_picks,
  deleter_returns, Wake, run_round, wake_up, round, trigger, timer, stop_signal, ctx_done,
}
use fireactions.Pool.Counters.{in_creation, in_deletion, length-take_out}
use fireactions.Pool.Target.{scale_up_lem, spawn_deleters_lem}
use fireactions.Metrics.{
  Series, Metered, no_series, new_metered, exec_metered, Recorded, at_start, recorded, record_wake,
  observe_round, observe, record_event, record_success_up, record_deletion,
}

-- What an event adds to the goroutines that were ever launched, and to those that found the pool
-- stopping before they began.
pub record Tally : Type 0 where
  pub created : ℕ
  pub created_none : ℕ
  pub deleted : ℕ
  pub deleted_none : ℕ
  pub stored : ℕ
  pub picked : ℕ

abbrev pub tally_event : Event → Pool → Pool → Tally → Tally
tally_event (rounds w) p q t = record t {
  created = t.created + (q.creators_spawned - p.creators_spawned);
  deleted = t.deleted + (q.deleters_spawned - p.deleters_spawned);
}
tally_event creator_starts p q t =
    if p.cancelled then record t { created_none = t.created_none + 1 } else t
tally_event deleter_starts p q t =
    if p.cancelled then record t { deleted_none = t.deleted_none + 1 } else t
tally_event (creator_stores name m) p q t = record t { stored = t.stored + 1 }
tally_event (deleter_picks name) p q t = record t { picked = t.picked + 1 }
tally_event _ p q t = t

abbrev pub tally : {s t : Metered} → Recorded s t → Tally
tally at_start = record {
  created = 0;
  created_none = 0;
  deleted = 0;
  deleted_none = 0;
  stored = 0;
  picked = 0;
}
tally (recorded {t} {u} e fails r h) = tally_event e t.pool u.pool (tally r)

pub record Counted (t : Tally) (p : Pool) (s : Series) : Type 0 where
  pub creations : t.created ≡ in_creation p + (s.up_success + s.up_failure) + t.created_none
  pub deletions : t.deleted ≡ in_deletion p + (s.down_success + s.down_failure) + t.deleted_none
  pub stores : t.stored ≡ p.creators_returning + s.up_success
  pub picks : s.down_success + length p.stopping ≤ t.picked
  pub timed_up : s.up_durations ≡ s.up_success
  pub timed_down : s.down_durations ≡ s.down_success

-- A round launches goroutines and finishes none.
record Launched (p q : Pool) : Type 0 where
  more_created : p.creators_spawned ≤ q.creators_spawned
  more_deleted : p.deleters_spawned ≤ q.deleters_spawned
  same_creating : q.creators_creating ≡ p.creators_creating
  same_returning : q.creators_returning ≡ p.creators_returning
  same_deleting : q.deleters_deleting ≡ p.deleters_deleting
  same_stopping : q.stopping ≡ p.stopping

scale_by-Launched : (z : ℤ) (p : Pool) → Launched p (scale_by z p)
unfolding scale_by scale_down
scale_by-Launched (pos zero) p = ground arith
scale_by-Launched (pos (suc n)) p = ground (arith, scale_up_lem (suc n) p)
scale_by-Launched (negsuc n) p =
    let cur = get_current_size p in
    ground (arith, spawn_deleters_lem (if ltb cur (suc n) then cur else suc n) p)

round-Launched : (p : Pool) → Launched p (round p)
unfolding round scale
round-Launched p = ground (arith, scale_by-Launched (get_replicas p -ℤ effective_size p) p)

wake_up-Launched : (w : Wake) (p : Pool) {q : Pool} → run_round w p ≡ some q → Launched p q
unfolding run_round wake_up
wake_up-Launched trigger p h = ground (arith, round-Launched (record p { scale_trigger = false }))
wake_up-Launched timer p h = ground (arith, round-Launched p)
wake_up-Launched stop_signal p h = ground arith
wake_up-Launched ctx_done p h = ground arith

record_wake-Counted :
    (w : Wake) (p : Pool) {q : Pool} (s : Series) (t : Tally)
    → Launched p q
    → Counted t p s
    → Counted (tally_event (rounds w) p q t) q (record_wake w p s)
unfolding record_wake observe_round observe
record_wake-Counted trigger p s t l c = let e = ap length l.same_stopping in ground (arith, l, c)
record_wake-Counted timer p s t l c = let e = ap length l.same_stopping in ground (arith, l, c)
record_wake-Counted stop_signal p s t l c =
    let e = ap length l.same_stopping in ground (arith, l, c)
record_wake-Counted ctx_done p s t l c = let e = ap length l.same_stopping in ground (arith, l, c)

record_event-Counted :
    (e : Event) (fails : Bool) (p : Pool) {q : Pool} (s : Series) (t : Tally)
    → exec e p ≡ some q
    → Counted t p s
    → Counted (tally_event e p q t) q (record_event e fails p s)
unfolding exec record_event record_success_up record_deletion
record_event-Counted (rounds w) fails p s t h c =
    record_wake-Counted w p s t (wake_up-Launched w p h) c
record_event-Counted (deleter_returns name) fails p s t h c =
    elim (Option-cases (take_out name p.stopping)) [
      | inl e ↦ ground arith
      | inr (ys, e) ↦ ground (arith, length-take_out name p.stopping {ys = ys} e)
    ]
record_event-Counted _ fails p s t h c = ground arith

exec_metered-Counted :
    (e : Event) (fails : Bool) (m : Metered) {n : Metered} (t : Tally)
    → exec_metered e fails m ≡ some n
    → Counted t m.pool m.series
    → Counted (tally_event e m.pool n.pool t) n.pool n.series
unfolding exec_metered
exec_metered-Counted e fails m t h c = elim (Option-cases (exec e m.pool)) [
  | inl stuck ↦ ground arith
  | inr (q, x) ↦ ground (arith, record_event-Counted e fails m.pool m.series t x c)
]

-- Over any history of a new pool: every goroutine that scaleUp launched is still in flight, or is
-- counted once in scale_operations_total as a success or as a failure, or found the pool stopping
-- before it began; the same for scaleDown. A success up is a machine stored in the map by a goroutine
-- that has returned; the machines taken out for deletion are at least the successes down and those that
-- are still inside StopVMM; and every success, and nothing else, is timed.
pub Recorded-Counted :
    (c : PoolConfig) (s u : Metered)
    → new_metered c true no_series ≡ ok s
    → (r : Recorded s u) → Counted (tally r) u.pool u.series
unfolding new_metered new_pool
Recorded-Counted c s u new at_start = ground arith
Recorded-Counted c s u new (recorded {t} e fails r h) =
    exec_metered-Counted e fails t (tally r) h (Recorded-Counted c s t new r)
