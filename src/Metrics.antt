-- ===== src/Metrics.antt =====
-- server/metrics.go: the Prometheus series of one pool, and where server/pool.go and server/rpc.go set
-- them. A pool sets only the series whose labels are its name and its organization. The values of a
-- histogram are left out: `up_durations` and `down_durations` count its observations.
pub mod Counts
pub mod Status
pub mod Service
pub mod Tests
use fireactions.Prelude.{
  ℕ, ◌+◌, ◌≡◌, Bool, true, false, Option, none, some, Result, ok, err, ℤ, pos, ◌-ℤ◌, signed32,
  if◌then◌else◌,
}
use fireactions.Config.{PoolConfig}
use fireactions.Pool.{Pool, PoolError, new_pool, get_current_size, get_replicas}
use fireactions.Pool.Events.{
  Event, exec, Wake, rounds, trigger, timer, stop_signal, ctx_done, creator_starts, creator_fails,
  creator_returns, deleter_starts, deleter_gives_up, creator_stores, deleter_picks, deleter_returns,
  cleanup_removes, cleanup_is_done, sets_replicas, triggers, pauses, resumes, stops,
}

-- A gauge that was never set has no series: none.
pub record Series : Type 0 where
  pub runners_current : Option ℤ
  pub runners_desired : Option ℤ
  pub runners_pending : Option ℤ
  pub pool_status : Option ℤ
  pub scale_requests : ℕ
  pub up_success : ℕ
  pub up_failure : ℕ
  pub down_success : ℕ
  pub down_failure : ℕ
  pub up_durations : ℕ
  pub down_durations : ℕ

-- What the registry has at the start of the program.
abbrev pub no_series : Series
no_series = record {
  runners_current = none;
  runners_desired = none;
  runners_pending = none;
  pool_status = none;
  scale_requests = 0;
  up_success = 0;
  up_failure = 0;
  down_success = 0;
  down_failure = 0;
  up_durations = 0;
  down_durations = 0;
}

-- A pool and its series.
pub record Metered : Type 0 where
  pub pool : Pool
  pub series : Series

-- The end of NewPool: the gauge of the desired number is what the configuration says.
unfoldable pub new_metered : PoolConfig → Bool → Series → Result PoolError Metered
unfolding new_pool get_current_size
new_metered config has_directory s = elim (new_pool config has_directory) [
  | err e ↦ err e
  | ok p ↦ ok (record {
    pool = p;
    series = record s {
      runners_current = some (pos (get_current_size p));
      runners_desired = some config.replicas;
      pool_status = some (pos 1);
    };
  })
]

-- The gauges that a round of Run sets.
unfoldable pub observe : Pool → Series → Series
unfolding get_current_size get_replicas signed32 ◌-ℤ◌
observe p s = record s {
  runners_current = some (pos (get_current_size p));
  runners_desired = some (get_replicas p);
  runners_pending = some (signed32 p.pending_creates -ℤ signed32 p.pending_deletes);
}

-- They are set after the second look at ctx and stopCh, whether the pool is active or not.
unfoldable pub observe_round : Pool → Series → Series
unfolding observe
observe_round p s = if p.cancelled then s else if p.stop_ch then s else observe p s

unfoldable pub record_wake : Wake → Pool → Series → Series
unfolding observe_round
record_wake trigger p s = observe_round p s
record_wake timer p s = observe_round p s
record_wake stop_signal p s = s
record_wake ctx_done p s = s

unfoldable pub record_success_up : Series → Series
record_success_up s = record s { up_success = s.up_success + 1; up_durations = s.up_durations + 1 }

-- deleteMachine returns the error of StopVMM.
unfoldable pub record_deletion : Bool → Series → Series
record_deletion stop_fails s =
    if stop_fails
    then record s { down_failure = s.down_failure + 1 }
    else record s { down_success = s.down_success + 1; down_durations = s.down_durations + 1 }

-- What each event does to the series. Only the end of a deletion looks at whether StopVMM fails. The
-- handlers of rpc.go are a step each: ScalePool counts the request, PausePool and ResumePool set the
-- status (Metrics/Status has them step by step).
unfoldable pub record_event : Event → Bool → Pool → Series → Series
unfolding record_wake record_success_up record_deletion
record_event (rounds w) fails p s = record_wake w p s
record_event creator_fails fails p s = record s { up_failure = s.up_failure + 1 }
record_event creator_returns fails p s = record_success_up s
record_event deleter_gives_up fails p s = record s { down_failure = s.down_failure + 1 }
record_event (deleter_returns name) fails p s = record_deletion fails s
record_event (sets_replicas n) fails p s = record s { scale_requests = s.scale_requests + 1 }
record_event pauses fails p s = record s { pool_status = some (pos 0) }
record_event resumes fails p s = record s { pool_status = some (pos 1) }
record_event creator_starts fails p s = s
record_event (creator_stores name m) fails p s = s
record_event deleter_starts fails p s = s
record_event (deleter_picks name) fails p s = s
record_event (cleanup_removes name) fails p s = s
record_event (cleanup_is_done name) fails p s = s
record_event triggers fails p s = s
record_event stops fails p s = s

-- A round sets its gauges at the moment at which it scales, and a handler its series at that at which it
-- changes the pool; Metrics/Status has the steps of the handlers apart.
unfoldable pub exec_metered : Event → Bool → Metered → Option Metered
unfolding exec record_event
exec_metered e fails m = elim (exec e m.pool) [
  | none ↦ none
  | some q ↦ some (record { pool = q; series = record_event e fails m.pool m.series })
]

-- A pool's history, with its series.
pub data Recorded (s : Metered) : Metered → Type 0 where
  at_start : Recorded s s
  recorded :
      {t u : Metered} (e : Event) (fails : Bool)
      → Recorded s t
      → exec_metered e fails t ≡ some u
      → Recorded s u
