-- ===== src/Metrics/Tests.antt =====
-- The theorems about the series at concrete pools.
use fireactions.Prelude.{◌≡◌, refl, true, false, some, ok, pos}
use fireactions.Pool.Events.{rounds, timer, creator_starts, creator_fails, pauses}
use fireactions.Pool.Tests.{config, fresh}
use fireactions.Metrics.{
  Metered, no_series, new_metered, exec_metered, Recorded, at_start, recorded,
}
use fireactions.Metrics.Counts.{Counted, tally, Recorded-Counted}
use fireactions.Metrics.Status.{
  Handlers, Handled, Wrong, no_handlers, Recorded-status, overlap-Wrong,
}

abbrev start : Metered
start = record {
  pool = fresh;
  series = record no_series {
    runners_current = some (pos 0);
    runners_desired = some (pos 2);
    pool_status = some (pos 1);
  };
}

new_start : new_metered config true no_series ≡ ok start
unfolding new_metered
new_start = refl

-- A round launches two creations, one of which starts and fails; the pool is then paused.
abbrev one_failed : Metered
one_failed = record {
  pool = record fresh { pending_creates = 1; creators_spawned = 1; is_active = false };
  series = record start.series {
    runners_pending = some (pos 0);
    pool_status = some (pos 0);
    up_failure = 1;
  };
}

history : Recorded start one_failed
unfolding exec_metered
history =
    recorded pauses false
      (recorded creator_fails false
        (recorded creator_starts false (recorded (rounds timer) false at_start refl) refl) refl)
      refl

Recorded-Counted_example : Counted (tally history) one_failed.pool one_failed.series
Recorded-Counted_example = Recorded-Counted config start one_failed new_start history

Recorded-status_example : one_failed.series.pool_status ≡ some (pos 0)
Recorded-status_example = Recorded-status config no_series start one_failed new_start history

overlap-Wrong_example :
    ((t : Handlers) × Handled (no_handlers one_failed) t × Wrong true t)
    × ((u : Handlers) × Handled (no_handlers one_failed) u × Wrong false u)
overlap-Wrong_example = overlap-Wrong one_failed
