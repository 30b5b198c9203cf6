-- ===== src/Pool/StopTests.antt =====
-- Stop in a pool with one machine in the map and a creation that has not begun.
use fireactions.Prelude.{
  codes, ◌≡◌, refl, ◌≢◌, true, List, [], ◌∷◌, some, none, lookup, delete, text_eq,
}
use fireactions.Pool.{Pool, Machine}
use fireactions.Pool.Events.{
  Reach, next, exec, take_out, creator_starts, creator_stores, creator_returns, cleanup_removes,
  cleanup_is_done, stop,
}
use fireactions.Pool.Stop.{
  StopRun, begins, run_is_late, lists, stops_machine, has_stopped, meanwhile, cleanups_are_done,
  returned, awaiting_cleanups,
}
use fireactions.Pool.Drain.{Empty, stop-Empty, Listed, stop-Listed, stop-misses}
use fireactions.Pool.Tests.{config, machine, fresh, new_fresh, launched, launched-Reach}

abbrev one_stored : Pool
one_stored = record launched {
  pending_creates = 1;
  creators_spawned = 1;
  machines = (codes "a", machine) ∷ [];
  cleanups = codes "a" ∷ [];
}

one_stored-Reach : Reach fresh one_stored
unfolding exec
one_stored-Reach =
    next {t = record one_stored { pending_creates = 2; creators_returning = 1 }} creator_returns
      (next {t = record launched { creators_spawned = 1; creators_creating = 1 }}
        (creator_stores (codes "a") machine) (next creator_starts launched-Reach refl) refl)
      refl

abbrev stopped_one : Pool
stopped_one = record one_stored { cancelled = true; stop_ch = true }

abbrev removed_one : Pool
removed_one = record stopped_one { machines = []; cleanups = []; closing = codes "a" ∷ [] }

abbrev emptied : Pool
emptied = record removed_one { closing = [] }

waiting_run : StopRun one_stored (awaiting_cleanups (machine ∷ [])) stopped_one
unfolding stop
waiting_run = has_stopped (stops_machine (lists (run_is_late begins)))

emptied_run : StopRun one_stored (returned (machine ∷ [])) emptied
unfolding exec take_out delete text_eq
emptied_run =
    cleanups_are_done
      (meanwhile {q = removed_one} (cleanup_is_done (codes "a"))
        (meanwhile {q = stopped_one} (cleanup_removes (codes "a")) waiting_run refl) refl)
      refl refl

stop-Empty_example : Empty emptied
stop-Empty_example =
    stop-Empty config fresh one_stored emptied (machine ∷ []) new_fresh one_stored-Reach refl
      emptied_run

stop-Listed_example : Listed one_stored (machine ∷ []) emptied
stop-Listed_example = stop-Listed one_stored (machine ∷ []) emptied emptied_run

stop-misses_example :
    (done : List Machine) × (q : Pool) × StopRun
      (record one_stored { creators_creating = 1 })
      (returned done)
      q
    × (lookup (codes "b") q.machines ≡ some machine)
    × (take_out (codes "b") q.cleanups ≢ none)
stop-misses_example =
    stop-misses (record one_stored { creators_creating = 1 }) 0 (codes "b") machine refl
