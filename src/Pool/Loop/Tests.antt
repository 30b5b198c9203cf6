-- ===== src/Pool/Loop/Tests.antt =====
-- Rounds of Run at concrete pools: alone, overtaken by Stop, and with a goroutine of scaleUp between the
-- reads of Scale.
use fireactions.Prelude.{codes, ◌+◌, ◌≡◌, refl, true, ok, pos, arith, length, lookup}
use fireactions.Pool.{Pool, scale}
use fireactions.Pool.Events.{exec, stops, creator_starts}
use fireactions.Pool.Counters.{CountersAgree, Reach-CountersAgree}
use fireactions.Pool.Tests.{config, machine, fresh, launched, new_fresh, launched-Reach}
use fireactions.Pool.Loop.{Loop, Runs, here, goes, happens, at, go, scaling, sizing, launching_up}
use fireactions.Pool.Loop.Agree.{Runs-CountersAgree}
use fireactions.Pool.Loop.Stopped.{Stopped, stopped-Runs}
use fireactions.Pool.Loop.Torn.{Satisfied, after, scale-Torn}

-- Scale has looked at ctx, and then Stop is called.
abbrev too_late : Pool
too_late = record launched { cancelled = true; stop_ch = true }

overtaken : Runs (at (scaling (pos 3)) launched) (at (sizing (pos 3)) too_late)
unfolding go exec
overtaken = happens stops refl (goes here) refl

Runs-CountersAgree_example : CountersAgree too_late
Runs-CountersAgree_example =
    Runs-CountersAgree (at (scaling (pos 3)) launched) (at (sizing (pos 3)) too_late)
      (Reach-CountersAgree config fresh launched new_fresh launched-Reach) overtaken

-- Two creations are to be launched yet when Stop is called: one is, and returns.
abbrev launching : Loop
launching = at (launching_up 2) too_late

abbrev launched_one : Loop
launched_one = at (launching_up 1) too_late

launches : Runs launching launched_one
unfolding go exec
launches = happens creator_starts refl (goes here) refl

stopped-Runs_example : Stopped launching launched_one
stopped-Runs_example = stopped-Runs launching launched_one refl launches

-- One machine is wanted and is being created.
abbrev one_coming : Pool
one_coming = record fresh { pending_creates = 1; creators_creating = 1 }

one_coming-Satisfied : Satisfied 1 0 0 0 one_coming
one_coming-Satisfied = record {
  live = refl;
  creating = refl;
  creates = refl;
  deletes = refl;
  creates_fit = omega arith;
  deletes_fit = omega arith;
  wanted = refl;
}

scale-Torn_example :
    let q = after (codes "a") machine 0 one_coming in
    (scale (pos 1) one_coming ≡ ok one_coming)
    × Runs (at (scaling (pos 1)) one_coming) (at (launching_up 1) q)
    × (length q.machines + q.pending_creates + 1 ≡ 1 + q.pending_deletes + 1)
unfolding lookup
scale-Torn_example = scale-Torn 1 0 0 0 one_coming (codes "a") machine one_coming-Satisfied refl
