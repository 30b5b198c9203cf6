-- ===== src/Pool/Loop/Agree.antt =====
-- server/pool.go: the counters against the goroutines, at every statement of Run and Scale.
use fireactions.Prelude.{◌≡◌, zero, suc, some, arith}
use fireactions.Pool.{Pool, spawn_creator, spawn_deleter}
use fireactions.Pool.Events.{Wake, trigger, timer, stop_signal, ctx_done}
use fireactions.Pool.Counters.{CountersAgree, exec-CountersAgree}
use fireactions.Pool.Loop.{
  Place, Loop, waiting, woken, observing, observed, scaling, sizing, sized, counted, launching_up,
  launching_down, at, go, wake, Runs, here, wakes, goes, happens,
}

go-CountersAgree : (k : Place) (p : Pool) → CountersAgree p → CountersAgree (go k p).pool
unfolding go spawn_creator spawn_deleter
go-CountersAgree waiting p c = c
go-CountersAgree woken p c = ground arith
go-CountersAgree observing p c = c
go-CountersAgree (observed d) p c = ground arith
go-CountersAgree (scaling d) p c = ground arith
go-CountersAgree (sizing d) p c = c
go-CountersAgree (sized d n) p c = c
go-CountersAgree (counted d n b) p c = c
go-CountersAgree (launching_up zero) p c = c
go-CountersAgree (launching_up (suc n)) p c = ground arith
go-CountersAgree (launching_down zero) p c = c
go-CountersAgree (launching_down (suc n)) p c = ground arith

wake-CountersAgree :
    (w : Wake) (p : Pool) {t : Loop} → wake w p ≡ some t → CountersAgree p → CountersAgree t.pool
unfolding wake
wake-CountersAgree trigger p h c = ground arith
wake-CountersAgree timer p h c = ground arith
wake-CountersAgree stop_signal p h c = ground arith
wake-CountersAgree ctx_done p h c = ground arith

-- Whatever the goroutines, Stop and the API calls do between any two statements of Run and Scale:
-- counters that agree with the goroutines in flight go on to agree with them, modulo 2 ^ 32.
pub Runs-CountersAgree : (s t : Loop) → CountersAgree s.pool → Runs s t → CountersAgree t.pool
Runs-CountersAgree s t c here = c
Runs-CountersAgree s t c (wakes {p} w r e h) =
    wake-CountersAgree w p h (Runs-CountersAgree s (at waiting p) c r)
Runs-CountersAgree s t c (goes {k} {p} r) = go-CountersAgree k p (Runs-CountersAgree s (at k p) c r)
Runs-CountersAgree s t c (happens {k} {p} e o r h) =
    exec-CountersAgree e p h (Runs-CountersAgree s (at k p) c r)
