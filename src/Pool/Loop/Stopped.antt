-- ===== src/Pool/Loop/Stopped.antt =====
-- server/pool.go: Stop's cancel against Run and Scale, wherever it finds them.
use fireactions.Prelude.{
  ℕ, zero, suc, ◌≡◌, ◌≤◌, ◌+◌, Bool, true, false, some, arith, inl, inr, Option-cases,
}
use fireactions.Pool.{Pool, spawn_creator, spawn_deleter}
use fireactions.Pool.Events.{
  Event, exec, Wake, rounds, trigger, timer, stop_signal, ctx_done, take_out, deleter_returns,
}
use fireactions.Pool.Counters.{in_creation, in_deletion, length-take_out}
use fireactions.Pool.Loop.{
  Place, Loop, waiting, woken, observing, observed, scaling, sizing, sized, counted, launching_up,
  launching_down, at, go, wake, is_other, Runs, here, wakes, goes, happens,
}

-- What Scale has decided to launch and not launched yet.
abbrev pub to_create : Place → ℕ
to_create (launching_up n) = n
to_create _ = 0

abbrev pub to_delete : Place → ℕ
to_delete (launching_down n) = n
to_delete _ = 0

-- Scale has looked at ctx, and has not decided.
abbrev pub is_undecided : Place → Bool
is_undecided (sizing d) = true
is_undecided (sized d n) = true
is_undecided (counted d n c) = true
is_undecided _ = false

pub record Stopped (s t : Loop) : Type 0 where
  pub cancelled : t.pool.cancelled ≡ true
  pub creating : t.pool.creators_creating ≤ s.pool.creators_creating
  pub deleting : t.pool.deleters_deleting ≤ s.pool.deleters_deleting
  pub decided : is_undecided s.place ≡ false → is_undecided t.place ≡ false
  pub creations :
      is_undecided s.place ≡ false
      → in_creation t.pool + to_create t.place ≤ in_creation s.pool + to_create s.place
  pub deletions :
      is_undecided s.place ≡ false
      → in_deletion t.pool + to_delete t.place ≤ in_deletion s.pool + to_delete s.place

Stopped-trans : {s t u : Loop} → Stopped s t → Stopped t u → Stopped s u
Stopped-trans h k = record {
  cancelled = k.cancelled;
  creating = omega (arith, h.creating, k.creating);
  deleting = omega (arith, h.deleting, k.deleting);
  decided = λ d. k.decided (h.decided d);
  creations = λ d. omega (arith, h.creations d, k.creations (h.decided d));
  deletions = λ d. omega (arith, h.deletions d, k.deletions (h.decided d));
}

go-Stopped : (k : Place) (p : Pool) → p.cancelled ≡ true → Stopped (at k p) (go k p)
unfolding go spawn_creator spawn_deleter
go-Stopped waiting p c = ground arith
go-Stopped woken p c = ground arith
go-Stopped observing p c = ground arith
go-Stopped (observed d) p c = ground arith
go-Stopped (scaling d) p c = ground arith
go-Stopped (sizing d) p c = ground arith
go-Stopped (sized d n) p c = ground arith
go-Stopped (counted d n b) p c = ground arith
go-Stopped (launching_up zero) p c = ground arith
go-Stopped (launching_up (suc n)) p c = ground arith
go-Stopped (launching_down zero) p c = ground arith
go-Stopped (launching_down (suc n)) p c = ground arith

wake-Stopped :
    (w : Wake) (p : Pool) {t : Loop}
    → p.cancelled ≡ true
    → wake w p ≡ some t
    → Stopped (at waiting p) t
unfolding wake
wake-Stopped trigger p c h = ground arith
wake-Stopped timer p c h = ground arith
wake-Stopped stop_signal p c h = ground arith
wake-Stopped ctx_done p c h = ground arith

exec-Stopped :
    (e : Event) (k : Place) (p : Pool) {q : Pool}
    → is_other e ≡ true
    → p.cancelled ≡ true
    → exec e p ≡ some q
    → Stopped (at k p) (at k q)
unfolding exec
exec-Stopped (rounds w) k p o c h = cc
exec-Stopped (deleter_returns name) k p o c h = elim (Option-cases (take_out name p.stopping)) [
  | inl e ↦ ground arith
  | inr (ys, e) ↦ ground (arith, length-take_out name p.stopping {ys = ys} e)
]
exec-Stopped _ k p o c h = ground arith

-- Once Stop has cancelled the context, wherever Run and Scale stand and whatever falls between their
-- statements: the context stays cancelled, and no goroutine any more begins createMachine or deleteMachine.
-- Unless Scale is between its look at ctx and its decision, nothing is launched, either, but what Scale
-- had already decided to launch and not yet launched.
pub stopped-Runs : (s t : Loop) → s.pool.cancelled ≡ true → Runs s t → Stopped s t
stopped-Runs s t c here = ground arith
stopped-Runs s t c (wakes {p} w r e h) =
    let b = stopped-Runs s (at waiting p) c r in Stopped-trans b (wake-Stopped w p b.cancelled h)
stopped-Runs s t c (goes {k} {p} r) =
    let b = stopped-Runs s (at k p) c r in Stopped-trans b (go-Stopped k p b.cancelled)
stopped-Runs s t c (happens {k} {p} e o r h) =
    let b = stopped-Runs s (at k p) c r in Stopped-trans b (exec-Stopped e k p o b.cancelled h)
