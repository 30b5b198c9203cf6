-- ===== src/Pool/Events.antt =====
-- server/pool.go: what a pool's goroutines do, a step each, and the pools that can be reached.
-- The steps of createMachine and deleteMachine that touch no shared state are joined with the one
-- before or after them; the whole of createMachine is Create.antt.
use fireactions.Prelude.{
  Text, zero, suc, ◌+◌, ◌≡◌, true, false, List, [], ◌∷◌, Option, none, some, ok, err, ℤ, dec32,
  text_eq, insert, delete, lookup, if◌then◌else◌,
}
use fireactions.Pool.{
  Pool, Machine, scale, get_replicas, set_replicas, trigger_scale, pause, resume,
}

-- One occurrence of a name less; none where there is no such name.
unfoldable pub take_out : Text → List Text → Option (List Text)
take_out n [] = none
take_out n (x ∷ xs) =
    let rest = take_out n xs in
    if text_eq x n then some xs else elim rest [ none ↦ none | some ys ↦ some (x ∷ ys) ]

-- The goroutine of scaleUp looks at ctx, and returns if the pool is stopping.
unfoldable pub creator_start : Pool → Option Pool
creator_start p = elim p.creators_spawned [
  | zero ↦ none
  | suc n ↦
      if p.cancelled
      then some (record p { creators_spawned = n; pending_creates = dec32 p.pending_creates })
      else some (record p { creators_spawned = n; creators_creating = p.creators_creating + 1 })
]

-- createMachine returns an error.
unfoldable pub creator_fail : Pool → Option Pool
creator_fail p = elim p.creators_creating [
  | zero ↦ none
  | suc n ↦ some (record p { creators_creating = n; pending_creates = dec32 p.pending_creates })
]

-- The end of createMachine: the machine goes into the map, and its cleanup goroutine is launched, in one
-- step here.
unfoldable pub store_machine : Text → Machine → Pool → Pool
unfolding insert
store_machine name machine p = record p {
  machines = insert name machine p.machines;
  cleanups = name ∷ p.cleanups;
}

-- createMachine has started the machine: it stores it.
unfoldable pub creator_store : Text → Machine → Pool → Option Pool
unfolding store_machine
creator_store name machine p = elim p.creators_creating [
  | zero ↦ none
  | suc n ↦ some (record (store_machine name machine p) {
    creators_creating = n;
    creators_returning = p.creators_returning + 1;
  })
]

-- The deferred decrement.
unfoldable pub creator_return : Pool → Option Pool
creator_return p = elim p.creators_returning [
  | zero ↦ none
  | suc n ↦ some (record p { creators_returning = n; pending_creates = dec32 p.pending_creates })
]

unfoldable pub deleter_start : Pool → Option Pool
deleter_start p = elim p.deleters_spawned [
  | zero ↦ none
  | suc n ↦
      if p.cancelled
      then some (record p { deleters_spawned = n; pending_deletes = dec32 p.pending_deletes })
      else some (record p { deleters_spawned = n; deleters_deleting = p.deleters_deleting + 1 })
]

-- deleteMachine under its lock: the map's iteration yields some key, which is removed at once.
unfoldable pub deleter_pick : Text → Pool → Option Pool
unfolding lookup delete
deleter_pick name p = elim p.deleters_deleting [
  | zero ↦ none
  | suc n ↦ elim (lookup name p.machines) [
    | none ↦ none
    | some m ↦ some (record p {
      machines = delete name p.machines;
      deleters_deleting = n;
      stopping = name ∷ p.stopping;
    })
  ]
]

-- "no machines available to scale down"
unfoldable pub deleter_give_up : Pool → Option Pool
deleter_give_up p = elim p.deleters_deleting [
  | zero ↦ none
  | suc n ↦ elim p.machines [
    | [] ↦ some (record p { deleters_deleting = n; pending_deletes = dec32 p.pending_deletes })
    | m ∷ rest ↦ none
  ]
]

-- StopVMM has returned, with an error or without: the deferred decrement.
unfoldable pub deleter_return : Text → Pool → Option Pool
unfolding take_out
deleter_return name p = elim (take_out name p.stopping) [
  | none ↦ none
  | some rest ↦ some (record p { stopping = rest; pending_deletes = dec32 p.pending_deletes })
]

-- The machine has exited, or the wait for it was given up: its entry goes, if it is still there.
unfoldable pub cleanup_remove : Text → Pool → Option Pool
unfolding take_out delete
cleanup_remove name p = elim (take_out name p.cleanups) [
  | none ↦ none
  | some rest ↦
      some (record p {
        machines = delete name p.machines;
        cleanups = rest;
        closing = name ∷ p.closing;
      })
]

-- The GitHub runner and the lease are gone: cleanupWg.Done.
unfoldable pub cleanup_done : Text → Pool → Option Pool
unfolding take_out
cleanup_done name p = elim (take_out name p.closing) [
  | none ↦ none
  | some rest ↦ some (record p { closing = rest })
]

-- What the select at the head of Run's loop can receive.
pub data Wake : Type 0 where
  trigger timer stop_signal ctx_done : Wake

-- The rest of a round: the second look at ctx and stopCh, the look at isActive, and Scale, whose
-- error is only logged, at one moment; Pool/Loop has the steps apart. Where both channels are ready
-- ctx.Done is taken.
unfoldable pub round : Pool → Pool
unfolding scale get_replicas
round p =
    if p.cancelled
    then record p { exited = true }
    else if p.stop_ch
    then record p { exited = true; stop_ch = false }
    else if p.is_active
    then elim (scale (get_replicas p) p) [ ok q ↦ q | err e ↦ p ]
    else p

unfoldable pub wake_up : Wake → Pool → Option Pool
unfolding round
wake_up trigger p =
    if p.scale_trigger then some (round (record p { scale_trigger = false })) else none
wake_up timer p = some (round p)
wake_up stop_signal p =
    if p.stop_ch then some (record p { exited = true; stop_ch = false }) else none
wake_up ctx_done p = if p.cancelled then some (record p { exited = true }) else none

-- A round of Run's loop, which a pool that has left the loop does not make.
unfoldable pub run_round : Wake → Pool → Option Pool
unfolding wake_up
run_round w p = if p.exited then none else wake_up w p

-- The head of Stop: cancel, and a send on stopCh that gives up where the channel is full.
unfoldable pub stop : Pool → Pool
stop p = record p { cancelled = true; stop_ch = true }

pub data Event : Type 0 where
  rounds : Wake → Event
  creator_starts creator_fails creator_returns deleter_starts deleter_gives_up : Event
  creator_stores : Text → Machine → Event
  deleter_picks deleter_returns cleanup_removes cleanup_is_done : Text → Event
  sets_replicas : ℤ → Event
  triggers pauses resumes stops : Event

-- `none` says that the event cannot happen in that state.
unfoldable pub exec : Event → Pool → Option Pool
unfolding run_round creator_start creator_fail creator_store creator_return deleter_start
    deleter_pick deleter_give_up deleter_return cleanup_remove cleanup_done set_replicas
    trigger_scale pause resume stop
exec (rounds w) p = run_round w p
exec creator_starts p = creator_start p
exec creator_fails p = creator_fail p
exec (creator_stores name m) p = creator_store name m p
exec creator_returns p = creator_return p
exec deleter_starts p = deleter_start p
exec (deleter_picks name) p = deleter_pick name p
exec deleter_gives_up p = deleter_give_up p
exec (deleter_returns name) p = deleter_return name p
exec (cleanup_removes name) p = cleanup_remove name p
exec (cleanup_is_done name) p = cleanup_done name p
exec (sets_replicas n) p = some (set_replicas n p)
exec triggers p = some (trigger_scale p)
exec pauses p = some (pause p)
exec resumes p = some (resume p)
exec stops p = some (stop p)

-- The pools that any interleaving of these events leads to.
pub data Reach (s : Pool) : Pool → Type 0 where
  here : Reach s s
  next : {t u : Pool} (e : Event) → Reach s t → exec e t ≡ some u → Reach s u

pub Reach-trans : {s t u : Pool} → Reach s t → Reach t u → Reach s u
Reach-trans r here = r
Reach-trans r (next e q h) = next e (Reach-trans r q) h
