-- ===== src/Pool/Stop.antt =====
-- server/pool.go: Stop, a statement at a time, while the pool's goroutines go on. Its two timers may fire
-- at any moment, and StopVMM's error is only logged.
use fireactions.Prelude.{◌≡◌, true, List, [], ◌∷◌, some}
use fireactions.Pool.{Pool, Machine, values}
use fireactions.Pool.Events.{Event, exec, stop}

-- Where Stop stands. A list of machines is what is to be stopped, or what StopVMM has been called for,
-- the last first. It has returned because no cleanup goroutine was left, or because its timer fired.
pub data Stopping : Type 0 where
  awaiting_run listing : Stopping
  stopping_machines : List Machine → List Machine → Stopping
  awaiting_cleanups returned timed_out : List Machine → Stopping

-- The pools in which a Stop that was called in `p` can stand somewhere.
pub data StopRun (p : Pool) : Stopping → Pool → Type 0 where
  begins : StopRun p awaiting_run (stop p)
  run_is_done : {q : Pool} → StopRun p awaiting_run q → q.exited ≡ true → StopRun p listing q
  run_is_late : {q : Pool} → StopRun p awaiting_run q → StopRun p listing q
  lists : {q : Pool} → StopRun p listing q → StopRun p (stopping_machines (values q.machines) []) q
  stops_machine :
      {q : Pool} {m : Machine} {ms done : List Machine}
      → StopRun p (stopping_machines (m ∷ ms) done) q
      → StopRun p (stopping_machines ms (m ∷ done)) q
  has_stopped :
      {q : Pool} {done : List Machine}
      → StopRun p (stopping_machines [] done) q
      → StopRun p (awaiting_cleanups done) q
  cleanups_are_done :
      {q : Pool} {done : List Machine}
      → StopRun p (awaiting_cleanups done) q
      → q.cleanups ≡ []
      → q.closing ≡ []
      → StopRun p (returned done) q
  cleanups_are_late :
      {q : Pool} {done : List Machine}
      → StopRun p (awaiting_cleanups done) q
      → StopRun p (timed_out done) q
  meanwhile :
      {s : Stopping} {q r : Pool} (e : Event) → StopRun p s q → exec e q ≡ some r → StopRun p s r
