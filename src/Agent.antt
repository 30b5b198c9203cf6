-- ===== src/Agent.antt =====
-- agent/agent.go, agent/config.go and agent/rpc.go: the agent in the guest, the goroutine that runs the
-- GitHub runner, and the handlers of its gRPC server. The checks of go-playground/validator, the file
-- system and zerolog's levels are parameters; the sockets are left out.
pub mod Calls
pub mod Logs
pub mod Relay
pub mod Serving
pub mod Tests
use fireactions.Prelude.{
  Text, codes, ℕ, zero, suc, ◌+◌, ◌≡◌, Bool, true, false, not, ◌&&◌, List, [], ◌∷◌, ◌++◌, Option,
  none, some, Result, ok, err, Fault, ℤ, pos, negsuc, if◌then◌else◌,
}
use fireactions.Runner.{
  Runner, RunnerState, VersionError, starting, idle, running, completed, exited, errored,
  new_runner, with_logger, Os, Happening, Ran,
}
use fireactions.Runner
use fireactions.Tail.{
  TailConfig, SeekInfo, seek_end, TailError, Line, text, failed, Followed, produce,
}
use fireactions.Tail

pub record AgentConfig : Type 0 where
  pub port : ℕ
  pub runner_jit_config : Text
  pub hostname : Text
  pub log_level : Text
  pub shutdown_on_exit : Bool

-- `runner` is the field that the goroutine sets: nil at first. `shutting_down` is no field: it says
-- that the reboot has been asked for.
pub record Agent : Type 0 where
  pub cfg : AgentConfig
  pub log_file : Text
  pub runner : Option Runner
  pub shutting_down : Bool

-- What New asks of other code.
pub record Setup : Type 0 where
  pub validate : AgentConfig → Option Fault
  pub make_log_directory : Option Fault
  pub open_log_file : Option Fault
  pub parse_level : Text → Option Fault

pub data AgentError : Type 0 where
  validate_config create_log_directory open_log_file parse_log_level : Fault → AgentError

unfoldable pub setup_logger : Setup → Agent → Result AgentError Agent
setup_logger s a = elim s.make_log_directory [
  | some e ↦ err (create_log_directory e)
  | none ↦ elim s.open_log_file [
    | some e ↦ err (open_log_file e)
    | none ↦ elim (s.parse_level a.cfg.log_level) [ some e ↦ err (parse_log_level e) | none ↦ ok a ]
  ]
]

unfoldable pub new_agent : Setup → AgentConfig → Result AgentError Agent
unfolding setup_logger
new_agent s cfg = elim (s.validate cfg) [
  | some e ↦ err (validate_config e)
  | none ↦ setup_logger s (record {
    cfg = cfg;
    log_file = codes "/var/log/fireactions-agent.log";
    runner = none;
    shutting_down = false;
  })
]

-- The goroutine's first statement.
unfoldable pub make_runner : Agent → Agent
unfolding new_runner
make_runner a = record a { runner = some (new_runner a.cfg.runner_jit_config (with_logger ∷ [])) }

-- runGitHubRunner after it: Run, whose error is only logged, and the shutdown.
unfoldable pub finish_runner : Os → List Happening → Agent → Agent
unfolding Runner.run
finish_runner os hs a = elim a.runner [
  | none ↦ a
  | some r ↦ record a {
    runner = some (Runner.run os hs r).runner;
    shutting_down = a.cfg.shutdown_on_exit;
  }
]

unfoldable pub run_github_runner : Os → List Happening → Agent → Agent
unfolding make_runner finish_runner
run_github_runner os hs a = finish_runner os hs (make_runner a)

abbrev pub state_name : RunnerState → Text
state_name starting = codes "Starting"
state_name idle = codes "Idle"
state_name running = codes "Running"
state_name completed = codes "Completed"
state_name exited = codes "Exited"
state_name errored = codes "Error"

-- A handler's reply; `panics` is the run-time panic of a nil pointer.
pub data Reply : Type 0 where
  replies : Text → Reply
  not_initialized panics : Reply
  no_version : VersionError → Reply

unfoldable pub get_runner_state : Agent → Reply
get_runner_state a = elim a.runner [
  | none ↦ not_initialized
  | some r ↦ replies (state_name r.state)
]

abbrev version_reply : Result VersionError Text → Reply
version_reply (ok v) = replies v
version_reply (err e) = no_version e

-- GetRunnerVersion, which does not look at the field: GetVersion reads a field of what it points to.
unfoldable pub get_runner_version : (Runner → Result Fault Text) → Agent → Reply
unfolding Runner.get_version
get_runner_version output a = elim a.runner [
  | none ↦ panics
  | some r ↦ version_reply (Runner.get_version (output r))
]

pub data LogFile : Type 0 where
  missing unreadable : LogFile
  contents : Text → LogFile

pub data LogsFault : Type 0 where
  tail_failed : TailError → LogsFault
  send_failed : Fault → LogsFault

-- What GetLogs has sent, and what it returns, `none` while it waits.
pub record Served : Type 0 where
  pub sent : List Text
  pub outcome : Option (Result LogsFault (Unit {0}))

-- The loop's last answer: the channel is closed, or the tail waits for the file.
unfoldable pub at_end : Followed → Option (Result LogsFault (Unit {0}))
at_end f =
    if f.waiting
    then none
    else elim f.error [ none ↦ some (ok tt) | some e ↦ some (err (tail_failed e)) ]

-- The loop of GetLogs over the tail's lines. The stream's context is done after `patience` of them;
-- the line that is sent n-th meets `send n`.
unfoldable pub serve : (ℕ → Option Fault) → ℕ → ℕ → List Line → Followed → Served
unfolding at_end
serve send n zero lines f = record { sent = []; outcome = some (ok tt) }
serve send n (suc patience) [] f = record { sent = []; outcome = at_end f }
serve send n (suc patience) (failed e ∷ lines) f = serve send n patience lines f
serve send n (suc patience) (text l ∷ lines) f =
    let later = serve send (suc n) patience lines f in
    elim (send n) [
      | some e ↦ record { sent = []; outcome = some (err (send_failed e)) }
      | none ↦ record { sent = (l ++ 10 ∷ []) ∷ later.sent; outcome = later.outcome }
    ]

-- The tail's configuration for a request.
unfoldable pub tail_config : Bool → ℤ → TailConfig
tail_config follow (pos zero) = record {
  follow = follow;
  location = none;
  max_line_size = 0;
  re_open = follow;
}
tail_config follow (pos (suc n)) = record {
  follow = follow;
  location = some (record { offset = negsuc n; whence = seek_end });
  max_line_size = 0;
  re_open = follow;
}
tail_config follow (negsuc n) = record {
  follow = follow;
  location = none;
  max_line_size = 0;
  re_open = follow;
}

abbrev opened : LogFile → Option Text
opened missing = none
opened unreadable = none
opened (contents file) = some file

abbrev is_missing : LogFile → Bool
is_missing missing = true
is_missing unreadable = false
is_missing (contents file) = false

unfoldable pub get_logs : (ℕ → Option Fault) → ℕ → LogFile → List Tail.Happening → Bool → ℤ → Served
unfolding serve tail_config produce
get_logs send patience file es follow lines =
    let f = produce (tail_config follow lines) (opened file) es in
    if is_missing file && not follow
    then record { sent = []; outcome = some (ok tt) }
    else serve send 0 patience f.sent f
