-- ===== src/Agent/Serving.antt =====
-- agent/agent.go: Run, runGRPCServer, setHostname, Close and shutdown.
use fireactions.Prelude.{Text, ℕ, Bool, true, false, Option, none, some, Result, ok, err, Fault}
use fireactions.Agent.{Agent}

-- The virtual machine: sethostname and the listener on the vsock port.
pub record Vm : Type 0 where
  pub sethostname : Text → Option Fault
  pub listen : ℕ → Option Fault

-- What runGRPCServer's select takes first: the context is done, or Serve has failed.
pub data Wake : Type 0 where
  cancelled : Wake
  serve_failed : Fault → Wake

pub data AgentRunError : Type 0 where
  setting_hostname vsock_listen grpc_serve : Fault → AgentRunError

unfoldable pub run_grpc_server : Vm → Option Wake → Agent → Option (Result AgentRunError (Unit {0}))
run_grpc_server vm wake a = elim (vm.listen a.cfg.port) [
  | some e ↦ some (err (vsock_listen e))
  | none ↦ elim wake [
    | none ↦ none
    | some cancelled ↦ some (ok tt)
    | some (serve_failed e) ↦ some (err (grpc_serve e))
  ]
]

-- Whether the goroutine of runGitHubRunner was started, and how Run has ended; none while it serves.
pub record AgentRun : Type 0 where
  pub runner_started : Bool
  pub outcome : Option (Result AgentRunError (Unit {0}))

unfoldable pub run_agent : Vm → Option Wake → Agent → AgentRun
unfolding run_grpc_server
run_agent vm wake a = elim (vm.sethostname a.cfg.hostname) [
  | some e ↦ record { runner_started = false; outcome = some (err (setting_hostname e)) }
  | none ↦ record { runner_started = true; outcome = run_grpc_server vm wake a }
]

-- Close: what the log file's writer answers, or nothing where the writer is nil.
unfoldable pub close : Option (Option Fault) → Option Fault
close none = none
close (some answer) = answer

-- shutdown: whether `systemctl reboot` has been started. An error of its start is only logged.
unfoldable pub shutdown : Option Fault → Bool
shutdown none = true
shutdown (some e) = false
