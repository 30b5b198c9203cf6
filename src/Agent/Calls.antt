-- ===== src/Agent/Calls.antt =====
-- agent/rpc.go: the calls about the runner against the goroutine that makes it.
use fireactions.Prelude.{Text, ◌≡◌, none, Result, ok, Fault, arith}
use fireactions.Runner.{Runner}
use fireactions.Agent.{
  Agent, AgentConfig, Setup, new_agent, get_runner_state, get_runner_version, not_initialized,
  panics,
}

-- New leaves an agent without a runner.
new_agent_runner :
    (s : Setup) (cfg : AgentConfig) (a : Agent)
    → new_agent s cfg ≡ ok a
    → (a.runner ≡ none) × (a.cfg ≡ cfg)
unfolding new_agent
new_agent_runner s cfg a h = ground arith

-- Between New and the first statement of the goroutine of runGitHubRunner, which Run starts beside the
-- gRPC server, GetRunnerState returns an error and GetRunnerVersion panics on the nil runner.
pub new_agent-calls :
    (s : Setup) (cfg : AgentConfig) (output : Runner → Result Fault Text) (a : Agent)
    → new_agent s cfg ≡ ok a
    → (get_runner_state a ≡ not_initialized) × (get_runner_version output a ≡ panics)
unfolding get_runner_state get_runner_version
new_agent-calls s cfg output a h = let made = new_agent_runner s cfg a h in ground (arith, made.0)
