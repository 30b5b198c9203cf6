-- ===== src/Journey.antt =====
-- server/pool.go, cmd/fireactions/agent.go, agent/agent.go and agent/runner/runner.go together: the
-- configuration of a runner on its way from GitHub's answer to createMachine to the command that the agent
-- starts in the virtual machine.
pub mod Tests
use fireactions.Prelude.{
  Text, codes, ℕ, subst, ◌+◌, ◌≡◌, refl, sym, ap, ◌∙◌, Bool, true, false, List, [], ◌∷◌, Option,
  none, some, Result, ok, err, trim_space, lookup, arith, Option-cases, Result-cases, inl, inr,
  has_byte,
}
use fireactions.Pool.{Machine}
use fireactions.Create.{Host, Making, JitConfig, Metadata, create_machine, runner_name}
use fireactions.Create.Idle.{last_start, last_registration}
use fireactions.Create.Lease.{Kept, create_machine_lem}
use fireactions.Create.Lifecycle.{ok-Kept}
use fireactions.Mmds.{Http, run_agent_cmd, build}
use fireactions.Mmds.Requests.{Granted}
use fireactions.Mmds.Handoff.{Serves, config_of, run_agent_cmd-Metadata}
use fireactions.Agent.{Agent, AgentConfig, AgentError, Setup, new_agent, setup_logger, make_runner}
use fireactions.Runner.{Runner, Os, Happening, Command, Ran, new_runner, apply_all, run, forbidden}
use fireactions.Runner.Config.{Clean, Ended, refused, start_failed, run_to_end, run-Ended}

new_agent-cfg : (s : Setup) (cfg : AgentConfig) (a : Agent) → new_agent s cfg ≡ ok a → a.cfg ≡ cfg
unfolding new_agent setup_logger
new_agent-cfg s cfg a h = ground arith

build-cfg : (s : Setup) (cfg : AgentConfig) (a : Agent) → build s (ok cfg) ≡ ok a → a.cfg ≡ cfg
unfolding build
build-cfg s cfg a h = elim (Result-cases (new_agent s cfg)) [
  | inl (b, e) ↦
      let same : b ≡ a = ground arith in ap Agent.cfg (sym same) ∙ new_agent-cfg s cfg b e
  | inr (x, e) ↦ ground arith
]

make_runner-config :
    (a : Agent) (r : Runner) → (make_runner a).runner ≡ some r → r.config ≡ a.cfg.runner_jit_config
unfolding make_runner new_runner apply_all
make_runner-config a r h = ground arith

Ended-Clean :
    (os : Os) (hs : List Happening) (r : Runner) (x : Ran) (c : Command)
    → Ended os hs r x
    → x.started ≡ some c
    → Clean r c
Ended-Clean os hs r x c (refused e k) h = absurd (ground (arith, ap Ran.started k))
Ended-Clean os hs r x c (start_failed d f cl s k) h = absurd (ground (arith, ap Ran.started k))
Ended-Clean os hs r x c (run_to_end d cl s k) h =
    let same : d ≡ c = ground (arith, ap Ran.started k) in subst (Clean r) same cl

-- What the machine's agent starts, for the answer `jit` that GitHub gave to createMachine.
pub record Arrives (name : Text) (jit : JitConfig) (m : Machine) (flag : Option Bool) (a : Agent)
    (c : Command) : Type 0 where
  pub vmid : m.vmid ≡ name
  pub registered_as : (m.runner_id ≡ jit.runner_id) × (m.name ≡ jit.runner_name)
  pub hostname : a.cfg.hostname ≡ name
  pub port : a.cfg.port ≡ 9001
  pub flag_set : flag ≡ some a.cfg.shutdown_on_exit
  pub args : c.args ≡ codes "--jitconfig" ∷ trim_space jit.encoded ∷ []
  pub no_forbidden :
      (b : ℕ) → has_byte forbidden b ≡ true → has_byte (trim_space jit.encoded) b ≡ false

module _ {W : Type 0} (host : Host W) where
  -- From GitHub to the command line. createMachine has succeeded; `jit` is what GitHub has answered to its
  -- last registration of a runner, and `metadata` what it has last started a machine with. In that machine
  -- the metadata service grants a token and serves this metadata, runAgentCmd gets its agent, and the
  -- runner of that agent starts a command. Then the pool's map has a machine of that name, with the
  -- runner's id and name of GitHub's answer, and the command's one option is the JIT configuration of that
  -- answer, trimmed, with none of the forbidden bytes in it; the agent has the machine's name for its host
  -- name, port 9001, where the server calls it, and the flag of the pool's configuration for whether it
  -- shuts its machine down.
  pub create_machine-run :
      (id : Text) (s : Making W) (name : Text) (jit : JitConfig) (metadata : Metadata)
      (setup : Setup) (http : Http) (level token : Text) (a : Agent) (os : Os) (hs : List Happening)
      (r : Runner) (c : Command)
      → (create_machine host id s).0 ≡ ok tt
      → last_registration (create_machine host id s).1.calls ≡ some (name, jit)
      → last_start (create_machine host id s).1.calls ≡ some (name, metadata)
      → Granted http token
      → Serves http token metadata
      → run_agent_cmd setup http level ≡ ok a
      → (make_runner a).runner ≡ some r
      → (run os hs r).started ≡ some c
      → (m : Machine) × (lookup name (create_machine host id s).1.pool.machines ≡ some m)
        × (name ≡ runner_name s.pool.config.runner.name id)
        × Arrives name jit m s.pool.config.shutdown_on_exit a c
  create_machine-run id s name jit metadata setup http level token a os hs r c made answer start
        granted serves agent runner started =
      let full = runner_name s.pool.config.runner.name id in
      let kept =
        ok-Kept host full s (create_machine host id s) (create_machine_lem host id s) made in
      let starts = sym kept.start ∙ start in
      let same_name : full ≡ name = cc in
      let answers = sym kept.answer ∙ answer in
      let same_jit : kept.jit ≡ jit = cc in
      let same_metadata : kept.metadata ≡ metadata = cc in
      let cfg =
        build-cfg setup (config_of level metadata) a
          (sym (run_agent_cmd-Metadata setup http level token metadata granted serves) ∙ agent) in
      let clean = Ended-Clean os hs r (run os hs r) c (run-Ended os hs r) started in
      let carried = kept.carries in
      let config : r.config ≡ jit.encoded =
        make_runner-config a r runner
        ∙ ap AgentConfig.runner_jit_config cfg
        ∙ ap Metadata.runner_jit_config (sym same_metadata)
        ∙ carried.jit_config
        ∙ ap JitConfig.encoded same_jit in
      (
        kept.machine,
        subst (λ n. lookup n (create_machine host id s).1.pool.machines ≡ some kept.machine)
            same_name kept.stored,
        sym same_name,
        record {
          vmid = kept.is_named ∙ same_name;
          registered_as = (
            kept.registered_as.0 ∙ ap JitConfig.runner_id same_jit,
            kept.registered_as.1 ∙ ap JitConfig.runner_name same_jit,
          );
          hostname =
              ap AgentConfig.hostname cfg
              ∙ ap Metadata.hostname (sym same_metadata)
              ∙ carried.host
              ∙ same_name;
          port = ap AgentConfig.port cfg;
          flag_set =
              carried.flag_set
              ∙ ap (λ (m : Metadata). some m.shutdown_on_exit) same_metadata
              ∙ ap (λ (g : AgentConfig). some g.shutdown_on_exit) (sym cfg);
          args = clean.args ∙ ap (λ t. codes "--jitconfig" ∷ trim_space t ∷ []) config;
          no_forbidden =
              λ b f. ap (λ t. has_byte (trim_space t) b) (sym config) ∙ clean.no_forbidden b f;
        },
      )
