-- ===== src/Journey/Tests.antt =====
-- A machine on its whole way, at a host where everything succeeds.
use fireactions.Prelude.{
  Text, codes, ◌≡◌, refl, true, false, [], ◌∷◌, none, some, ok, lookup, text_eq,
}
use fireactions.Pool.{Machine}
use fireactions.Create.{JitConfig, Metadata, create_machine, runner_name}
use fireactions.Create.Idle.{last_start, last_registration}
use fireactions.Create.Tests.{willing, making, an_id, created}
use fireactions.Deepcopy.{no_entries}
use fireactions.Mmds.{Http, Method, get, put, run_agent_cmd}
use fireactions.Mmds.Requests.{Granted}
use fireactions.Mmds.Handoff.{Serves, to_map, config_of}
use fireactions.Agent.{Agent, Setup, make_runner}
use fireactions.Runner.{Runner, Command, new_runner, run}
use fireactions.Runner.Tests.{os, happenings}
use fireactions.Journey.{Arrives, create_machine-run}

abbrev name : Text
name = codes "runner-0a1b"

abbrev jit : JitConfig
jit = record { encoded = codes "jit"; runner_name = name; runner_id = 5 }

abbrev metadata : Metadata
metadata = record {
  runner_id = name;
  runner_jit_config = codes "jit";
  hostname = name;
  shutdown_on_exit = true;
  user = no_entries;
}

registered : last_registration (create_machine willing an_id making).1.calls ≡ some (name, jit)
unfolding create_machine text_eq
registered = refl

started : last_start (create_machine willing an_id making).1.calls ≡ some (name, metadata)
unfolding create_machine text_eq
started = refl

abbrev answer : Method → Text
answer put = codes "token"
answer get = codes "json"

abbrev http : Http
http = record {
  refuses = λ u. none;
  do_request = λ r. ok (record { status_code = 200; body = ok (answer r.method) });
  decode = λ b. ok (to_map metadata);
}

granted : Granted http (codes "token")
granted = record {
  response = record { status_code = 200; body = ok (codes "token") };
  answered = refl;
  status = refl;
  token = refl;
}

serves : Serves http (codes "token") metadata
serves = record {
  parses = λ u. refl;
  response = record { status_code = 200; body = ok (codes "json") };
  body = codes "json";
  answered = refl;
  status = refl;
  has_body = refl;
  decoded = refl;
}

abbrev setup : Setup
setup = record {
  validate = λ c. none;
  make_log_directory = none;
  open_log_file = none;
  parse_level = λ l. none;
}

abbrev agent : Agent
agent = record {
  cfg = config_of (codes "info") metadata;
  log_file = codes "/var/log/fireactions-agent.log";
  runner = none;
  shutting_down = false;
}

made_agent : run_agent_cmd setup http (codes "info") ≡ ok agent
unfolding run_agent_cmd to_map text_eq
made_agent = refl

abbrev runner : Runner
unfolding new_runner
runner = new_runner (codes "jit") []

made_runner : (make_runner agent).runner ≡ some runner
unfolding make_runner runner
made_runner = refl

abbrev run_sh : Command
run_sh = record {
  path = codes "/opt/runner/run.sh";
  args = codes "--jitconfig" ∷ codes "jit" ∷ [];
  dir = codes "/opt/runner";
  uid = 1001;
  gid = 998;
  env =
      codes "PATH=/usr/local/sbin:/usr/local/bin:/usr/sbin:/usr/bin:/sbin:/bin"
      ∷ codes "LOGNAME=runner"
      ∷ codes "HOME=/home/runner"
      ∷ codes "USER=runner"
      ∷ codes "UID=1001"
      ∷ codes "GID=998"
      ∷ [];
}

runs : (run os happenings runner).started ≡ some run_sh
unfolding run runner
runs = refl

create_machine-run_example :
    (m : Machine) × (lookup name (create_machine willing an_id making).1.pool.machines ≡ some m)
    × (name ≡ runner_name (codes "runner") an_id)
    × Arrives name jit m (some true) agent run_sh
create_machine-run_example =
    create_machine-run willing an_id making name jit metadata setup http (codes "info")
      (codes "token") agent os happenings runner run_sh created registered started granted serves
      made_agent made_runner runs
