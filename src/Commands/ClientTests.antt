-- ===== src/Commands/ClientTests.antt =====
-- The commands that ask a server with two pools and one machine.

use fireactions.Prelude.{
  concat, Text, codes, ℕ, ◌≡◌, ◌≢◌, ◌↔◌, refl, true, false, [], ◌∷◌, ◌++◌, map, none, some, ok, err,
  not_found, pos, arith, lookup, text_eq,
}
use fireactions.Config.{Loader, invalid}
use fireactions.Pool.Tests.{machine}
use fireactions.Scanner.Lines.{unlines}
use fireactions.Server.{Guest, MachineProto, find_machine}
use fireactions.Server.Tests.{server, silent}
use fireactions.Agent.{contents}
use fireactions.Agent.Logs.{ended}
use fireactions.Agent.Tests.{line_one, line_two, line_one-IsLine, line_two-IsLine}
use fireactions.Startup.{Libraries, Machinery, invalid_config}
use fireactions.Commands.Logs.{Wires, over_wires, run_logs_cmd, run_logs_cmd-tail}
use fireactions.Commands.Login.{run_login_cmd, ssh_command}
use fireactions.Commands.Serve.{
  run_validate_cmd, run_server_cmd, config, could_not_create_server,
  run_validate_cmd-run_server_cmd,
}

abbrev some_time : ℕ → Text
some_time t = codes "5 minutes"

abbrev talking : Guest
talking = record silent { connect = λ m. ok tt }

abbrev wires : Wires
wires = record {
  guest = talking;
  to_server = λ k. none;
  to_client = λ k. none;
  agent_status = λ e. not_found;
  server_status = λ e. not_found;
  patience = 3;
}

there : find_machine (codes "a") server ≡ ok machine
unfolding find_machine text_eq lookup
there = refl

run_logs_cmd-tail_example :
    run_logs_cmd
      (over_wires wires (contents (unlines (line_one ∷ []) ++ unlines (line_two ∷ []))) [] server)
      false
      (λ k. none)
      (codes "a")
      false
      (pos 1)
    ≡ record { written = concat (map ended (line_two ∷ [])); outcome = some (ok tt) }
run_logs_cmd-tail_example =
    run_logs_cmd-tail wires false (λ k. none) 0 (line_one ∷ []) (line_two ∷ []) [] (codes "a")
      server machine there refl (λ k. refl) (λ k. refl) (λ k. refl) (omega arith)
      (line_one-IsLine, tt) (line_two-IsLine, tt) refl (omega arith) (omega arith)

abbrev at_address : MachineProto
at_address = record {
  id = codes "a-1";
  pool = codes "a";
  addr = codes "192.168.0.2";
  created_at = 0;
  runner_state = codes "Idle";
  runner_version = codes "2.3";
}

abbrev strict : Loader
strict = record {
  open_file = λ path. ok [];
  decode = λ text c. ok c;
  validate = λ c. some not_found;
}

abbrev libraries : Libraries
libraries = record { validate = strict.validate; github_client = none; containerd_client = none }

abbrev machinery : Machinery
machinery = record { listen = λ a. none; has_directory = λ c. true }

run_validate_cmd-run_server_cmd_example :
    ((run_validate_cmd strict (codes "config.yaml") ≡ err (invalid not_found)) ↔ (
      run_server_cmd strict (λ l. none) libraries machinery [] (codes "config.yaml")
      ≡ some (config (invalid not_found))))
    × (run_server_cmd strict (λ l. none) libraries machinery [] (codes "config.yaml")
        ≢ some (could_not_create_server (invalid_config not_found)))
run_validate_cmd-run_server_cmd_example =
    run_validate_cmd-run_server_cmd strict (λ l. none) libraries machinery [] (codes "config.yaml")
      (invalid not_found) not_found (λ e. cc) refl

-- ssh is run at the address of the machine.
logged_in :
    run_login_cmd (λ id. ok (some at_address)) (λ a. true) (λ c. none) (codes "a-1")
    ≡ record { runs = ssh_command (codes "192.168.0.2") ∷ []; error = none }
unfolding run_login_cmd
logged_in = refl
