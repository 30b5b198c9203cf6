-- ===== src/Commands/Root.antt =====
-- cmd/fireactions/cmd.go: NewRootCommand, with the commands that have no client.
use fireactions.Prelude.{Text, codes, false, [], ◌∷◌, ◌++◌, some, pos}
use fireactions.Commands.Tree.{
  exact_args, no_args, string, int, bool, Command, command, no_commands, added, bare, leaf, or_zero,
  with_first, on_client, run_logs, run_server_cmd, run_validate_cmd, run_agent_cmd, prints,
  endpoint_flag, new_pools_cmd, new_image_cmd, new_ps_cmd, new_login_cmd,
}

unfoldable pub new_logs_cmd : Command
unfolding on_client
new_logs_cmd = leaf (record (bare (codes "logs MACHINE_ID")) {
  group_id = codes "machine";
  args = exact_args 1;
  flags =
      record { name = codes "follow"; shorthand = codes "f"; default = bool false }
      ∷ record { name = codes "tail"; shorthand = []; default = int (pos 0) }
      ∷ endpoint_flag
      ∷ [];
  run_e = some run_logs;
})

unfoldable pub new_server_cmd : Command
new_server_cmd = leaf (record (bare (codes "server")) {
  group_id = codes "main";
  args = no_args;
  flags =
      record {
        name = codes "config";
        shorthand = codes "f";
        default = string (codes "/etc/fireactions/config.yaml");
      }
      ∷ [];
  run_e = some (λ v new_client args. run_server_cmd (or_zero [] (v.get_string (codes "config"))));
})

unfoldable pub new_validate_cmd : Command
new_validate_cmd = leaf (record (bare (codes "validate <config-file>")) {
  group_id = codes "main";
  args = exact_args 1;
  run_e = some (λ v new_client args. with_first args run_validate_cmd);
})

unfoldable pub new_agent_cmd : Command
new_agent_cmd = leaf (record (bare (codes "agent")) {
  group_id = codes "main";
  args = no_args;
  flags =
      record { name = codes "log-level"; shorthand = codes "l"; default = string (codes "info") }
      ∷ [];
  run_e = some (λ v new_client args. run_agent_cmd (or_zero [] (v.get_string (codes "log-level"))));
})

-- The variables that the build sets.
pub record Build : Type 0 where
  pub version : Text
  pub date : Text
  pub commit : Text

unfoldable pub get_version : Build → Text
get_version b =
    b.version
    ++ (codes " (Built on " ++ (b.date ++ (codes " from Git SHA " ++ (b.commit ++ codes ")\n"))))

unfoldable pub new_version_cmd : Build → Command
unfolding get_version
new_version_cmd b = leaf (record (bare (codes "version")) {
  args = no_args;
  run_e = some (λ v new_client args. prints (get_version b));
})

unfoldable pub new_root_command : Build → Command
unfolding new_server_cmd new_agent_cmd new_validate_cmd new_pools_cmd new_ps_cmd new_login_cmd
    new_logs_cmd new_image_cmd new_version_cmd
new_root_command b =
    command
      (record (bare (codes "fireactions")) {
        groups = codes "main" ∷ codes "pool" ∷ codes "machine" ∷ codes "image" ∷ [];
      })
      (added new_server_cmd (
        added new_agent_cmd (
          added new_validate_cmd (
            added new_pools_cmd (
              added new_ps_cmd (
                added new_login_cmd (
                  added new_logs_cmd
                    (added new_image_cmd (added (new_version_cmd b) no_commands)))))))))
