-- ===== src/Commands/Serve.antt =====
-- cmd/fireactions/server.go and cmd/fireactions/validate.go: the commands that read the configuration
-- file. Left out: the signals that cancel the context, which Startup's shut_down follows.
use fireactions.Prelude.{
  Text, ◌≡◌, ◌≢◌, ◌↔◌, ap, ◌∙◌, inl, inr, [], List, Option, none, some, Result, ok, err, Fault,
  text_eq, text_eq→eq, Result-cases, arith, if◌then◌else◌,
}
use fireactions.Config.{Config, Loader, ConfigError, new_config}
use fireactions.Startup.{
  Libraries, Machinery, NewError, invalid_config, RunError, Service, ServeEnd, new_server, start,
  wait_result,
}

-- `validate` prints the name of a file that is valid.
unfoldable pub run_validate_cmd : Loader → Text → Result ConfigError Text
unfolding new_config
run_validate_cmd l file = elim (new_config l file) [ err e ↦ err e | ok c ↦ ok file ]

pub data ServerCmdError : Type 0 where
  config_is_required : ServerCmdError
  config : ConfigError → ServerCmdError
  creating_logger : Fault → ServerCmdError
  could_not_create_server : NewError → ServerCmdError
  running : RunError → ServerCmdError

-- Run's own result. The servers' Serve return in the order of `ends`.
unfoldable pub run_result : Machinery → List ServeEnd → Service → Option RunError
unfolding start wait_result
run_result m ends s = elim (start m s).error [ some e ↦ some e | none ↦ wait_result ends ]

abbrev pub as_running : Option RunError → Option ServerCmdError
as_running none = none
as_running (some e) = some (running e)

-- `parse_level` is zerolog.ParseLevel's error, which logger.New hands on.
unfoldable pub run_server_cmd :
    Loader
    → (Text → Option Fault)
    → Libraries
    → Machinery
    → List ServeEnd
    → Text
    → Option ServerCmdError
unfolding new_config new_server run_result text_eq
run_server_cmd l parse_level libraries m ends file =
    if text_eq file [] then some config_is_required else elim (new_config l file) [
      | err e ↦ some (config e)
      | ok c ↦ elim (parse_level c.log_level) [
        | some e ↦ some (creating_logger e)
        | none ↦ elim (new_server libraries c) [
          | err e ↦ some (could_not_create_server e)
          | ok s ↦ as_running (run_result m ends s)
        ]
      ]
    ]

new_config-valid :
    (l : Loader) (file : Text) (c : Config) → new_config l file ≡ ok c → l.validate c ≡ none
unfolding new_config
new_config-valid l file c h = ground arith

-- `validate` and `server` agree on a named file, where New validates as NewConfig does: `server` ends with
-- an error of the configuration exactly if `validate` refuses the file with it, and New refuses no
-- configuration that has been read.
pub run_validate_cmd-run_server_cmd :
    (l : Loader) (parse_level : Text → Option Fault) (libraries : Libraries) (m : Machinery)
    (ends : List ServeEnd) (file : Text) (e : ConfigError) (f : Fault)
    → file ≢ []
    → libraries.validate ≡ l.validate
    → ((run_validate_cmd l file ≡ err e)
        ↔ (run_server_cmd l parse_level libraries m ends file ≡ some (config e)))
      × (run_server_cmd l parse_level libraries m ends file
          ≢ some (could_not_create_server (invalid_config f)))
unfolding run_validate_cmd run_server_cmd new_server
run_validate_cmd-run_server_cmd l parse_level libraries m ends file e f named same =
    elim (Result-cases (new_config l file)) [
      | inr (d, h) ↦ (
        (λ k. ground (arith, text_eq→eq file []), λ k. ground (arith, text_eq→eq file [])),
        λ k. ground (arith, text_eq→eq file []),
      )
      | inl (c, h) ↦
          let again : libraries.validate c ≡ none =
            ap (λ v. v c) same ∙ new_config-valid l file c h in
          (
            (λ k. absurd (ground arith), λ k. absurd (ground (arith, again))),
            λ k. ground (arith, again),
          )
    ]
