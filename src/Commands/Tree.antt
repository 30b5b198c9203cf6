-- ===== src/Commands/Tree.antt =====
-- cmd/fireactions/cmd.go and the new…Cmd functions beside it, and version.go: the tree of commands and
-- what each asks of cobra, with the head of each run function, up to the call that its own model has.
-- Left out: help texts, the order of flags and of commands, and SetFlagErrorFunc.
use fireactions.Prelude.{
  Text, codes, ℕ, Bool, false, List, [], ◌∷◌, Option, none, some, Result, ok, err, Fault, ℤ, pos,
}

-- cobra.ExactArgs, cobra.NoArgs, and a nil Args.
pub data Args : Type 0 where
  exact_args : ℕ → Args
  no_args nil_args : Args

-- The default of a flag, with its type.
pub data Default : Type 0 where
  string : Text → Default
  int : ℤ → Default
  bool : Bool → Default

pub record Flag : Type 0 where
  pub name : Text
  pub shorthand : Text
  pub default : Default

-- What cmd.Flags().GetString and its kin give for a name, after cobra has parsed the flags. A variable
-- bound by BoolVarP or IntVar holds what they give.
pub record Values : Type 0 where
  pub get_string : Text → Result Fault Text
  pub get_int : Text → Result Fault ℤ
  pub get_bool : Text → Result Fault Bool

-- `x, _ :=` drops the error, and x is the zero value.
abbrev pub or_zero : {A : Type 0} → A → Result Fault A → A
or_zero z (ok a) = a
or_zero z (err e) = z

-- What a run function does once it has its arguments and its client: the function that models the rest of
-- it, with what it is given.
pub data Call : Type 0 where
  run_pools_list_cmd run_image_list_cmd run_ps_cmd : Call
  run_pools_pause_cmd run_pools_resume_cmd run_image_remove_cmd run_login_cmd : Text → Call
  run_pools_scale_cmd : Text → ℤ → Call
  run_logs_cmd : Text → Bool → ℤ → Call

-- `panics` is an index that is out of range.
pub data Ran : Type 0 where
  panics : Ran
  create_client : Fault → Ran
  calls : Text → Call → Ran
  run_server_cmd run_validate_cmd run_agent_cmd prints : Text → Ran

-- args[0]
abbrev pub with_first : List Text → (Text → Ran) → Ran
with_first [] f = panics
with_first (a ∷ rest) f = f a

-- newClient at the endpoint of the flag. `new_client endpoint` is the error of grpc.NewClient.
unfoldable pub on_client : Values → (Text → Option Fault) → (Text → Ran) → Ran
on_client v new_client f =
    let endpoint = or_zero [] (v.get_string (codes "endpoint")) in
    elim (new_client endpoint) [ some e ↦ create_client e | none ↦ f endpoint ]

abbrev pub RunE : Type 0
RunE = Values → (Text → Option Fault) → List Text → Ran

pub record Spec : Type 0 where
  pub use_line : Text
  pub aliases : List Text
  pub group_id : Text
  pub args : Args
  pub flags : List Flag
  pub persistent_flags : List Flag
  pub required : List Text
  pub groups : List Text
  pub run_e : Option RunE

-- A command with what AddCommand has added to it.
mutual
  pub data Command : Type 0 where
    command : Spec → Commands → Command

  pub data Commands : Type 0 where
    no_commands : Commands
    added : Command → Commands → Commands

-- &cobra.Command{Use: …}: the other fields are zero.
abbrev pub bare : Text → Spec
bare name = record {
  use_line = name;
  aliases = [];
  group_id = [];
  args = nil_args;
  flags = [];
  persistent_flags = [];
  required = [];
  groups = [];
  run_e = none;
}

abbrev pub leaf : Spec → Command
leaf s = command s no_commands

-- Flags().StringP("endpoint", "e", …), the same for every command that has it.
abbrev pub endpoint_flag : Flag
endpoint_flag = record {
  name = codes "endpoint";
  shorthand = codes "e";
  default = string (codes "127.0.0.1:8080");
}

-- A run function that has one argument and a client.
abbrev pub named : (Text → Call) → RunE
named f v new_client args = on_client v new_client (λ e. with_first args (λ a. calls e (f a)))

abbrev pub unnamed : Call → RunE
unnamed c v new_client args = on_client v new_client (λ e. calls e c)

abbrev pub run_scale : RunE
run_scale v new_client args = on_client v new_client (λ e.
    let replicas = or_zero (pos 0) (v.get_int (codes "replicas")) in
    with_first args (λ a. calls e (run_pools_scale_cmd a replicas)))

-- args[0] is read before runLogsCmd is called, and in login before runLoginCmd is.
abbrev pub run_logs : RunE
run_logs v new_client args = with_first args (λ a.
    let follow = or_zero false (v.get_bool (codes "follow")) in
    let tail = or_zero (pos 0) (v.get_int (codes "tail")) in
    on_client v new_client (λ e. calls e (run_logs_cmd a follow tail)))

abbrev pub run_login : RunE
run_login v new_client args =
    with_first args (λ a. on_client v new_client (λ e. calls e (run_login_cmd a)))

unfoldable pub new_pools_resume_cmd : Command
unfolding on_client
new_pools_resume_cmd = leaf (record (bare (codes "resume NAME")) {
  args = exact_args 1;
  run_e = some (named run_pools_resume_cmd);
})

unfoldable pub new_pools_pause_cmd : Command
unfolding on_client
new_pools_pause_cmd = leaf (record (bare (codes "pause NAME")) {
  args = exact_args 1;
  run_e = some (named run_pools_pause_cmd);
})

unfoldable pub new_pools_scale_cmd : Command
unfolding on_client
new_pools_scale_cmd = leaf (record (bare (codes "scale NAME --replicas N")) {
  args = exact_args 1;
  flags = record { name = codes "replicas"; shorthand = []; default = int (pos 0) } ∷ [];
  required = codes "replicas" ∷ [];
  run_e = some run_scale;
})

unfoldable pub new_pools_list_cmd : Command
unfolding on_client
new_pools_list_cmd = leaf (record (bare (codes "list")) {
  aliases = codes "ls" ∷ [];
  args = no_args;
  run_e = some (unnamed run_pools_list_cmd);
})

unfoldable pub new_pools_cmd : Command
unfolding new_pools_list_cmd new_pools_pause_cmd new_pools_resume_cmd new_pools_scale_cmd
new_pools_cmd =
    command
      (record (bare (codes "pools")) {
        group_id = codes "pool";
        persistent_flags = endpoint_flag ∷ [];
      })
      (added new_pools_list_cmd (
        added new_pools_pause_cmd
          (added new_pools_resume_cmd (added new_pools_scale_cmd no_commands))))

unfoldable pub new_image_list_cmd : Command
unfolding on_client
new_image_list_cmd = leaf (record (bare (codes "list")) {
  aliases = codes "ls" ∷ [];
  args = no_args;
  run_e = some (unnamed run_image_list_cmd);
})

unfoldable pub new_image_remove_cmd : Command
unfolding on_client
new_image_remove_cmd = leaf (record (bare (codes "remove NAME")) {
  aliases = codes "rm" ∷ [];
  args = exact_args 1;
  run_e = some (named run_image_remove_cmd);
})

unfoldable pub new_image_cmd : Command
unfolding new_image_list_cmd new_image_remove_cmd
new_image_cmd =
    command
      (record (bare (codes "image")) {
        group_id = codes "image";
        groups = codes "image" ∷ [];
        persistent_flags = endpoint_flag ∷ [];
      })
      (added new_image_list_cmd (added new_image_remove_cmd no_commands))

unfoldable pub new_ps_cmd : Command
unfolding on_client
new_ps_cmd = leaf (record (bare (codes "ps")) {
  aliases = codes "ls" ∷ [];
  group_id = codes "machine";
  flags = endpoint_flag ∷ [];
  run_e = some (unnamed run_ps_cmd);
})

unfoldable pub new_login_cmd : Command
unfolding on_client
new_login_cmd = leaf (record (bare (codes "login <vmid>")) {
  group_id = codes "machine";
  args = exact_args 1;
  flags = endpoint_flag ∷ [];
  run_e = some run_login;
})
