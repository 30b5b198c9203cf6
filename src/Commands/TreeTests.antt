-- ===== src/Commands/TreeTests.antt =====
-- The tree of commands: `pools scale` at concrete arguments, and what cobra demands of the whole tree.
use mathlib.Core.List.{Memᴰ}
use fireactions.Prelude.{
  Text, codes, ◌≡◌, refl, Bool, true, false, List, [], ◌∷◌, none, ok, err, fault, pos, ◌&&◌,
  text_eq, if◌then◌else◌,
}
use fireactions.Commands.Tree.{
  Values, run_pools_scale_cmd, calls, exact_args, Command, Commands, command, no_commands, added,
  run_scale, endpoint_flag, int, on_client,
}
use fireactions.Commands.Root.{Build, new_root_command}
use fireactions.Commands.Dispatch.{Runnable, runnables, runnables-Ready}
use fireactions.Commands.Ready.{Ready}

abbrev build : Build
build = record { version = codes "0.0.0"; date = codes "today"; commit = codes "abc" }

-- `pools scale default --replicas 5`
abbrev values : Values
values = record {
  get_string = λ name. ok (codes "127.0.0.1:8080");
  get_int = λ name. ok (pos 5);
  get_bool = λ name. err (fault 0);
}

abbrev scale : Runnable
scale = record {
  use_line = codes "scale NAME --replicas N";
  args = exact_args 1;
  flags =
      record { name = codes "replicas"; shorthand = []; default = int (pos 0) }
      ∷ endpoint_flag
      ∷ [];
  run_e = run_scale;
}

scale_is_there : Memᴰ scale (runnables [] (new_root_command build))
unfolding new_root_command
scale_is_there =
    Memᴰ.tail (Memᴰ.tail (Memᴰ.tail (Memᴰ.tail (Memᴰ.tail (Memᴰ.tail (Memᴰ.head refl))))))

runnables-Ready_example :
    Ready values
      (λ endpoint. none)
      (codes "default" ∷ [])
      (calls (codes "127.0.0.1:8080") (run_pools_scale_cmd (codes "default") (pos 5)))
unfolding on_client
runnables-Ready_example =
    runnables-Ready build scale values (λ endpoint. none) (codes "default" ∷ []) scale_is_there refl
      ((pos 5, refl), ((codes "127.0.0.1:8080", refl), tt))

-- The GroupID of every command is a group of its parent, without which cobra panics.
abbrev is_known : Text → List Text → Bool
is_known g [] = false
is_known g (x ∷ xs) = if text_eq x g then true else is_known g xs

abbrev mutual
  groups_known : List Text → Command → Bool
  groups_known groups (command s cs) =
      (if text_eq s.group_id [] then true else is_known s.group_id groups) && all_known s.groups cs

  all_known : List Text → Commands → Bool
  all_known groups no_commands = true
  all_known groups (added c cs) = groups_known groups c && all_known groups cs

root_groups : groups_known [] (new_root_command build) ≡ true
unfolding new_root_command text_eq
root_groups = refl
