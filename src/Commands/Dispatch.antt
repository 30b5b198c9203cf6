-- ===== src/Commands/Dispatch.antt =====
-- cmd/fireactions: what cobra may run of the tree, with what arguments and flags, and what the run functions
-- make of them.
use mathlib.Core.List.{Memᴰ}
use fireactions.Prelude.{Text, sym, List, [], ◌∷◌, ◌++◌, Option, none, some, Fault, All, subst}
use fireactions.Commands.Tree.{
  Args, Flag, Values, RunE, Spec, Command, Commands, command, no_commands, added,
}
use fireactions.Commands.Root.{Build, new_root_command}
use fireactions.Commands.Ready.{
  Accepted, Defined, Ready, or_zero_lem, named-Ready, scale-Ready, logs-Ready, login-Ready,
  validate-Ready, unnamed-Ready,
}

-- A command that can be run, with every flag that is defined where it runs.
pub record Runnable : Type 0 where
  pub use_line : Text
  pub args : Args
  pub flags : List Flag
  pub run_e : RunE

abbrev pub own : List Flag → Spec → List Runnable
own inherited s = elim s.run_e [
  | none ↦ []
  | some r ↦
      record {
        use_line = s.use_line;
        args = s.args;
        flags = s.flags ++ (s.persistent_flags ++ inherited);
        run_e = r;
      }
      ∷ []
]

-- Persistent flags are those of every command below, too.
abbrev mutual
  pub runnables : List Flag → Command → List Runnable
  runnables inherited (command s cs) =
      own inherited s ++ runnables_of (s.persistent_flags ++ inherited) cs

  pub runnables_of : List Flag → Commands → List Runnable
  runnables_of inherited no_commands = []
  runnables_of inherited (added c cs) = runnables inherited c ++ runnables_of inherited cs

All-Mem {ℓ κ} : {A : Type ℓ} {x : A} {xs : List A} (P : A → Type κ) → All P xs → Memᴰ x xs → P x
All-Mem {xs = []} P h m = elim m [ ]
All-Mem {xs = y ∷ ys} P h (Memᴰ.head e) = subst P (sym e) h.0
All-Mem {xs = y ∷ ys} P h (Memᴰ.tail m) = All-Mem P h.1 m

IsReady : Runnable → Type 0
IsReady r =
    (v : Values) (new_client : Text → Option Fault) (args : List Text)
    → Accepted r.args args
    → All (Defined v) r.flags
    → Ready v new_client args (r.run_e v new_client args)

all-IsReady : (b : Build) → All IsReady (runnables [] (new_root_command b))
unfolding new_root_command IsReady
all-IsReady b = (
  (λ v c args a d. or_zero_lem _ _ d.0.1),
  (
    (λ v c args a d. or_zero_lem _ _ d.0.1),
    (
      (λ v c args a d. validate-Ready v c args a),
      (
        (λ v c args a d. unnamed-Ready v c args _ d.0 tt),
        (
          (λ v c args a d. named-Ready v c args _ a d.0 (λ x h. h)),
          (
            (λ v c args a d. named-Ready v c args _ a d.0 (λ x h. h)),
            (
              (λ v c args a d. scale-Ready v c args _ a d.0.1 d.1.0),
              (
                (λ v c args a d. unnamed-Ready v c args _ d.0 tt),
                (
                  (λ v c args a d. login-Ready v c args a d.0),
                  (
                    (λ v c args a d. logs-Ready v c args _ _ a d.0.1 d.1.0.1 d.1.1.0),
                    (
                      (λ v c args a d. unnamed-Ready v c args _ d.0 tt),
                      (
                        (λ v c args a d. named-Ready v c args _ a d.0 (λ x h. h)),
                        ((λ v c args a d. tt), tt),
                      ),
                    ),
                  ),
                ),
              ),
            ),
          ),
        ),
      ),
    ),
  ),
)

-- Whatever command cobra runs, with arguments that its Args accepts and a value for every flag that is
-- defined for it, its own or inherited: the run function indexes no argument that is not there and asks
-- for no flag that is not defined with that type; it makes its client for the endpoint flag and stops if
-- that fails; and it hands on the argument and the values of the flags that were given.
pub runnables-Ready :
    (b : Build) (r : Runnable) (v : Values) (new_client : Text → Option Fault) (args : List Text)
    → Memᴰ r (runnables [] (new_root_command b))
    → Accepted r.args args
    → All (Defined v) r.flags
    → Ready v new_client args (r.run_e v new_client args)
unfolding IsReady
runnables-Ready b r v c args m a d = All-Mem IsReady (all-IsReady b) m v c args a d
