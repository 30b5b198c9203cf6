-- ===== src/Runner/Tests.antt =====
-- A runner on a small system.
use fireactions.Prelude.{Text, codes, ◌≡◌, refl, List, [], ◌∷◌, ◌++◌, none, some, ok, All, is_space}
use fireactions.Runner.{
  Runner, new_runner, completed, detect, Happening, prints, waited, follow, Os, run,
}
use fireactions.Runner.State.{follow-last}
use fireactions.Runner.Config.{Ended, run-Ended}
use fireactions.Runner.Version.{NotSpace}

abbrev pub os : Os
os = record {
  stdout_pipe = none;
  stderr_pipe = none;
  lookup = λ n. ok (record { name = n; id = codes "1001"; home = codes "/home/runner" });
  lookup_group = λ n. ok (record { name = n; id = codes "998"; home = [] });
  start = λ c. none;
}

-- The last line is read when the process has been waited for.
abbrev pub happenings : List Happening
happenings = prints (codes "Running job: build") ∷ waited none ∷ []

abbrev late : Happening
late = prints (codes "Job build completed with result: Succeeded")

abbrev runner : Runner
unfolding new_runner
runner = new_runner (codes " eyJhIjoxfQ== \n") []

late_told : detect (codes "Job build completed with result: Succeeded") ≡ some completed
unfolding detect
late_told = refl

follow-last_example : follow (happenings ++ late ∷ []) runner ≡ record runner { state = completed }
follow-last_example = follow-last happenings late [] completed runner late_told tt

run-Ended_example : Ended os happenings runner (run os happenings runner)
run-Ended_example = run-Ended os happenings runner

starts : (run os happenings runner).returned ≡ some (ok tt)
unfolding run runner
starts = refl

refuses : (run os happenings (new_runner (codes "a;b") [])).started ≡ none
unfolding run new_runner
refuses = refl

abbrev output : Text
output = codes "Exiting runner...\n"

version-NotSpace : All NotSpace (codes "2.3")
unfolding is_space
version-NotSpace = (refl, (refl, (refl, tt)))
