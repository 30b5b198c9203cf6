-- ===== src/Runner/State.antt =====
-- agent/runner/runner.go: the state that GetState shows against what has happened to the process.
use fireactions.Prelude.{
  Text, codes, ◌≡◌, refl, true, List, [], ◌∷◌, ◌++◌, Option, none, some, arith, All, has_prefix,
  contains, Option-cases, inl, inr, ◌∙◌, ap,
}
use fireactions.Runner.{
  Runner, RunnerState, idle, exited, errored, detect, read_line, finish, step, Happening, prints,
  waited, follow,
}

has_prefix-append : (w b : Text) → has_prefix (w ++ b) w ≡ true
unfolding has_prefix
has_prefix-append [] [] = refl
has_prefix-append [] (c ∷ b) = refl
has_prefix-append (c ∷ w) b = ground (arith, has_prefix-append w b)

contains-append : (a w b : Text) → contains (a ++ (w ++ b)) w ≡ true
unfolding contains has_prefix
contains-append [] [] [] = refl
contains-append [] [] (c ∷ b) = refl
contains-append [] (c ∷ w) b = ground (arith, has_prefix-append w b)
contains-append (x ∷ a) w b = ground (arith, contains-append a w b)

-- The line for a job whose name has "Listening for Jobs" in it tells of an idle runner, whatever else
-- is in the name.
pub detect-job_name :
    (before behind : Text)
    → detect (codes "Running job: " ++ (before ++ (codes "Listening for Jobs" ++ behind)))
      ≡ some idle
unfolding detect
detect-job_name before behind =
    let found =
      contains-append (codes "Running job: " ++ before) (codes "Listening for Jobs") behind in
    ground (arith, found)

-- The state that a happening tells of.
abbrev pub told : Happening → Option RunnerState
told (prints []) = none
told (prints (c ∷ l)) = detect (c ∷ l)
told (waited none) = some exited
told (waited (some e)) = some errored

abbrev pub Silent : Happening → Type 0
Silent h = told h ≡ none

step-told :
    (h : Happening) (r : Runner)
    → step h r ≡ elim (told h) [ none ↦ r | some s ↦ record r { state = s } ]
unfolding step read_line finish
step-told (prints []) r = refl
step-told (prints (c ∷ l)) r = refl
step-told (waited none) r = refl
step-told (waited (some e)) r = refl

-- A step changes the state at most.
step-state :
    (h : Happening) (r : Runner) (s : RunnerState)
    → record (step h r) { state = s } ≡ record r { state = s }
step-state h r s = elim (Option-cases (told h)) [
  | inl e ↦ rw (step-told h r, e) refl
  | inr (t, e) ↦ rw (step-told h r, e) refl
]

follow-Silent : (hs : List Happening) (r : Runner) → All Silent hs → follow hs r ≡ r
unfolding follow
follow-Silent [] r a = refl
follow-Silent (h ∷ hs) r a = rw (step-told h r, a.0) (follow-Silent hs r a.1)

-- The runner's state is the one that the last happening that tells of a state tells of, an exit no
-- less than a line, and nothing else of the runner changes but through what happens before: so a line
-- that is read after the process was waited for takes the place of the exit's state.
pub follow-last :
    (hs : List Happening) (h : Happening) (rest : List Happening) (s : RunnerState) (r : Runner)
    → told h ≡ some s
    → All Silent rest
    → follow (hs ++ h ∷ rest) r ≡ record r { state = s }
unfolding follow
follow-last [] h rest s r t a =
    let shown : step h r ≡ record r { state = s } = rw (step-told h r, t) refl in
    ap (follow rest) shown ∙ follow-Silent rest (record r { state = s }) a
follow-last (g ∷ hs) h rest s r t a = follow-last hs h rest s (step g r) t a ∙ step-state g r s
