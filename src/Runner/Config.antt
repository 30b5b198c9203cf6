-- ===== src/Runner/Config.antt =====
-- agent/runner/runner.go: what of the runner's configuration reaches the command line.
use fireactions.Prelude.{
  Text, codes, ℕ, ◌≡◌, refl, ap, ◌∙◌, inl, inr, true, false, List, [], ◌∷◌, none, some, ok, err,
  arith, ◌==◌, has_byte, contains_any, trim_space, Fault, Bool-cases, Option-cases, Result-cases,
}
use fireactions.Runner.{
  Runner, Os, Happening, Command, Ran, RunError, invalid_config, start_runner, errored, forbidden,
  set_state, follow, prepare, start, start_prepared, wait, run, command,
}

contains_any-has_byte :
    (s cs : Text) (b : ℕ) → contains_any s cs ≡ false → has_byte cs b ≡ true → has_byte s b ≡ false
unfolding contains_any has_byte
contains_any-has_byte [] cs b h k = refl
contains_any-has_byte (a ∷ s) cs b h k = elim (Bool-cases (a == b)) [
  | inl e ↦
      let same : a ≡ b = ground arith in
      let moved : has_byte cs a ≡ true = rw same k in ground arith
  | inr e ↦ ground (arith, contains_any-has_byte s cs b)
]

-- What Run starts has the trimmed configuration as its one option, and none of the forbidden bytes
-- is in it.
pub record Clean (r : Runner) (c : Command) : Type 0 where
  pub args : c.args ≡ codes "--jitconfig" ∷ trim_space r.config ∷ []
  pub dir : c.dir ≡ r.directory
  pub no_forbidden :
      (b : ℕ) → has_byte forbidden b ≡ true → has_byte (trim_space r.config) b ≡ false

-- A configuration with a forbidden byte left after it is trimmed starts nothing.
prepare-refuses :
    (os : Os) (r : Runner)
    → contains_any (trim_space r.config) forbidden ≡ true
    → prepare os r ≡ err (invalid_config (trim_space r.config))
unfolding prepare
prepare-refuses os r h = rw h refl

prepare-Clean : (os : Os) (r : Runner) (c : Command) → prepare os r ≡ ok c → Clean r c
unfolding prepare command
prepare-Clean os r c h = elim (Bool-cases (contains_any (trim_space r.config) forbidden)) [
  | inl e ↦ ground (arith, prepare-refuses os r e)
  | inr e ↦ record {
    args = ground arith;
    dir = ground arith;
    no_forbidden = λ b k. contains_any-has_byte (trim_space r.config) forbidden b e k;
  }
]

start-none :
    (os : Os) (c : Command) (hs : List Happening) (r : Runner)
    → os.start c ≡ none
    → start os c hs r ≡ record { runner = follow hs r; started = some c; returned = wait hs }
unfolding start
start-none os c hs r h = rw (h, start) refl

start-some :
    (os : Os) (c : Command) (hs : List Happening) (r : Runner) (f : Fault)
    → os.start c ≡ some f
    → start os c hs r ≡ record {
      runner = set_state errored r;
      started = none;
      returned = some (err (start_runner f));
    }
unfolding start
start-some os c hs r f h = rw (h, start) refl

-- The ways in which Run can have gone.
pub data Ended (os : Os) (hs : List Happening) (r : Runner) (x : Ran) : Type 0 where
  refused :
      (e : RunError)
      → x ≡ record { runner = r; started = none; returned = some (err e) }
      → Ended os hs r x
  start_failed :
      (c : Command) (f : Fault)
      → Clean r c
      → os.start c ≡ some f
      → x ≡ record {
        runner = set_state errored r;
        started = none;
        returned = some (err (start_runner f));
      }
      → Ended os hs r x
  run_to_end :
      (c : Command)
      → Clean r c
      → os.start c ≡ none
      → x ≡ record { runner = follow hs r; started = some c; returned = wait hs }
      → Ended os hs r x

-- Run starts a process only with a command whose option is the trimmed configuration, in the runner's
-- directory, and with none of the bytes ";|&$`(){}[]*?~<>^!", newline and carriage return in it. A
-- start that fails sets the state to Error; every failure before it is returned with the state as it
-- was; and else the runner is the one that what happens to the process leaves, and Run returns what Wait
-- answers.
pub run-Ended : (os : Os) (hs : List Happening) (r : Runner) → Ended os hs r (run os hs r)
unfolding run start start_prepared
run-Ended os hs r = elim (Result-cases (prepare os r)) [
  | inr (e, h) ↦ refused e (ap (start_prepared os hs r) h)
  | inl (c, h) ↦ elim (Option-cases (os.start c)) [
    | inl s ↦
        run_to_end c (prepare-Clean os r c h) s
          (ap (start_prepared os hs r) h ∙ start-none os c hs r s)
    | inr (f, s) ↦
        start_failed c f (prepare-Clean os r c h) s
          (ap (start_prepared os hs r) h ∙ start-some os c hs r f s)
  ]
]
