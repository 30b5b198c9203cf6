-- ===== src/Runner.antt =====
-- agent/runner/runner.go: the GitHub Actions runner as a process of the agent, whose state is read
-- off the lines that it prints. The operating system's answers are a parameter. Left out: the writers
-- and the logger.
pub mod Config
pub mod State
pub mod Version
pub mod Tests
use fireactions.Prelude.{
  Text, codes, ℕ, zero, suc, ◌+◌, ◌-◌, ◌*◌, ◌/◌, ◌%◌, ◌≡◌, Bool, true, false, ◌&&◌, ◌||◌, List, [],
  ◌∷◌, ◌++◌, Option, none, some, Result, ok, err, Fault, ℤ, pos, negsuc, ltb, leb, if◌then◌else◌,
  ◌==◌, contains, contains_any, trim_space, to_int32, atoi, itoa,
}

pub data RunnerState : Type 0 where
  starting idle running completed exited errored : RunnerState

pub record Runner : Type 0 where
  pub config : Text
  pub directory : Text
  pub owner : Text
  pub group : Text
  pub state : RunnerState

-- The options that set a field of the record; those of the writers and of the logger set none of it.
pub data Opt : Type 0 where
  with_directory with_owner with_group : Text → Opt
  with_stdout with_stderr with_logger : Opt

abbrev apply : Opt → Runner → Runner
apply (with_directory dir) r = record r { directory = dir }
apply (with_owner owner) r = record r { owner = owner }
apply (with_group group) r = record r { group = group }
apply with_stdout r = r
apply with_stderr r = r
apply with_logger r = r

unfoldable pub apply_all : List Opt → Runner → Runner
apply_all [] r = r
apply_all (opt ∷ opts) r = apply_all opts (apply opt r)

unfoldable pub new_runner : Text → List Opt → Runner
unfolding apply_all
new_runner config opts = apply_all opts (record {
  config = config;
  directory = codes "/opt/runner";
  owner = codes "runner";
  group = codes "docker";
  state = starting;
})

abbrev pub set_state : RunnerState → Runner → Runner
set_state s r = record r { state = s }

-- The state that a line of the runner's output tells of.
unfoldable pub detect : Text → Option RunnerState
unfolding contains
detect line =
    if contains line (codes "Listening for Jobs")
    then some idle
    else if contains line (codes "Running job:")
    then some running
    else if contains line (codes "Job") && contains line (codes "completed with result:")
    then some completed
    else none

-- pipeToLogger's body for a line; the empty line is skipped before it is logged.
unfoldable pub read_line : Text → Runner → Runner
unfolding detect
read_line [] r = r
read_line (c ∷ line) r = elim (detect (c ∷ line)) [ none ↦ r | some s ↦ set_state s r ]

-- os/exec's answer to Wait, `none` for an exit with status 0.
abbrev Exit : Type 0
Exit = Option Fault

-- The end of Run: the state for what Wait returns.
unfoldable pub finish : Exit → Runner → Runner
finish none r = set_state exited r
finish (some e) r = set_state errored r

-- What the goroutines of the two pipes and Run do once the process is there, in the order in which it
-- happens: lines that a pipe was read ahead for come after Wait's answer, too.
pub data Happening : Type 0 where
  prints : Text → Happening
  waited : Exit → Happening

unfoldable pub step : Happening → Runner → Runner
unfolding read_line finish
step (prints l) r = read_line l r
step (waited e) r = finish e r

unfoldable pub follow : List Happening → Runner → Runner
unfolding step
follow [] r = r
follow (h ∷ hs) r = follow hs (step h r)

pub record Account : Type 0 where
  pub name : Text
  pub id : Text
  pub home : Text

-- exec.Cmd, as far as Run fills it.
pub record Command : Type 0 where
  pub path : Text
  pub args : List Text
  pub dir : Text
  pub uid : ℕ
  pub gid : ℕ
  pub env : List Text

-- The operating system.
pub record Os : Type 0 where
  pub stdout_pipe : Option Fault
  pub stderr_pipe : Option Fault
  pub lookup : Text → Result Fault Account
  pub lookup_group : Text → Result Fault Account
  pub start : Command → Option Fault

pub data RunError : Type 0 where
  invalid_config : Text → RunError
  create_stdout_pipe create_stderr_pipe lookup_owner find_group start_runner process_failed :
      Fault → RunError
  parse_uid parse_gid : Text → RunError

-- filepath.Join of a clean absolute directory and a file's name.
abbrev join : Text → Text → Text
join dir file = dir ++ codes "/" ++ file

unfoldable pub forbidden : Text
forbidden = codes ";|&$`(){}[]*?~<>^!\n\r"

unfoldable pub command : Runner → Text → Account → ℤ → ℤ → Command
unfolding to_int32
command r config owner uid gid = record {
  path = join r.directory (codes "run.sh");
  args = codes "--jitconfig" ∷ config ∷ [];
  dir = r.directory;
  uid = to_int32 uid;
  gid = to_int32 gid;
  env =
      codes "PATH=/usr/local/sbin:/usr/local/bin:/usr/sbin:/usr/bin:/sbin:/bin"
      ∷ (codes "LOGNAME=" ++ owner.name)
      ∷ (codes "HOME=" ++ owner.home)
      ∷ (codes "USER=" ++ owner.name)
      ∷ (codes "UID=" ++ itoa uid)
      ∷ (codes "GID=" ++ itoa gid)
      ∷ [];
}

-- Run up to the start of the process: the command that it starts.
unfoldable pub prepare : Os → Runner → Result RunError Command
unfolding trim_space contains_any atoi command forbidden
prepare os r =
    let config = trim_space r.config in
    if contains_any config forbidden then err (invalid_config config) else elim os.stdout_pipe [
      | some e ↦ err (create_stdout_pipe e)
      | none ↦ elim os.stderr_pipe [
        | some e ↦ err (create_stderr_pipe e)
        | none ↦ elim (os.lookup r.owner) [
          | err e ↦ err (lookup_owner e)
          | ok owner ↦ elim (atoi owner.id) [
            | none ↦ err (parse_uid owner.id)
            | some uid ↦ elim (os.lookup_group r.group) [
              | err e ↦ err (find_group e)
              | ok group ↦ elim (atoi group.id) [
                | none ↦ err (parse_gid group.id)
                | some gid ↦ ok (command r config owner uid gid)
              ]
            ]
          ]
        ]
      ]
    ]

-- What Run and the goroutines of the pipes have done, and what Run has returned, `none` while it waits.
pub record Ran : Type 0 where
  pub runner : Runner
  pub started : Option Command
  pub returned : Option (Result RunError (Unit {0}))

-- Wait answers once, and Run returns what it answers.
unfoldable pub wait : List Happening → Option (Result RunError (Unit {0}))
wait [] = none
wait (prints l ∷ hs) = wait hs
wait (waited none ∷ hs) = some (ok tt)
wait (waited (some e) ∷ hs) = some (err (process_failed e))

unfoldable pub start : Os → Command → List Happening → Runner → Ran
unfolding follow wait
start os c hs r = elim (os.start c) [
  | some e ↦ record {
    runner = set_state errored r;
    started = none;
    returned = some (err (start_runner e));
  }
  | none ↦ record { runner = follow hs r; started = some c; returned = wait hs }
]

unfoldable pub start_prepared : Os → List Happening → Runner → Result RunError Command → Ran
unfolding start
start_prepared os hs r (err e) = record { runner = r; started = none; returned = some (err e) }
start_prepared os hs r (ok c) = start os c hs r

-- Run, with what happens once the process is there.
unfoldable pub run : Os → List Happening → Runner → Ran
unfolding prepare start_prepared
run os hs r = start_prepared os hs r (prepare os r)

pub data VersionError : Type 0 where
  run_failed : Fault → VersionError
  empty_version : VersionError

-- The first of strings.Split's pieces.
abbrev pub first_line : Text → Text
first_line [] = []
first_line (c ∷ cs) = let rest = first_line cs in if c == 10 then [] else c ∷ rest

abbrev pub some_version : Text → Result VersionError Text
some_version [] = err empty_version
some_version (c ∷ cs) = ok (c ∷ cs)

-- GetVersion, for what `run.sh --version` prints. strings.Split gives at least one piece.
unfoldable pub get_version : Result Fault Text → Result VersionError Text
unfolding trim_space
get_version (err e) = err (run_failed e)
get_version (ok output) = some_version (trim_space (first_line output))
