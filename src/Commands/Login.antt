-- ===== src/Commands/Login.antt =====
-- cmd/fireactions/login.go: `login`. The answer of GetMachine, net.ParseIP and ssh are parameters.
use fireactions.Prelude.{
  Text, codes, ◌≡◌, Bool, true, List, [], ◌∷◌, ◌++◌, Option, none, some, Result, ok, err, Fault,
  text_eq, if◌then◌else◌, arith, inl, inr, ap, ◌∙◌, Bool-cases, Option-cases, Result-cases,
}
use fireactions.Server.{Status, MachineProto}

pub data LoginError : Type 0 where
  failed_to_get_machine : Status → LoginError
  received_nil_machine no_ip_address : LoginError
  invalid_ip_address : Text → LoginError
  ssh_connection_failed : Fault → LoginError

-- The command lines that have been run, and the error.
pub record Login : Type 0 where
  pub runs : List (List Text)
  pub error : Option LoginError

abbrev pub gives_up : LoginError → Login
gives_up e = record { runs = []; error = some e }

abbrev pub ssh_command : Text → List Text
ssh_command addr =
    codes "ssh"
    ∷ codes "-o"
    ∷ codes "StrictHostKeyChecking=no"
    ∷ codes "-o"
    ∷ codes "UserKnownHostsFile=/dev/null"
    ∷ codes "-o"
    ∷ codes "LogLevel=ERROR"
    ∷ (codes "root@" ++ addr)
    ∷ []

abbrev pub ssh_error : Option Fault → Option LoginError
ssh_error none = none
ssh_error (some e) = some (ssh_connection_failed e)

abbrev pub connect_to : (List Text → Option Fault) → Text → Login
connect_to ssh addr = record {
  runs = ssh_command addr ∷ [];
  error = ssh_error (ssh (ssh_command addr));
}

unfoldable pub run_login_cmd :
    (Text → Result Status (Option MachineProto))
    → (Text → Bool)
    → (List Text → Option Fault)
    → Text
    → Login
unfolding text_eq
run_login_cmd get_machine is_ip ssh vmid = elim (get_machine vmid) [
  | err e ↦ gives_up (failed_to_get_machine e)
  | ok none ↦ gives_up received_nil_machine
  | ok (some vm) ↦
      if text_eq vm.addr []
      then gives_up no_ip_address
      else if is_ip vm.addr
      then connect_to ssh vm.addr
      else gives_up (invalid_ip_address vm.addr)
]

-- How a login can go.
pub data Goes (get_machine : Text → Result Status (Option MachineProto)) (is_ip : Text → Bool)
    (vmid : Text) (login : Login) : Type 0 where
  refused : (e : LoginError) → login ≡ gives_up e → Goes get_machine is_ip vmid login
  connects :
      (vm : MachineProto)
      → get_machine vmid ≡ ok (some vm)
      → is_ip vm.addr ≡ true
      → login.runs ≡ ssh_command vm.addr ∷ []
      → Goes get_machine is_ip vmid login

with_machine :
    (get_machine : Text → Result Status (Option MachineProto)) (is_ip : Text → Bool)
    (ssh : List Text → Option Fault) (vmid : Text) (vm : MachineProto)
    → get_machine vmid ≡ ok (some vm)
    → Goes get_machine is_ip vmid (run_login_cmd get_machine is_ip ssh vmid)
unfolding run_login_cmd
with_machine get_machine is_ip ssh vmid vm h = elim (Bool-cases (text_eq vm.addr [])) [
  | inl e ↦ refused no_ip_address (ground arith)
  | inr e ↦ elim (Bool-cases (is_ip vm.addr)) [
    | inl i ↦ connects vm h i (ground arith)
    | inr i ↦ refused (invalid_ip_address vm.addr) (ground arith)
  ]
]

-- Whatever the server answers, `login` either ends with an error and has run nothing, or has run ssh once,
-- as root at the address of the machine that the server gave, which net.ParseIP takes for an address.
pub run_login_cmd-Goes :
    (get_machine : Text → Result Status (Option MachineProto)) (is_ip : Text → Bool)
    (ssh : List Text → Option Fault) (vmid : Text)
    → Goes get_machine is_ip vmid (run_login_cmd get_machine is_ip ssh vmid)
unfolding run_login_cmd
run_login_cmd-Goes get_machine is_ip ssh vmid = elim (Result-cases (get_machine vmid)) [
  | inr (e, h) ↦ refused (failed_to_get_machine e) (ground arith)
  | inl (answer, h) ↦ elim (Option-cases answer) [
    | inl e ↦ refused received_nil_machine (ground arith)
    | inr (vm, e) ↦ with_machine get_machine is_ip ssh vmid vm (h ∙ ap ok e)
  ]
]
