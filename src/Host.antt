-- ===== src/Host.antt =====
-- server/pool.go: what createMachine has around it: the answers of the image manager, containerd, the file
-- system, Firecracker and GitHub as the fields of a `Host`, over a world that their calls may change, the
-- calls that open or close something, and its errors.
use fireactions.Prelude.{Text, ℕ, Bool, List, Result, Fault}
use fireactions.Deepcopy.{Table}
use fireactions.Image.{Containerd, ImageError}
use fireactions.Pool.{Pool}
use fireactions.Pool.Spec.{MachineSpec, JitRequest}

-- GenerateOrgJITConfig's answer.
pub record JitConfig : Type 0 where
  pub encoded : Text
  pub runner_name : Text
  pub runner_id : ℕ

-- The metadata that the guest reads from MMDS: the configuration's, and the map under "fireactions",
-- which takes the place of an entry of that name.
pub record Metadata : Type 0 where
  pub runner_id : Text
  pub runner_jit_config : Text
  pub hostname : Text
  pub shutdown_on_exit : Bool
  pub user : Table

pub record Host (W : Type 0) : Type 0 where
  pub containerd : Containerd W
  pub with_lease : Text → W → Result Fault (Unit {0}) × W
  pub cancel_lease : Text → W → Result Fault (Unit {0}) × W
  pub stat_snapshot : Text → W → Result Fault (Unit {0}) × W
  pub root_fs : W → Result Fault Text × W
  pub prepare : Text → Text → W → Result Fault (Unit {0}) × W
  pub mounts : Text → W → Result Fault (List Text) × W
  pub create_log : Text → W → Result Fault (Unit {0}) × W
  pub new_machine : MachineSpec → W → Result Fault (Unit {0}) × W
  pub find_installation : Text → W → Result Fault ℕ × W
  pub generate_jit : ℕ → JitRequest → W → Result Fault JitConfig × W
  pub remove_runner : ℕ → ℕ → W → Result Fault (Unit {0}) × W
  pub start : Text → Metadata → W → Result Fault (List Text) × W
  pub now : W → ℕ

pub data HostCall : Type 0 where
  opens_lease cancels_lease opens_log closes_log cancels_vmm : Text → HostCall
  registers_runner : Text → JitConfig → HostCall
  starts_vm : Text → Metadata → HostCall
  removes_runner : ℕ → HostCall
  builds_machine : ℕ → HostCall
  finds_installation : HostCall

-- The pool, the server's counter of CIDs, the world, and the recorded calls, the latest first.
-- `machine_created` is createMachine's local variable of that name, and `lease_cancel` the lease that its
-- leaseCtxCancel cancels.
pub record Making (W : Type 0) : Type 0 where
  pub pool : Pool
  pub next_cid : ℕ
  pub world : W
  pub calls : List HostCall
  pub machine_created : Bool
  pub lease_cancel : Text

-- `no_mount`, `no_shutdown_flag` and `uncopied` are the run-time panics of an index out of range, of a
-- nil pointer and of deepcopy, on which the deferred calls run too.
pub data CreateError : Type 0 where
  creating_lease creating_snapshot creating_log_file creating_machine : Fault → CreateError
  ensuring_image : ImageError → CreateError
  github starting_machine : Fault → CreateError
  no_mount no_shutdown_flag uncopied : CreateError
