-- ===== src/Pool/Spec.antt =====
-- server/pool.go: what createMachine asks of Firecracker and of GitHub for a machine of a given name.
use fireactions.Prelude.{Text, codes, ℤ, ℕ, List, ◌++◌}
use fireactions.Prelude.Paths.{join}
use fireactions.Pool.{Pool, get_dir}

-- The files of a machine in the directory of its pool.
pub data FileKind : Type 0 where
  log_file socket vsock_socket firecracker_log : FileKind

abbrev pub extension : FileKind → Text
extension log_file = codes ".log"
extension socket = codes ".sock"
extension vsock_socket = codes ".vsock"
extension firecracker_log = codes ".firecracker.log"

unfoldable pub machine_file : Pool → Text → FileKind → Text
unfolding join get_dir
machine_file p name kind = join (get_dir p) (name ++ extension kind)

-- firecracker.Config, less its constants, and the command that WithProcessRunner gives the machine.
pub record MachineSpec : Type 0 where
  pub vmid : Text
  pub socket_path : Text
  pub kernel_image_path : Text
  pub kernel_args : Text
  pub vcpu_count : ℤ
  pub mem_size_mib : ℤ
  pub path_on_host : Text
  pub vsock_path : Text
  pub vsock_cid : ℕ
  pub log_path : Text
  pub command_bin : Text
  pub command_socket_path : Text

unfoldable pub machine_spec : Pool → Text → Text → ℕ → MachineSpec
unfolding machine_file
machine_spec p name source cid =
    let firecracker = p.config.firecracker in
    record {
      vmid = name;
      socket_path = machine_file p name socket;
      kernel_image_path = firecracker.kernel_image_path;
      kernel_args = firecracker.kernel_args;
      vcpu_count = firecracker.machine_config.vcpu_count;
      mem_size_mib = firecracker.machine_config.mem_size_mib;
      path_on_host = source;
      vsock_path = machine_file p name vsock_socket;
      vsock_cid = cid;
      log_path = machine_file p name firecracker_log;
      command_bin = firecracker.binary_path;
      command_socket_path = machine_file p name socket;
    }

-- GenerateJITConfigRequest, with the organization that it is for.
pub record JitRequest : Type 0 where
  pub organization : Text
  pub name : Text
  pub runner_group_id : ℤ
  pub labels : List Text

abbrev pub jit_request : Pool → Text → JitRequest
jit_request p name =
    let runner = p.config.runner in
    record {
      organization = runner.organization;
      name = name;
      runner_group_id = runner.group_id;
      labels = runner.labels;
    }
