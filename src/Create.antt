-- ===== src/Create.antt =====
-- server/pool.go: createMachine up to the launch of its cleanup goroutine, with createSnapshot. What the
-- image manager, containerd, the file system, Firecracker and GitHub answer are the fields of a `Host`,
-- over a world that their calls may change; the calls that open or close something are recorded. The
-- constants of firecracker.Config, the timeouts and the logging are left out.
pub mod Idle
pub mod Stored
pub mod Made
pub mod Lease
pub mod Needs
pub mod Event
pub mod Leak
pub mod Cids
pub mod Paths
pub mod Cleanup
pub mod Lifecycle
pub mod Tests
use fireactions.Prelude.{
  Text, codes, ℤ, ℕ, zero, suc, ◌+◌, ◌≡◌, Bool, true, false, List, [], ◌∷◌, ◌++◌, Option, none,
  some, Result, ok, err, Fault, is_not_found, map_err, Act, ◌>>=◌, ◌>>◌, pure, fail, attempt,
  wrapping, then_act, rewrap, inc32, insert, if◌then◌else◌, ◌==◌,
}
use fireactions.Deepcopy.{Table, copy_map}
use fireactions.Image.{Containerd, ImageError, ImageInfo, Outside, ensure_image}
use fireactions.Pool.{Pool, Machine}
use fireactions.Pool.Spec.{
  log_file, vsock_socket, machine_file, MachineSpec, machine_spec, JitRequest, jit_request,
}
use fireactions.Pool.Events.{store_machine}
pub use fireactions.Host.{
  JitConfig, Metadata, Host, HostCall, Making, CreateError, opens_lease, cancels_lease, opens_log,
  closes_log, cancels_vmm, registers_runner, starts_vm, removes_runner, builds_machine,
  finds_installation, creating_lease, creating_snapshot, creating_log_file, creating_machine,
  ensuring_image, github, starting_machine, no_mount, no_shutdown_flag, uncopied,
}

-- New: the counter's first value, since CID 2 is the host's.
abbrev pub first_cid : ℕ
first_cid = 2

abbrev pub lease_id : Text → Text → Text
lease_id pool name = codes "fireactions/pools/" ++ (pool ++ (codes "/" ++ name))

abbrev pub runner_name : Text → Text → Text
runner_name prefix id = prefix ++ (codes "-" ++ id)

module _ {W : Type 0} (host : Host W) where
  -- A call that is recorded if it succeeds, and one that is not recorded.
  abbrev opening : {A : Type 0} → HostCall → (W → Result Fault A × W) → Act (Making W) Fault A
  opening k f s =
      let (r, w) = f s.world in
      elim r [
        | ok a ↦ (ok a, record s { world = w; calls = k ∷ s.calls })
        | err e ↦ (err e, record s { world = w })
      ]

  abbrev asking : {A : Type 0} → (W → Result Fault A × W) → Act (Making W) Fault A
  asking f s = let (r, w) = f s.world in (r, record s { world = w })

  abbrev pub noting : HostCall → Act (Making W) CreateError (Unit {0})
  noting k s = (ok tt, record s { calls = k ∷ s.calls })

  abbrev get : Act (Making W) CreateError (Making W)
  get s = (ok s, s)

  -- The image manager's ensureImage, on the same world.
  pub ensure : Act (Making W) CreateError ImageInfo
  unfolding ensure_image
  ensure s =
      let runner = s.pool.config.runner in
      let (r, o) =
        ensure_image host.containerd runner.image runner.image_pull_policy
          (record { world = s.world; calls = [] }) in
      (map_err ensuring_image r, record s { world = o.world })

  -- createSnapshot: a snapshot that is there already is used as it is.
  prepare_snapshot : Text → Act (Making W) Fault (Unit {0})
  prepare_snapshot id = do parent ← asking host.root_fs; asking (host.prepare id parent)

  pub create_snapshot : Text → Act (Making W) Fault (List Text)
  unfolding prepare_snapshot
  create_snapshot id = do
    found ← attempt (asking (host.stat_snapshot id))
    elim found [ ok u ↦ pure tt | err e ↦ if is_not_found e then prepare_snapshot id else fail e ]
    asking (host.mounts id)

  -- `p.nextCID.Add(1)`, of the counter that the server's pools share.
  unfoldable pub take_cid : Act (Making W) CreateError ℕ
  take_cid s = (ok (inc32 s.next_cid), record s { next_cid = inc32 s.next_cid })

  open_log : Text → Act (Making W) Fault (Unit {0})
  unfolding machine_file
  open_log name s = opening (opens_log name) (host.create_log (machine_file s.pool name log_file)) s

  build_machine : Text → Text → ℕ → Act (Making W) Fault (Unit {0})
  unfolding machine_spec
  build_machine name source cid s =
      opening (builds_machine cid) (host.new_machine (machine_spec s.pool name source cid)) s

  pub register_runner : ℕ → Text → Act (Making W) Fault JitConfig
  register_runner installation name s =
      let (r, w) = host.generate_jit installation (jit_request s.pool name) s.world in
      elim r [
        | ok jit ↦ (ok jit, record s { world = w; calls = registers_runner name jit ∷ s.calls })
        | err e ↦ (err e, record s { world = w })
      ]

  first_mount : List Text → Act (Making W) CreateError Text
  first_mount [] = fail no_mount
  first_mount (m ∷ ms) = pure m

  -- The installation's id is looked up once, and kept in the pool.
  pub find_installation_id : Act (Making W) CreateError ℕ
  find_installation_id s =
      if s.pool.installation_id == 0
      then (do
        id ←
            wrapping github (
              opening finds_installation (host.find_installation s.pool.config.runner.organization))
        λ t. (ok id, record t { pool = record (t.pool) { installation_id = id } }))
          s
      else (ok s.pool.installation_id, s)

  shutdown_flag : Option Bool → Act (Making W) CreateError Bool
  shutdown_flag none = fail no_shutdown_flag
  shutdown_flag (some b) = pure b

  copied_metadata : Option Table → Act (Making W) CreateError Table
  copied_metadata none = fail uncopied
  copied_metadata (some m) = pure m

  -- Start under a context that is cancelled if it fails.
  pub start_machine : Text → Metadata → Act (Making W) CreateError (List Text)
  start_machine name metadata = do
    started ← attempt (opening (starts_vm name metadata) (host.start name metadata))
    elim started [
      | ok addresses ↦ pure addresses
      | err e ↦ do noting (cancels_vmm name); fail (starting_machine e)
    ]

  -- From `machineCreated = true` on.
  finish : Text → ℕ → JitConfig → List Text → Act (Making W) CreateError (Unit {0})
  unfolding store_machine machine_file
  finish name cid jit addresses s =
      let machine : Machine = record {
        vmid = name;
        name = jit.runner_name;
        runner_id = jit.runner_id;
        pool = s.pool.config.name;
        created_at = host.now s.world;
        vsock_cid = cid;
        vsock_path = machine_file s.pool name vsock_socket;
        lease_cancel = s.lease_cancel;
        interfaces = addresses;
      } in
      (ok tt, record s { pool = store_machine name machine s.pool; machine_created = true })

  -- From the runner's configuration on: the metadata, the start, and the map.
  launch : Text → ℕ → JitConfig → Act (Making W) CreateError (Unit {0})
  unfolding copied_metadata copy_map shutdown_flag start_machine finish
  launch name cid jit = do
    s ← get
    user ← copied_metadata (copy_map s.pool.config.firecracker.metadata)
    flag ← shutdown_flag s.pool.config.shutdown_on_exit
    addresses ← start_machine name (record {
      runner_id = name;
      runner_jit_config = jit.encoded;
      hostname = name;
      shutdown_on_exit = flag;
      user = user;
    })
    finish name cid jit addresses

  -- From NewMachine on, while the log file is open.
  boot : Text → List Text → Act (Making W) CreateError (Unit {0})
  unfolding take_cid first_mount build_machine find_installation_id register_runner launch
  boot name mounts = do
    cid ← take_cid
    root ← first_mount mounts
    wrapping creating_machine (build_machine name root cid)
    installation ← find_installation_id
    jit ← wrapping github (register_runner installation name)
    launch name cid jit

  -- `defer machineLogFile.Close()`
  closing_log : Text → Act (Making W) CreateError (Unit {0}) → Act (Making W) CreateError (Unit {0})
  closing_log name m s = let (r, t) = m s in (r, record t { calls = closes_log name ∷ t.calls })

  -- WithLease, and the function to cancel that lease.
  take_lease : Text → Act (Making W) Fault (Unit {0})
  take_lease id = do
    opening (opens_lease id) (host.with_lease id)
    λ t. (ok tt, record t { lease_cancel = id })

  -- The deferred function, which cancels the lease unless the machine has been created.
  releasing_lease : Act (Making W) CreateError (Unit {0}) → Act (Making W) CreateError (Unit {0})
  releasing_lease m s =
      let (r, t) = m s in
      if t.machine_created then (r, t) else (
        r,
        record t {
          world = (host.cancel_lease t.lease_cancel t.world).1;
          calls = cancels_lease t.lease_cancel ∷ t.calls;
        },
      )

  pub with_snapshot : Text → Act (Making W) CreateError (Unit {0})
  unfolding create_snapshot open_log boot closing_log
  with_snapshot name = do
    mounts ← wrapping creating_snapshot (create_snapshot name)
    wrapping creating_log_file (open_log name)
    closing_log name (boot name mounts)

  -- `id` is what stringid.New answers.
  unfoldable pub create_machine : Text → Act (Making W) CreateError (Unit {0})
  unfolding ensure with_snapshot take_lease releasing_lease
  create_machine id = do
    image ← ensure
    s ← get
    let name = runner_name s.pool.config.runner.name id
    let lease = lease_id s.pool.config.name name
    wrapping creating_lease (take_lease lease)
    releasing_lease (λ t. with_snapshot name (record t { machine_created = false }))
