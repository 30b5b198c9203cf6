-- ===== src/Create/Stored.antt =====
-- server/pool.go: what createMachine has done when its machine is in the map.
use fireactions.Prelude.{
  Text, ◌≡◌, ◌≢◌, ℕ, subst, ap, Bool, true, ◌∷◌, Option, none, some, inc32, lookup,
}
use fireactions.Deepcopy.{Table, copy_map}
use fireactions.Config.{PoolConfig}
use fireactions.Pool.{Pool, Machine, get_dir}
use fireactions.Pool.Events.{store_machine}
use fireactions.Pool.Spec.{FileKind, vsock_socket, machine_file}
use fireactions.Create.{Making, JitConfig, Metadata}
use fireactions.Create.Idle.{opened, cancelled, held, last_start, last_registration}

-- A pool that differs in its installation's id alone has the same configuration.
pub same_config :
    (P : PoolConfig → Type 0) (q : Pool) {p : Pool} {i : ℕ}
    → p ≡ record q { installation_id = i }
    → P p.config
    → P q.config
same_config P q e h = subst (λ (r : Pool). P r.config) e h

-- The installation's id of such a pool may be set again.
pub at_id :
    (j : ℕ) (q : Pool) {p : Pool} {i : ℕ}
    → p ≡ record q { installation_id = i }
    → record p { installation_id = j } ≡ record q { installation_id = j }
at_id j q e = ap (λ (r : Pool). record r { installation_id = j }) e

-- Such a pool has the same directory.
pub same_file :
    (name : Text) (k : FileKind) (q : Pool) {p : Pool} {i : ℕ}
    → p ≡ record q { installation_id = i }
    → machine_file p name k ≡ machine_file q name k
unfolding machine_file get_dir
same_file name k q e = ap (λ (r : Pool). machine_file r name k) e

-- What a guest reads: its own name, the runner's configuration from GitHub, and the configured flag and
-- metadata.
pub record Carries (name : Text) (jit : JitConfig) (m : Metadata) (flag : Option Bool)
    (copy : Option Table) : Type 0 where
  pub runner : m.runner_id ≡ name
  pub host : m.hostname ≡ name
  pub jit_config : m.runner_jit_config ≡ jit.encoded
  pub flag_set : flag ≡ some m.shutdown_on_exit
  pub user : copy ≡ some m.user

module _ {W : Type 0} where
  -- The machine has been stored under its name with the CID that was taken, and a cleanup goroutine
  -- launched for it.
  pub record Made (name : Text) (s t : Making W) : Type 0 where
    pub machine : Machine
    pub stored : lookup name t.pool.machines ≡ some machine
    pub is_named : machine.vmid ≡ name
    pub in_pool : machine.pool ≡ s.pool.config.name
    pub numbered : machine.vsock_cid ≡ inc32 s.next_cid
    pub copied : copy_map s.pool.config.firecracker.metadata ≢ none
    pub flagged : s.pool.config.shutdown_on_exit ≢ none
    pub jit : JitConfig
    pub metadata : Metadata
    pub answer : last_registration t.calls ≡ some (name, jit)
    pub start : last_start t.calls ≡ some (name, metadata)
    pub carries :
        Carries name jit metadata s.pool.config.shutdown_on_exit
          (copy_map s.pool.config.firecracker.metadata)
    pub registered_as : (machine.runner_id ≡ jit.runner_id) × (machine.name ≡ jit.runner_name)
    pub dialled : machine.vsock_path ≡ machine_file s.pool name vsock_socket
    pub pool :
        t.pool
        ≡ store_machine name machine (record (s.pool) { installation_id = t.pool.installation_id })
    pub watched : t.pool.cleanups ≡ name ∷ s.pool.cleanups
    pub leased : machine.lease_cancel ≡ s.lease_cancel
    pub lease : t.lease_cancel ≡ s.lease_cancel
    pub holds : held t.calls ≡ held s.calls
    pub created : t.machine_created ≡ true
    pub opens : opened t.calls ≡ opened s.calls
    pub cancels : cancelled t.calls ≡ cancelled s.calls
