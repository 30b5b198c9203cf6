-- ===== src/Pool.antt =====
-- server/pool.go: the state of a pool, and each thing that can happen to it as a function. The
-- goroutines that scaleUp and scaleDown launch are counted by where they stand, so that any
-- interleaving of them with the Run loop and the API calls is a list of events (Pool/Events.antt).
--
-- Counters of type atomic.Int32 are bit patterns below 2 ^ 32; `int` is unbounded, which it may be
-- since the program only adds and subtracts int32 values and the size of a map in it.
-- Log lines are left out, and the Prometheus series are in Metrics.antt.
pub mod Spec
pub mod Events
pub mod Loop
pub mod Counters
pub mod Target
pub mod Settle
pub mod Converge
pub mod Overshoot
pub mod Shutdown
pub mod Stop
pub mod Drain
pub mod StopTests
pub mod Watched
pub mod Tests
use fireactions.Prelude.{
  Text, codes, ◌++◌, ℕ, zero, suc, ◌+◌, ◌-◌, ◌≡◌, Bool, true, false, List, [], ◌∷◌, Option, none,
  some, Result, ok, err, ℤ, pos, negsuc, ◌+ℤ◌, ◌-ℤ◌, signed32, to_int32, inc32, dec32, length,
  lookup, if◌then◌else◌, ltb, keys, min,
}
use fireactions.Config.{PoolConfig}

-- machine.go. `vmid` is Cfg.VMID, the runner's name that the map is keyed by, and `interfaces` the
-- addresses of Cfg.NetworkInterfaces; `lease_cancel` is the lease that
-- the function of that name cancels, and the contexts have no field.
pub record Machine : Type 0 where
  pub vmid : Text
  pub name : Text
  pub runner_id : ℕ
  pub pool : Text
  pub created_at : ℕ
  pub vsock_cid : ℕ
  pub vsock_path : Text
  pub lease_cancel : Text
  pub interfaces : List Text

-- GetAddr: the address of the first network interface, or the empty string.
unfoldable pub get_addr : Machine → Text
get_addr m = elim m.interfaces [ [] ↦ [] | a ∷ rest ↦ a ]

-- The fields after `exited` are no fields of the Go struct: they say where its goroutines stand.
-- A goroutine of scaleUp is spawned, creating (past its look at ctx) or returning (its machine is in
-- the map, and pendingCreates has still to be decremented). One of scaleDown is spawned, deleting,
-- or stopping the machine that it took out of the map. `cleanups` has an entry for each cleanup
-- goroutine that waits for its machine, and `closing` for each that has taken it out of the map.
pub record Pool : Type 0 where
  pub config : PoolConfig
  pub pending_creates : ℕ
  pub pending_deletes : ℕ
  pub machines : List (Text × Machine)
  pub installation_id : ℕ
  pub replicas : ℕ
  pub is_active : Bool
  pub scale_trigger : Bool
  pub stop_ch : Bool
  pub cancelled : Bool
  pub exited : Bool
  pub creators_spawned : ℕ
  pub creators_creating : ℕ
  pub creators_returning : ℕ
  pub deleters_spawned : ℕ
  pub deleters_deleting : ℕ
  pub stopping : List Text
  pub cleanups : List Text
  pub closing : List Text

pub data PoolError : Type 0 where
  creating_directory context_canceled : PoolError
  machine_not_found : Text → PoolError

-- NewPool. Whether the pool's directory is there or can be made is the file system's answer.
unfoldable pub new_pool : PoolConfig → Bool → Result PoolError Pool
unfolding to_int32
new_pool config has_directory =
    if has_directory
    then ok (record {
      config = config;
      pending_creates = 0;
      pending_deletes = 0;
      machines = [];
      installation_id = 0;
      replicas = to_int32 config.replicas;
      is_active = true;
      scale_trigger = false;
      stop_ch = false;
      cancelled = false;
      exited = false;
      creators_spawned = 0;
      creators_creating = 0;
      creators_returning = 0;
      deleters_spawned = 0;
      deleters_deleting = 0;
      stopping = [];
      cleanups = [];
      closing = [];
    })
    else err creating_directory

-- GetDir: where the pool's sockets and logs are.
unfoldable pub get_dir : Pool → Text
get_dir p = codes "/var/lib/fireactions/pools/" ++ p.config.name

unfoldable pub get_replicas : Pool → ℤ
unfolding signed32
get_replicas p = signed32 p.replicas

unfoldable pub get_current_size : Pool → ℕ
get_current_size p = length p.machines

abbrev pub values : {A : Type 0} → List (Text × A) → List A
values [] = []
values ((k, v) ∷ m) = v ∷ values m

-- ListMachines, in the order of the association list: Go's order of a map is any.
unfoldable pub list_machines : Pool → List Machine
list_machines p = values p.machines

unfoldable pub get_machine : Text → Pool → Result PoolError Machine
unfolding lookup
get_machine name p = elim (lookup name p.machines) [
  | none ↦ err (machine_not_found name)
  | some m ↦ ok m
]

-- A send on a channel of capacity 1 that gives up where the channel is full.
unfoldable pub trigger_scale : Pool → Pool
trigger_scale p = record p { scale_trigger = true }

unfoldable pub set_replicas : ℤ → Pool → Pool
unfolding trigger_scale to_int32
set_replicas replicas p = trigger_scale (record p { replicas = to_int32 replicas })

unfoldable pub pause : Pool → Pool
pause p = if p.is_active then record p { is_active = false } else p

unfoldable pub resume : Pool → Pool
resume p = if p.is_active then p else record p { is_active = true }

-- One round of scaleUp's loop: the counter first, then the goroutine.
unfoldable pub spawn_creator : Pool → Pool
spawn_creator p = record p {
  pending_creates = inc32 p.pending_creates;
  creators_spawned = p.creators_spawned + 1;
}

unfoldable pub scale_up : ℕ → Pool → Pool
unfolding spawn_creator
scale_up zero p = p
scale_up (suc n) p = scale_up n (spawn_creator p)

unfoldable pub spawn_deleter : Pool → Pool
spawn_deleter p = record p {
  pending_deletes = inc32 p.pending_deletes;
  deleters_spawned = p.deleters_spawned + 1;
}

unfoldable pub spawn_deleters : ℕ → Pool → Pool
unfolding spawn_deleter
spawn_deleters zero p = p
spawn_deleters (suc n) p = spawn_deleters n (spawn_deleter p)

-- `if count > curSize { count = curSize }`, then the loop.
unfoldable pub scale_down : ℕ → ℕ → Pool → Pool
unfolding spawn_deleters
scale_down count cur_size p = spawn_deleters (if ltb cur_size count then cur_size else count) p

-- curSize + pendingCreates - pendingDeletes
unfoldable pub effective_size : Pool → ℤ
unfolding get_current_size signed32 ◌+ℤ◌ ◌-ℤ◌
effective_size p =
    pos (get_current_size p) +ℤ signed32 p.pending_creates -ℤ signed32 p.pending_deletes

-- The branches of Scale on the sign of delta.
unfoldable pub scale_by : ℤ → Pool → Pool
unfolding scale_up scale_down get_current_size
scale_by (pos zero) p = p
scale_by (pos (suc n)) p = scale_up (suc n) p
scale_by (negsuc n) p = scale_down (suc n) (get_current_size p) p

-- All its reads and launches at one moment, as they are where nothing falls between them; Pool/Loop has
-- them apart.
unfoldable pub scale : ℤ → Pool → Result PoolError Pool
unfolding scale_by effective_size ◌-ℤ◌
scale desired p =
    if p.cancelled then err context_canceled else ok (scale_by (desired -ℤ effective_size p) p)
