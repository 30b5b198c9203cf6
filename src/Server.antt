-- ===== src/Server.antt =====
-- server/server.go, server/rpc.go and server/convert.go: the server's map of pools and the handlers of
-- its gRPC service. A handler that changes a pool returns the new server beside its answer. The
-- answers of a machine's agent are those of a `Guest`; metrics and logging are left out, and so are the
-- texts of messages. New and Run are in Startup.
pub mod Lists
pub mod Pools
pub mod Machines
pub mod Logs
pub mod Images
pub mod Gather
pub mod Proxy
pub mod Tests
use fireactions.Prelude.{
  Text, codes, ℕ, zero, suc, ◌+◌, ◌≡◌, Bool, true, false, not, List, [], ◌∷◌, ◌++◌, map, Option,
  none, some, Result, ok, err, map_err, Fault, ℤ, pos, length, lookup, insert, text_eq, text_ltb,
  wrap32, signed32, if◌then◌else◌,
}
use fireactions.Prelude.Sort.{sort}
use fireactions.Image.{ImageError}
use fireactions.Pool
use fireactions.Pool.{
  Pool, Machine, PoolError, get_replicas, get_current_size, set_replicas, pause, resume, get_addr,
  values,
}

-- The part of Server that the handlers use. `pools` is keyed by the pools' names.
pub record Server : Type 0 where
  pub pools : List (Text × Pool)
  pub version : Text
  pub commit : Text
  pub date : Text

pub data Code : Type 0 where
  not_found internal : Code

pub data Cause : Type 0 where
  no_pool no_machine : Text → Cause
  connect_to_agent agent_get_logs receive_from_agent listing_images : Fault → Cause
  removing_image : ImageError → Cause

-- status.Errorf(code, …)
pub record Status : Type 0 where
  pub code : Code
  pub cause : Cause

pub data PoolState : Type 0 where
  active paused : PoolState

-- The messages of proto/server/v1. An int32 is the integer that it stands for.
pub record PoolProto : Type 0 where
  pub name : Text
  pub organization : Text
  pub replicas : ℤ
  pub current_replicas : ℤ
  pub desired_replicas : ℤ
  pub group_id : ℤ
  pub labels : List Text
  pub image : Text
  pub state : PoolState

pub record MachineProto : Type 0 where
  pub id : Text
  pub pool : Text
  pub addr : Text
  pub created_at : ℕ
  pub runner_state : Text
  pub runner_version : Text

-- What the agent inside a machine answers.
pub record Guest : Type 0 where
  pub connect : Machine → Result Fault (Unit {0})
  pub get_runner_state : Machine → Result Fault Text
  pub get_runner_version : Machine → Result Fault Text

unfoldable pub find_pool : Text → Server → Result Cause Pool
unfolding lookup
find_pool id s = elim (lookup id s.pools) [ none ↦ err (no_pool id) | some p ↦ ok p ]

-- The loop over the pools, in the order in which the map yields them.
unfoldable pub find_in : Text → List (Text × Pool) → Result Cause Machine
unfolding Pool.get_machine
find_in id [] = err (no_machine id)
find_in id ((name, pool) ∷ rest) =
    let later = find_in id rest in elim (Pool.get_machine id pool) [ ok m ↦ ok m | err e ↦ later ]

unfoldable pub find_machine : Text → Server → Result Cause Machine
unfolding find_in
find_machine id s = find_in id s.pools

-- The conversions to int32 of a count and of an int32.
unfoldable pub convert_pool_to_proto : Pool → PoolProto
unfolding get_replicas get_current_size signed32
convert_pool_to_proto pool = record {
  name = pool.config.name;
  organization = pool.config.runner.organization;
  replicas = get_replicas pool;
  current_replicas = signed32 (wrap32 (get_current_size pool));
  desired_replicas = get_replicas pool;
  group_id = pool.config.runner.group_id;
  labels = pool.config.runner.labels;
  image = pool.config.runner.image;
  state = if not pool.is_active then paused else active;
}

abbrev unknown : Text
unknown = codes "Unknown"

abbrev or_unknown : Result Fault Text → Text
or_unknown (ok t) = t
or_unknown (err e) = unknown

abbrev machine_proto : Machine → Text → Text → MachineProto
machine_proto m state version = record {
  id = m.name;
  pool = m.pool;
  addr = get_addr m;
  created_at = m.created_at;
  runner_state = state;
  runner_version = version;
}

unfoldable pub convert_machine_to_proto : Guest → Machine → MachineProto
unfolding get_addr
convert_machine_to_proto guest m = elim (guest.connect m) [
  | err e ↦ machine_proto m unknown unknown
  | ok u ↦
      machine_proto m (or_unknown (guest.get_runner_state m))
        (or_unknown (guest.get_runner_version m))
]

abbrev pub not_found_status : Cause → Status
not_found_status e = record { code = not_found; cause = e }

unfoldable pub get_pool : Text → Server → Result Status PoolProto
unfolding find_pool convert_pool_to_proto
get_pool name s = elim (find_pool name s) [
  | err e ↦ err (not_found_status e)
  | ok pool ↦ ok (convert_pool_to_proto pool)
]

unfoldable pub pool_less : Pool → Pool → Bool
unfolding text_ltb
pool_less a b = text_ltb a.config.name b.config.name

unfoldable pub list_pools : Server → List PoolProto
unfolding sort pool_less convert_pool_to_proto
list_pools s = map convert_pool_to_proto (sort pool_less (values s.pools))

-- The pools are shared by pointer: what a handler does to one is seen in the map.
abbrev with_pool : Text → Server → (Pool → Pool) → Result Status (Unit {0}) × Server
with_pool name s f = elim (find_pool name s) [
  | err e ↦ (err (not_found_status e), s)
  | ok pool ↦ (ok tt, record s { pools = insert name (f pool) s.pools })
]

unfoldable pub scale_pool : Text → ℤ → Server → Result Status (Unit {0}) × Server
unfolding find_pool set_replicas insert
scale_pool name replicas s = with_pool name s (set_replicas replicas)

unfoldable pub pause_pool : Text → Server → Result Status (Unit {0}) × Server
unfolding find_pool pause insert
pause_pool name s = with_pool name s pause

unfoldable pub resume_pool : Text → Server → Result Status (Unit {0}) × Server
unfolding find_pool resume insert
resume_pool name s = with_pool name s resume

-- The machines of every pool, pool by pool.
unfoldable pub all_machines : List (Text × Pool) → List Machine
unfolding Pool.list_machines
all_machines [] = []
all_machines ((name, pool) ∷ rest) = Pool.list_machines pool ++ all_machines rest

-- By pool, and by name within a pool.
unfoldable pub machine_less : Machine → Machine → Bool
unfolding text_eq text_ltb
machine_less a b =
    if not (text_eq a.pool b.pool) then text_ltb a.pool b.pool else text_ltb a.name b.name

unfoldable pub select_machines : Text → Server → Result Status (List Machine)
unfolding text_eq all_machines find_pool Pool.list_machines
select_machines name s =
    if text_eq name [] then ok (all_machines s.pools) else elim (find_pool name s) [
      | err e ↦ err (not_found_status e)
      | ok pool ↦ ok (Pool.list_machines pool)
    ]

unfoldable pub get_machine : Guest → Text → Server → Result Status MachineProto
unfolding find_machine convert_machine_to_proto
get_machine guest id s = elim (find_machine id s) [
  | err e ↦ err (not_found_status e)
  | ok m ↦ ok (convert_machine_to_proto guest m)
]

unfoldable pub get_health : Server → Text
get_health s = codes "OK"

unfoldable pub get_version : Server → Text × Text × Text
get_version s = (s.version, s.commit, s.date)
