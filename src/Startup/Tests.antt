-- ===== src/Startup/Tests.antt =====
-- A server with two pools, and one with two pools of one name.
use mathlib.Core.List.{Permᴰ}
use fireactions.Prelude.{
  keys, insert, Text, codes, ◌≡◌, refl, true, List, [], ◌∷◌, ◌++◌, map, none, some, ok, err,
  not_found, text_eq,
}
use fireactions.Config.{
  Config, MetricsConfig, PoolConfig, Loader, new_config, default_config, invalid,
}
use fireactions.Pool.{new_pool}
use fireactions.Pool.Tests.{config}
use fireactions.Startup.{
  Libraries, Machinery, Service, nil_metrics, listens, runs_pool, stops_pool, new_server, start,
  start_pools, start_servers, shut_down, wait_result, served, server_closed,
}
use fireactions.Startup.Pools.{names, Apart}
use fireactions.Startup.Shutdown.{servers_up, servers_down, start-shut_down}

abbrev named : Text → PoolConfig
named n = record config { name = n }

abbrev two_pools : Config
two_pools = record default_config { pools = named (codes "a") ∷ named (codes "b") ∷ [] }

abbrev libraries : Libraries
libraries = record { validate = λ c. none; github_client = none; containerd_client = none }

abbrev machinery : Machinery
machinery = record { listen = λ a. none; has_directory = λ c. true }

abbrev service : Service
service = record {
  config = two_pools;
  pools = [];
  metrics_address = some (codes ":8081");
  next_cid = 2;
}

made : new_server libraries two_pools ≡ ok service
unfolding new_server
made = refl

starts : (start machinery service).error ≡ none
unfolding start start_pools new_pool start_servers
starts = refl

apart : Apart (names two_pools.pools)
unfolding text_eq
apart = ((refl, tt), (tt, tt))

-- Go may range over the two pools in this order.
abbrev backwards : List Text
backwards = codes "b" ∷ codes "a" ∷ []

any_order : Permᴰ backwards (keys (start machinery service).service.pools)
unfolding start start_pools new_pool start_servers insert text_eq
any_order = Permᴰ.swap refl refl

start-shut_down_example :
    (m : MetricsConfig) × (two_pools.metrics ≡ some m)
    × ((start machinery service).acts
        ≡ listens (codes ":8080") ∷ (map runs_pool (names two_pools.pools) ++ servers_up m))
    × (shut_down backwards (start machinery service).service
        ≡ map stops_pool backwards ++ servers_down m)
    × Permᴰ backwards (names two_pools.pools)
start-shut_down_example =
    start-shut_down libraries machinery two_pools service made starts apart backwards any_order

abbrev same_name : List PoolConfig
same_name = named (codes "a") ∷ named (codes "a") ∷ []

runs_both : (start_pools (λ c. true) same_name service).error ≡ none
unfolding start_pools new_pool
runs_both = refl

-- A configuration file with an empty `metrics:` leaves a nil pointer.
panics : new_server libraries (record two_pools { metrics = none }) ≡ err nil_metrics
unfolding new_server
panics = refl

-- After a signal the one server returns nil, and the other http.ErrServerClosed.
ends_well :
    (wait_result (served ∷ server_closed ∷ []) ≡ none)
    × (wait_result (server_closed ∷ served ∷ []) ≡ none)
unfolding wait_result
ends_well = (refl, refl)

-- A file that is there and decoded, but does not pass the validation.
abbrev strict : Loader
strict = record {
  open_file = λ path. ok [];
  decode = λ text c. ok c;
  validate = λ c. some not_found;
}

refused : new_config strict (codes "config.yaml") ≡ err (invalid not_found)
unfolding new_config
refused = refl
