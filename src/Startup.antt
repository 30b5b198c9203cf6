-- ===== src/Startup.antt =====
-- server/server.go: New and Run, from the configuration to the pools' loops and the servers, and back on a
-- signal. What the libraries and the network answer is a parameter. Left out: the options of the HTTP
-- server, metrics and logging, and that a pool's Run and Stop take time (Pool/Events and Pool/Stop).
pub mod Pools
pub mod Twice
pub mod Shutdown
pub mod Tests
use fireactions.Prelude.{
  Text, codes, ℕ, zero, suc, ◌+◌, ◌≡◌, Bool, true, false, List, [], ◌∷◌, ◌++◌, map, Option, none,
  some, Result, ok, err, Fault, insert, if◌then◌else◌,
}
use fireactions.Config.{Config, MetricsConfig, PoolConfig}
use fireactions.Create.{first_cid}
use fireactions.Pool.{Pool, PoolError, new_pool}

-- What New asks of other code. github.NewClient fails as ghinstallation.NewAppsTransport does.
pub record Libraries : Type 0 where
  pub validate : Config → Option Fault
  pub github_client : Option Fault
  pub containerd_client : Option Fault

-- `metrics_address` is the address of metricsServer: none is nil.
pub record Service : Type 0 where
  pub config : Config
  pub pools : List (Text × Pool)
  pub metrics_address : Option Text
  pub next_cid : ℕ

-- `nil_metrics` is the run-time panic of a nil pointer.
pub data NewError : Type 0 where
  invalid_config creating_github_client creating_containerd_client : Fault → NewError
  nil_metrics : NewError

-- `if config.Metrics.Enabled`, the last thing in New.
unfoldable pub setup_metrics : Service → Result NewError Service
setup_metrics s = elim s.config.metrics [
  | none ↦ err nil_metrics
  | some m ↦ if m.enabled then ok (record s { metrics_address = some m.address }) else ok s
]

unfoldable pub new_server : Libraries → Config → Result NewError Service
unfolding setup_metrics
new_server l config = elim (l.validate config) [
  | some e ↦ err (invalid_config e)
  | none ↦ elim l.github_client [
    | some e ↦ err (creating_github_client e)
    | none ↦ elim l.containerd_client [
      | some e ↦ err (creating_containerd_client e)
      | none ↦
          setup_metrics
            (record { config = config; pools = []; metrics_address = none; next_cid = first_cid })
    ]
  ]
]

-- What Run does to the world, in its order.
pub data Act : Type 0 where
  runs_pool stops_pool listens : Text → Act
  serves_grpc serves_metrics shuts_metrics_down stops_grpc : Act

pub data RunError : Type 0 where
  failed_to_start failed_to_start_metrics serving : Fault → RunError
  creating_pool : PoolError → RunError

-- The network, and whether a pool's directory is there or can be made.
pub record Machinery : Type 0 where
  pub listen : Text → Option Fault
  pub has_directory : PoolConfig → Bool

-- A part of Run: its error, if it returns there, what it has done, and the server after it.
pub record Done : Type 0 where
  pub error : Option RunError
  pub acts : List Act
  pub service : Service

abbrev pub preceded : List Act → Done → Done
preceded acts d = record { error = d.error; acts = acts ++ d.acts; service = d.service }

-- The loop over the configured pools: NewPool, the map, and the goroutine of the pool's Run.
unfoldable pub start_pools : (PoolConfig → Bool) → List PoolConfig → Service → Done
start_pools has_directory [] s = record { error = none; acts = []; service = s }
start_pools has_directory (c ∷ cs) s = elim (new_pool c (has_directory c)) [
  | err e ↦ record { error = some (creating_pool e); acts = []; service = s }
  | ok p ↦
      preceded (runs_pool c.name ∷ [])
        (start_pools has_directory cs (record s { pools = insert c.name p s.pools }))
]

-- The two servers. An error of the second listener is returned while the first server is running.
unfoldable pub start_servers : (Text → Option Fault) → Service → Done
start_servers listen s = elim s.metrics_address [
  | none ↦ record { error = none; acts = serves_grpc ∷ []; service = s }
  | some address ↦ elim (listen address) [
    | some e ↦ record {
      error = some (failed_to_start_metrics e);
      acts = serves_grpc ∷ [];
      service = s;
    }
    | none ↦ record {
      error = none;
      acts = serves_grpc ∷ listens address ∷ serves_metrics ∷ [];
      service = s;
    }
  ]
]

abbrev pub then_servers : (Text → Option Fault) → Done → Done
then_servers listen d = elim d.error [
  | some e ↦ d
  | none ↦ preceded d.acts (start_servers listen d.service)
]

-- Run up to its wait for the servers.
unfoldable pub start : Machinery → Service → Done
start m s = elim (m.listen s.config.bind_address) [
  | some e ↦ record { error = some (failed_to_start e); acts = []; service = s }
  | none ↦
      preceded (listens s.config.bind_address ∷ [])
        (then_servers m.listen (start_pools m.has_directory s.config.pools s))
]

abbrev pub metrics_down : Option MetricsConfig → List Act
metrics_down none = []
metrics_down (some m) = if m.enabled then shuts_metrics_down ∷ [] else []

-- The goroutine that waits for the context: it stops every pool of the map, in the order in which Go
-- ranges over it this time, and then the servers. A configuration without metrics has panicked in New.
unfoldable pub shut_down : List Text → Service → List Act
shut_down order s = map stops_pool order ++ (metrics_down s.config.metrics ++ stops_grpc ∷ [])

-- What a server's Serve can return with.
pub data ServeEnd : Type 0 where
  served server_closed : ServeEnd
  serve_failed : Fault → ServeEnd

-- errgroup's Wait gives the first error of the two; http.ErrServerClosed is none.
unfoldable pub wait_result : List ServeEnd → Option RunError
wait_result [] = none
wait_result (served ∷ es) = wait_result es
wait_result (server_closed ∷ es) = none
wait_result (serve_failed e ∷ es) = some (serving e)
