-- ===== src/Startup/Shutdown.antt =====
-- server/server.go: what New and Run start against what Run's shutdown stops.
use mathlib.Core.List.{Permᴰ}
use fireactions.Prelude.{
  Text, ◌≡◌, refl, sym, ap, subst, ◌∙◌, List, [], ◌∷◌, ◌++◌, map, Option, none, some, ok, Fault,
  keys, if◌then◌else◌, inl, inr, Option-cases, Bool-cases, lookup, arith,
}
use fireactions.Config.{Config, MetricsConfig}
use fireactions.Startup.{
  Libraries, Machinery, Service, Act, listens, serves_grpc, serves_metrics, runs_pool, stops_pool,
  shuts_metrics_down, stops_grpc, Done, setup_metrics, new_server, start_pools, start_servers,
  start, shut_down, then_servers, preceded, metrics_down,
}
use fireactions.Startup.Pools.{names, Apart, Unused, started}

-- The servers that are started, and stopped, for a configuration of the metrics.
abbrev pub servers_up : MetricsConfig → List Act
servers_up m = serves_grpc ∷ (if m.enabled then listens m.address ∷ serves_metrics ∷ [] else [])

abbrev pub servers_down : MetricsConfig → List Act
servers_down m = (if m.enabled then shuts_metrics_down ∷ [] else []) ++ stops_grpc ∷ []

-- What New makes.
record Made (c : Config) (s : Service) (m : MetricsConfig) : Type 0 where
  config : s.config ≡ c
  pools : s.pools ≡ []
  metrics : c.metrics ≡ some m
  address : s.metrics_address ≡ (if m.enabled then some m.address else none)

new_server-Made :
    (l : Libraries) (c : Config) (s : Service)
    → new_server l c ≡ ok s
    → (m : MetricsConfig) × Made c s m
unfolding new_server setup_metrics
new_server-Made l c s h = elim (Option-cases c.metrics) [
  | inl e ↦ absurd (ground arith)
  | inr (m, e) ↦ (
    m,
    record { config = ground arith; pools = ground arith; metrics = e; address = ground arith },
  )
]

servers_started :
    (listen : Text → Option Fault) (s : Service) (m : MetricsConfig)
    → s.metrics_address ≡ (if m.enabled then some m.address else none)
    → (start_servers listen s).error ≡ none
    → ((start_servers listen s).acts ≡ servers_up m) × ((start_servers listen s).service ≡ s)
unfolding start_servers
servers_started listen s m a e = elim (Bool-cases m.enabled) [
  | inr off ↦ ground arith
  | inl on ↦ elim (Option-cases (listen m.address)) [
    | inl q ↦ ground arith
    | inr (x, q) ↦ ground arith
  ]
]

listening :
    (mc : Machinery) (s : Service)
    → (start mc s).error ≡ none
    → (start mc s
        ≡ preceded
            (listens s.config.bind_address ∷ [])
            (then_servers mc.listen (start_pools mc.has_directory s.config.pools s)))
unfolding start
listening mc s e = elim (Option-cases (mc.listen s.config.bind_address)) [
  | inl q ↦ rw (q, start) refl
  | inr (x, q) ↦ absurd (ground arith)
]

pools_first :
    (listen : Text → Option Fault) (d : Done)
    → (then_servers listen d).error ≡ none
    → (d.error ≡ none) × (then_servers listen d ≡ preceded d.acts (start_servers listen d.service))
pools_first listen d e = elim (Option-cases d.error) [
  | inl q ↦ (q, rw q refl)
  | inr (x, q) ↦ absurd (ground arith)
]

Unused-nothing : (xs : List Text) → Unused [] xs
unfolding lookup
Unused-nothing [] = tt
Unused-nothing (x ∷ xs) = (refl, Unused-nothing xs)

-- For a server that New has made from a configuration whose pools have different names, and which Run
-- starts without an error: it listens, runs each configured pool once, in their order, and starts the
-- gRPC server, and the metrics server where it is enabled; and on a signal it stops each of those pools
-- once, in whatever order Go ranges over the map, and then the metrics server where it was started, and the gRPC server.
pub start-shut_down :
    (l : Libraries) (mc : Machinery) (c : Config) (s : Service)
    → new_server l c ≡ ok s
    → (start mc s).error ≡ none
    → Apart (names c.pools)
    → (order : List Text) → Permᴰ order (keys (start mc s).service.pools)
    → (m : MetricsConfig) × (c.metrics ≡ some m)
      × ((start mc s).acts
          ≡ listens c.bind_address ∷ (map runs_pool (names c.pools) ++ servers_up m))
      × (shut_down order (start mc s).service ≡ map stops_pool order ++ servers_down m)
      × Permᴰ order (names c.pools)
unfolding shut_down
start-shut_down l mc c s new e apart order any =
    let (m, made) = new_server-Made l c s new in
    let listened = listening mc s e in
    let d = start_pools mc.has_directory s.config.pools s in
    let (none_failed, both) = pools_first mc.listen d (ap Done.error (sym listened) ∙ e) in
    let apart' = subst (λ (k : Config). Apart (names k.pools)) (sym made.config) apart in
    let unused =
      subst (λ ps. Unused ps (names s.config.pools)) (sym made.pools) (Unused-nothing _) in
    let ran = started mc.has_directory s.config.pools s none_failed apart' unused in
    let whole = listened ∙ ap (preceded (listens s.config.bind_address ∷ [])) both in
    let served =
      servers_started mc.listen d.service m (ran.3 ∙ made.address)
        (ap Done.error (sym whole) ∙ e) in
    let bind = s.config.bind_address in
    let kept : keys d.service.pools ≡ names c.pools =
      ran.1
      ∙ ap (λ ps. keys ps ++ names s.config.pools) made.pools
      ∙ ap (λ (k : Config). names k.pools) made.config in
    let metrics : d.service.config.metrics ≡ some m =
      ap Config.metrics (ran.2 ∙ made.config) ∙ made.metrics in
    (
      m,
      made.metrics,
      ap Done.acts whole
          ∙ ap (λ x. listens bind ∷ (x ++ (start_servers mc.listen d.service).acts)) ran.0
          ∙ ap (λ x. listens bind ∷ (map runs_pool (names s.config.pools) ++ x)) served.0
          ∙ ap
              (λ (k : Config).
                listens k.bind_address ∷ (map runs_pool (names k.pools) ++ servers_up m))
              made.config,
      ap (shut_down order) (ap Done.service whole ∙ served.1)
          ∙ ap (λ o. map stops_pool order ++ (metrics_down o ++ stops_grpc ∷ [])) metrics,
      subst (Permᴰ order)
          (ap (λ (x : Done). keys x.service.pools) whole
            ∙ ap (λ (x : Service). keys x.pools) served.1
            ∙ kept)
          any,
    )
