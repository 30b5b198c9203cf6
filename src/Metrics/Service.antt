-- ===== src/Metrics/Service.antt =====
-- server/metrics.go: the two series of the whole server, beside New and Run of server/server.go.
use fireactions.Prelude.{
  Fault, ℕ, suc, ◌+◌, ◌≡◌, refl, ◌≢◌, Bool, List, [], ◌∷◌, ◌++◌, none, some, ok, err, arith, inl,
  inr, insert, Text, Option, Option-cases, Result-cases,
}
use fireactions.Config.{PoolConfig}
use fireactions.Pool.{new_pool}
use fireactions.Startup.{
  Act, runs_pool, stops_pool, listens, serves_grpc, serves_metrics, shuts_metrics_down, stops_grpc,
  Machinery, Service, Done, start, start_pools, start_servers, then_servers,
}

-- Gauges without labels: they are there, and 0, from the start of the program.
pub record ServerSeries : Type 0 where
  pub up : ℕ
  pub pools_total : ℕ

-- What the loop of Run over the configured pools does to them: NewPool adds one where it returns a pool.
unfoldable pub count_pools : (PoolConfig → Bool) → List PoolConfig → ServerSeries → ServerSeries
count_pools has_directory [] g = g
count_pools has_directory (c ∷ cs) g = elim (new_pool c (has_directory c)) [
  | err e ↦ g
  | ok p ↦ count_pools has_directory cs (record g { pools_total = g.pools_total + 1 })
]

-- Run up to its wait for the servers, the last thing before which is metricUp.Set(1).
unfoldable pub start_metered : Machinery → Service → ServerSeries → ServerSeries
start_metered m s g = elim (m.listen s.config.bind_address) [
  | some e ↦ g
  | none ↦
      let counted = count_pools m.has_directory s.config.pools g in
      elim (start m s).error [ some e ↦ counted | none ↦ record counted { up = 1 } ]
]

-- The goroutines of pools among what Run has done.
abbrev pub pools_run : List Act → ℕ
pools_run [] = 0
pools_run (runs_pool n ∷ acts) = suc (pools_run acts)
pools_run (stops_pool n ∷ acts) = pools_run acts
pools_run (listens a ∷ acts) = pools_run acts
pools_run (serves_grpc ∷ acts) = pools_run acts
pools_run (serves_metrics ∷ acts) = pools_run acts
pools_run (shuts_metrics_down ∷ acts) = pools_run acts
pools_run (stops_grpc ∷ acts) = pools_run acts

pools_run-append : (xs ys : List Act) → pools_run (xs ++ ys) ≡ pools_run xs + pools_run ys
pools_run-append [] ys = omega arith
pools_run-append (runs_pool n ∷ acts) ys = omega (arith, pools_run-append acts ys)
pools_run-append (stops_pool n ∷ acts) ys = pools_run-append acts ys
pools_run-append (listens a ∷ acts) ys = pools_run-append acts ys
pools_run-append (serves_grpc ∷ acts) ys = pools_run-append acts ys
pools_run-append (serves_metrics ∷ acts) ys = pools_run-append acts ys
pools_run-append (shuts_metrics_down ∷ acts) ys = pools_run-append acts ys
pools_run-append (stops_grpc ∷ acts) ys = pools_run-append acts ys

count_pools_lem :
    (hd : PoolConfig → Bool) (cs : List PoolConfig) (s : Service) (g : ServerSeries)
    → ((count_pools hd cs g).pools_total ≡ g.pools_total + pools_run (start_pools hd cs s).acts)
      × ((count_pools hd cs g).up ≡ g.up)
unfolding count_pools start_pools
count_pools_lem hd [] s g = (omega arith, refl)
count_pools_lem hd (c ∷ cs) s g = elim (Result-cases (new_pool c (hd c))) [
  | inr (x, h) ↦ rw (h, count_pools, start_pools) (omega arith, refl)
  | inl (p, h) ↦
      let later =
        count_pools_lem hd cs (record s { pools = insert c.name p s.pools })
          (record g { pools_total = g.pools_total + 1 }) in
      rw (h, count_pools, start_pools) (omega (arith, later.0), later.1)
]

servers-pools_run :
    (listen : Text → Option Fault) (s : Service) → pools_run (start_servers listen s).acts ≡ 0
unfolding start_servers
servers-pools_run listen s = ground arith

then_servers-pools_run :
    (listen : Text → Option Fault) (d : Done)
    → pools_run (then_servers listen d).acts ≡ pools_run d.acts
then_servers-pools_run listen d = elim (Option-cases d.error) [
  | inr (e, h) ↦ rw h refl
  | inl h ↦ rw h (
      omega (
        arith,
        pools_run-append d.acts (start_servers listen d.service).acts,
        servers-pools_run listen d.service,
      ))
]

-- What the loop over the pools and the two servers have run.
ran_pools :
    (m : Machinery) (s : Service) (e : m.listen s.config.bind_address ≡ none)
    → pools_run (start m s).acts ≡ pools_run (start_pools m.has_directory s.config.pools s).acts
unfolding start
ran_pools m s e =
    rw (e, start) (then_servers-pools_run m.listen (start_pools m.has_directory s.config.pools s))

cannot_listen :
    (m : Machinery) (s : Service) (x : Fault)
    → m.listen s.config.bind_address ≡ some x
    → (pools_run (start m s).acts ≡ 0) × ((start m s).error ≢ none)
unfolding start
cannot_listen m s x h = (rw (h, start) refl, rw (h, start) (λ e. cc))

-- Whatever Run does, and wherever it returns: the gauge of pools goes up by one for each pool whose
-- goroutine was started, and up is 1 after it exactly where no error came before its wait.
start-start_metered :
    (m : Machinery) (s : Service) (g : ServerSeries)
    → ((start_metered m s g).pools_total ≡ g.pools_total + pools_run (start m s).acts)
      × ((start m s).error ≡ none → (start_metered m s g).up ≡ 1)
      × ((start m s).error ≢ none → (start_metered m s g).up ≡ g.up)
unfolding start_metered
start-start_metered m s g = elim (Option-cases (m.listen s.config.bind_address)) [
  | inr (x, h) ↦
      let c = cannot_listen m s x h in
      (
        rw (h, start_metered) (omega (arith, c.0)),
        (λ e. absurd (c.1 e)),
        λ e. rw (h, start_metered) refl,
      )
  | inl h ↦
      let c = count_pools_lem m.has_directory s.config.pools s g in
      elim (Option-cases (start m s).error) [
        | inl k ↦ (
          rw (h, k, start_metered) (omega (arith, c.0, ran_pools m s h)),
          (λ e. rw (h, k, start_metered) refl),
          λ e. absurd (e k),
        )
        | inr (y, k) ↦ (
          rw (h, k, start_metered) (omega (arith, c.0, ran_pools m s h)),
          (λ e. absurd cc),
          λ e. rw (h, k, start_metered) (c.1),
        )
      ]
]
