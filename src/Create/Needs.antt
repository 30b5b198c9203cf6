-- ===== src/Create/Needs.antt =====
-- server/pool.go: what createMachine needs of the pool's configuration.
use fireactions.Prelude.{Text, ◌≡◌, ◌≢◌, ◌∙◌, refl, inl, inr, true, none, ok, Bool-cases}
use fireactions.Deepcopy.{Table, copy_map}
use fireactions.Deepcopy.Copy.{is_plain, copy_map_lem}
use fireactions.Create.{Host, Making, create_machine, runner_name}
use fireactions.Create.Lease.{create_machine_lem}
use fireactions.Create.Lifecycle.{ok-Kept}

copied-is_plain : (t : Table) → copy_map t ≢ none → is_plain t ≡ true
copied-is_plain t n = elim (Bool-cases (is_plain t)) [
  | inl e ↦ e
  | inr e ↦ absurd (n (copy_map_lem t ∙ rw e refl))
]

module _ {W : Type 0} (host : Host W) where
  -- createMachine succeeds, whatever the outside answers, only in a pool whose metadata have no list, no
  -- timestamp and no map with keys other than strings in them, and whose shutdown_on_exit is not nil, as
  -- an empty `shutdown_on_exit:` leaves it.
  pub create_machine-is_plain :
      (id : Text) (s : Making W)
      → (create_machine host id s).0 ≡ ok tt
      → (is_plain s.pool.config.firecracker.metadata ≡ true)
        × (s.pool.config.shutdown_on_exit ≢ none)
  create_machine-is_plain id s done =
      let name = runner_name s.pool.config.runner.name id in
      let kept =
        ok-Kept host name s (create_machine host id s) (create_machine_lem host id s) done in
      (copied-is_plain s.pool.config.firecracker.metadata kept.copied, kept.flagged)
