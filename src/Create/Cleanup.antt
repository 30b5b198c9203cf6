-- ===== src/Create/Cleanup.antt =====
-- server/pool.go: the end of the cleanup goroutine of createMachine, and deleteGitHubRunner.
use fireactions.Prelude.{ℕ, ◌∷◌, ok, Act, ◌>>◌, if◌then◌else◌, ◌==◌}
use fireactions.Pool.{Machine}
use fireactions.Create.{
  Host, Making, CreateError, cancels_lease, cancels_vmm, removes_runner, noting,
}

module _ {W : Type 0} (host : Host W) where
  -- deleteGitHubRunner
  unfoldable pub delete_github_runner : ℕ → Act (Making W) CreateError (Unit {0})
  delete_github_runner runner_id s =
      if runner_id == 0 then (ok tt, s) else if s.pool.installation_id == 0 then (ok tt, s) else (
        ok tt,
        record s {
          world = (host.remove_runner s.pool.installation_id runner_id s.world).1;
          calls = removes_runner runner_id ∷ s.calls;
        },
      )

  -- The end of a cleanup goroutine, after the map; the error of leaseCancel is only logged.
  unfoldable pub retire : Machine → Act (Making W) CreateError (Unit {0})
  unfolding delete_github_runner
  retire machine = do
    noting host (cancels_vmm machine.vmid)
    delete_github_runner machine.runner_id
    λ s. (
      ok tt,
      record s {
        world = (host.cancel_lease machine.lease_cancel s.world).1;
        calls = cancels_lease machine.lease_cancel ∷ s.calls;
      },
    )
