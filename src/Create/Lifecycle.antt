-- ===== src/Create/Lifecycle.antt =====
-- server/pool.go: a machine from createMachine to the end of its cleanup goroutine.
use fireactions.Prelude.{
  Text, ◌≡◌, ap, ◌∙◌, List, ◌∷◌, some, ok, err, Result, lookup, Post, if◌then◌else◌, ◌==◌, arith,
}
use fireactions.Pool.{Machine}
use fireactions.Create.{
  Host, Making, CreateError, HostCall, cancels_lease, cancels_vmm, removes_runner, lease_id,
  runner_name, create_machine,
}
use fireactions.Create.Cleanup.{retire, delete_github_runner}
use fireactions.Create.Idle.{held, without, without-first}
use fireactions.Create.Lease.{Released, Kept, create_machine_lem}

module _ {W : Type 0} (host : Host W) where
  -- The calls with which the runner is removed: none where it or the installation has no id.
  abbrev pub removal : Machine → Making W → List HostCall → List HostCall
  removal m v calls =
      if m.runner_id == 0
      then calls
      else if v.pool.installation_id == 0
      then calls
      else removes_runner m.runner_id ∷ calls

  retire_calls :
      (m : Machine) (v : Making W)
      → (retire host m v).1.calls
        ≡ cancels_lease m.lease_cancel ∷ removal m v (cancels_vmm m.vmid ∷ v.calls)
  unfolding retire delete_github_runner
  retire_calls m v = ground arith

  removal_holds :
      (m : Machine) (v : Making W) (ks : List HostCall) → held (removal m v ks) ≡ held ks
  removal_holds m v ks = ground arith

  -- Retiring the machine of the latest lease leaves the others.
  retire_holds :
      (m : Machine) (v : Making W) (ls : List Text)
      → held v.calls ≡ m.lease_cancel ∷ ls
      → held (retire host m v).1.calls ≡ ls
  retire_holds m v ls h =
      ap held (retire_calls m v)
      ∙ ap (without m.lease_cancel) (removal_holds m v (cancels_vmm m.vmid ∷ v.calls) ∙ h)
      ∙ without-first m.lease_cancel ls

  pub ok-Kept :
      (name : Text) (s : Making W) (r : Result CreateError (Unit {0}) × Making W)
      → Post (Released s) (λ u. Kept name s) r
      → r.0 ≡ ok tt
      → Kept name s r.1
  ok-Kept name s (ok u, t) h e = h
  ok-Kept name s (err x, t) h e = cc

  -- When createMachine has succeeded, its machine is in the map, and one lease is held that was not before:
  -- the one that the machine's leaseCancel cancels, named for the pool and the runner. The end of that
  -- machine's cleanup goroutine, in whatever later state, stops its VMM, removes its runner where both ids
  -- are known, and cancels that lease; if nothing has come between, the leases held are those from before.
  pub create_machine-retire :
      (id : Text) (s v : Making W)
      → (create_machine host id s).0 ≡ ok tt
      → let name = runner_name s.pool.config.runner.name id in
        let t = (create_machine host id s).1 in
        (m : Machine) × (lookup name t.pool.machines ≡ some m)
        × (m.lease_cancel ≡ lease_id s.pool.config.name name)
        × (held t.calls ≡ m.lease_cancel ∷ held s.calls)
        × ((retire host m v).1.calls
            ≡ cancels_lease m.lease_cancel ∷ removal m v (cancels_vmm name ∷ v.calls))
        × (held (retire host m t).1.calls ≡ held s.calls)
  create_machine-retire id s v done =
      let name = runner_name s.pool.config.runner.name id in
      let t = (create_machine host id s).1 in
      let kept = ok-Kept name s (create_machine host id s) (create_machine_lem host id s) done in
      let m = kept.machine in
      (
        m,
        kept.stored,
        kept.lease_named,
        kept.holds,
        retire_calls m v
            ∙ ap (λ n. cancels_lease m.lease_cancel ∷ removal m v (cancels_vmm n ∷ v.calls))
                kept.is_named,
        retire_holds m t (held s.calls) kept.holds,
      )
