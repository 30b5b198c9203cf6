-- ===== src/Create/Lease.antt =====
-- server/pool.go: the containerd lease that createMachine opens, on every path through it.
use fireactions.Prelude.{
  Text, ◌+◌, ◌≡◌, ◌≢◌, refl, sym, ◌∙◌, ap, false, ◌∷◌, none, some, Result, ok, err, Post,
  Post-then_act, Post-rewrap, inc32, lookup, if◌then◌else◌, arith,
}
use fireactions.Deepcopy.{copy_map}
use fireactions.Pool.{Pool, Machine}
use fireactions.Pool.Events.{store_machine}
use fireactions.Pool.Spec.{vsock_socket, machine_file}
use fireactions.Create.{
  Host, Making, CreateError, JitConfig, Metadata, cancels_lease, take_lease, create_machine, ensure,
  with_snapshot, releasing_lease, lease_id, runner_name, creating_lease,
}
use fireactions.Create.Made.{with_snapshot-Made}
use fireactions.Create.Stored.{Made, Carries, same_file, at_id, same_config}
use fireactions.Create.Idle.{
  opened, cancelled, held, without, without-first, last_start, last_registration, Quiet, Idle,
}

module _ {W : Type 0} where
  -- createMachine failed: the pool is as before, but for its installation's id, and a lease that was
  -- opened has been cancelled.
  pub record Released (s t : Making W) : Type 0 where
    pub pool : t.pool ≡ record (s.pool) { installation_id = t.pool.installation_id }
    pub balance : opened t.calls + cancelled s.calls ≡ opened s.calls + cancelled t.calls
    pub holds : held t.calls ≡ held s.calls

  -- createMachine succeeded: its machine is in the map under its name, of this pool, with the next CID,
  -- its vsock and what GitHub answered; it was started with metadata that carry the same; a cleanup
  -- goroutine waits for it, and one lease was opened and none cancelled.
  pub record Kept (name : Text) (s t : Making W) : Type 0 where
    pub machine : Machine
    pub stored : lookup name t.pool.machines ≡ some machine
    pub is_named : machine.vmid ≡ name
    pub in_pool : machine.pool ≡ s.pool.config.name
    pub numbered : machine.vsock_cid ≡ inc32 s.next_cid
    pub copied : copy_map s.pool.config.firecracker.metadata ≢ none
    pub flagged : s.pool.config.shutdown_on_exit ≢ none
    pub jit : JitConfig
    pub metadata : Metadata
    pub answer : last_registration t.calls ≡ some (name, jit)
    pub start : last_start t.calls ≡ some (name, metadata)
    pub carries :
        Carries name jit metadata s.pool.config.shutdown_on_exit
          (copy_map s.pool.config.firecracker.metadata)
    pub registered_as : (machine.runner_id ≡ jit.runner_id) × (machine.name ≡ jit.runner_name)
    pub dialled : machine.vsock_path ≡ machine_file s.pool name vsock_socket
    pub pool :
        t.pool
        ≡ store_machine name machine (record (s.pool) { installation_id = t.pool.installation_id })
    pub watched : t.pool.cleanups ≡ name ∷ s.pool.cleanups
    pub opens : opened t.calls ≡ opened s.calls + 1
    pub cancels : cancelled t.calls ≡ cancelled s.calls
    pub lease_named : machine.lease_cancel ≡ lease_id s.pool.config.name name
    pub holds : held t.calls ≡ machine.lease_cancel ∷ held s.calls

module _ {W : Type 0} (host : Host W) where
  -- The lease has been opened.
  record Open (lease : Text) (s t : Making W) : Type 0 where
    pool : t.pool ≡ record (s.pool) { installation_id = t.pool.installation_id }
    next : t.next_cid ≡ s.next_cid
    opens : opened t.calls ≡ opened s.calls + 1
    cancels : cancelled t.calls ≡ cancelled s.calls
    holds : held t.calls ≡ lease ∷ held s.calls
    cancel : t.lease_cancel ≡ lease

  opens_lease-Open :
      (lease : Text) (s t : Making W)
      → Idle s t
      → Post (Released s) (λ u. Open lease s) (take_lease host lease t)
  unfolding take_lease
  opens_lease-Open lease s t q = ground arith

  ensure-Idle : (s : Making W) → Post (Released s) (λ i. Idle s) (ensure host s)
  unfolding ensure
  ensure-Idle s = ground arith

  -- After the lease has been opened, from `t` to `v`.
  leased :
      (name lease : Text) (s v : Making W)
      → v.machine_created ≡ false
      → v.next_cid ≡ s.next_cid
      → v.pool ≡ record (s.pool) { installation_id = v.pool.installation_id }
      → opened v.calls ≡ opened s.calls + 1
      → cancelled v.calls ≡ cancelled s.calls
      → held v.calls ≡ lease ∷ held s.calls
      → v.lease_cancel ≡ lease
      → lease ≡ lease_id s.pool.config.name name
      → (r : Result CreateError (Unit {0}) × Making W) → Post (Quiet v) (λ u. Made name v) r
      → Post
          (Released s)
          (λ u. Kept name s)
          (if r.1.machine_created then r else (
            r.0,
            record (r.1) {
              world = (host.cancel_lease r.1.lease_cancel r.1.world).1;
              calls = cancels_lease r.1.lease_cancel ∷ r.1.calls;
            },
          ))
  leased name lease s v c n p o k h l i (ok u, z) m = rw m.created (record {
    machine = m.machine;
    stored = m.stored;
    is_named = m.is_named;
    in_pool = m.in_pool ∙ ap (λ (p : Pool). p.config.name) p;
    numbered = m.numbered ∙ ap inc32 n;
    copied = same_config (λ c. copy_map c.firecracker.metadata ≢ none) s.pool p m.copied;
    flagged = same_config (λ c. c.shutdown_on_exit ≢ none) s.pool p m.flagged;
    jit = m.jit;
    metadata = m.metadata;
    answer = m.answer;
    start = m.start;
    carries =
        same_config
          (λ c. Carries name m.jit m.metadata c.shutdown_on_exit (copy_map c.firecracker.metadata))
          s.pool p m.carries;
    registered_as = m.registered_as;
    dialled = m.dialled ∙ same_file name vsock_socket s.pool p;
    pool = m.pool ∙ ap (store_machine name m.machine) (at_id z.pool.installation_id s.pool p);
    watched = m.watched ∙ ap (λ (p : Pool). name ∷ p.cleanups) p;
    opens = m.opens ∙ o;
    cancels = m.cancels ∙ k;
    lease_named = m.leased ∙ l ∙ i;
    holds = m.holds ∙ h ∙ ap (λ x. x ∷ held s.calls) (sym (m.leased ∙ l));
  })
  leased name lease s v c n p o k h l i (err e, z) m = rw (m.created ∙ c) (record {
    pool = ground arith;
    balance = omega (arith, m);
    holds =
        ap (λ x. without x (held z.calls)) (m.lease ∙ l)
        ∙ ap (without lease) (m.holds ∙ h)
        ∙ without-first lease (held s.calls);
  })

  -- createMachine, whatever the outside answers at each of its calls: it either fails, with the pool
  -- unchanged but for its installation's id and with any lease that it opened cancelled; or it
  -- succeeds, with its machine in the map under the runner's name, of this pool, with the next CID, the
  -- path of its own vsock and the id and name of GitHub's answer to the registration under that name; that
  -- machine was started with metadata that carry its name, the JIT configuration of this answer, and the
  -- flag and the copy of the metadata that are configured; a cleanup goroutine waits for it, and exactly one
  -- lease was opened and left to that goroutine.
  pub create_machine_lem :
      (id : Text) (s : Making W)
      → Post
          (Released s)
          (λ u. Kept (runner_name s.pool.config.runner.name id) s)
          (create_machine host id s)
  unfolding create_machine releasing_lease
  create_machine_lem id s =
      Post-then_act (Released s) (λ i. Idle s) (λ u. Kept (name s) s) _ _ (ensure-Idle s)
        λ image s1 q1.
          let same = ap (λ (p : Pool). runner_name p.config.runner.name id) q1.pool in
          rw (← same) (
            Post-then_act (Released s) (λ u. Open (lease s1) s) (λ u. Kept (name s1) s) _ _
              (Post-rewrap (Released s) (λ u. Open (lease s1) s) creating_lease
                (take_lease host (lease s1) s1) (opens_lease-Open (lease s1) s s1 q1))
              λ u s2 q2.
                let v : Making W = record s2 { machine_created = false } in
                leased (name s1) (lease s1) s v refl q2.next q2.pool q2.opens q2.cancels q2.holds
                  q2.cancel (ap (λ (p : Pool). lease_id p.config.name (name s1)) q1.pool)
                  (with_snapshot host (name s1) v) (with_snapshot-Made host (name s1) v))
    where
      name : Making W → Text
      name x = runner_name x.pool.config.runner.name id

      lease : Making W → Text
      lease x = lease_id x.pool.config.name (name x)
