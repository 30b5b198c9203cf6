-- ===== src/Create/Made.antt =====
-- server/pool.go: createMachine from the snapshot to the machine in the map.
use fireactions.Prelude.{
  Text, ◌≡◌, ◌≢◌, ℕ, sym, refl, ◌∙◌, ap, Bool, List, [], ◌∷◌, Option, none, some, Result, ok, err,
  then_act, Post, Post-then_act, Post-rewrap, inc32, lookup-insert, text_eq_refl, arith,
}
use fireactions.Deepcopy.{Table, copy_map}
use fireactions.Pool.{Pool, Machine}
use fireactions.Pool.Events.{store_machine}
use fireactions.Create.{
  Host, Making, CreateError, JitConfig, Metadata, closes_log, builds_machine, open_log,
  build_machine, register_runner, with_snapshot, create_snapshot, boot, closing_log, take_cid,
  first_mount, shutdown_flag, copied_metadata, start_machine, finish, launch, creating_machine,
  github, creating_snapshot, creating_log_file,
}
use fireactions.Pool.Spec.{vsock_socket, machine_file, machine_spec}
use fireactions.Create.Stored.{same_config, at_id, same_file, Carries, Made}
use fireactions.Create.Idle.{
  Quiet, Idle, opening-Quiet, create_snapshot-Quiet, find_installation_id-Quiet, Registered,
  register_runner-Registered, Started, start_machine-Started,
}

module _ {W : Type 0} (host : Host W) where
  finish-Made :
      (name : Text) (jit : JitConfig) (metadata : Metadata) (addresses : List Text) (s t : Making W)
      → copy_map s.pool.config.firecracker.metadata ≢ none
      → s.pool.config.shutdown_on_exit ≢ none
      → Carries name jit metadata s.pool.config.shutdown_on_exit
          (copy_map s.pool.config.firecracker.metadata)
      → Started name jit metadata s t
      → Post (Quiet s) (λ u. Made name s) (finish host name (inc32 s.next_cid) jit addresses t)
  unfolding finish store_machine
  finish-Made name jit metadata addresses s t c f carried q =
      let m : Machine = record {
        vmid = name;
        name = jit.runner_name;
        runner_id = jit.runner_id;
        pool = t.pool.config.name;
        created_at = host.now t.world;
        vsock_cid = inc32 s.next_cid;
        vsock_path = machine_file t.pool name vsock_socket;
        lease_cancel = t.lease_cancel;
        interfaces = addresses;
      } in
      record {
        machine = m;
        stored = ground (arith, lookup-insert name name m t.pool.machines, text_eq_refl name);
        is_named = refl;
        in_pool = ap (λ (p : Pool). p.config.name) q.pool;
        numbered = refl;
        copied = c;
        flagged = f;
        jit = jit;
        metadata = metadata;
        answer = q.answer;
        start = q.start;
        carries = carried;
        registered_as = (refl, refl);
        dialled = same_file name vsock_socket s.pool q.pool;
        pool = ap (store_machine name m) q.pool;
        watched = ap (λ (p : Pool). name ∷ p.cleanups) q.pool;
        leased = q.lease;
        lease = q.lease;
        holds = q.holds;
        created = refl;
        opens = q.opens;
        cancels = q.cancels;
      }

  open_log-Idle :
      (name : Text) (s t : Making W)
      → Idle s t
      → Post (Quiet s) (λ u. Idle s) (open_log host name t)
  unfolding open_log
  open_log-Idle name s t q = ground arith

  build_machine-Quiet :
      (name source : Text) (cid : ℕ) (s t : Making W)
      → Quiet s t
      → Post (Quiet s) (λ u. Quiet s) (build_machine host name source cid t)
  unfolding build_machine
  build_machine-Quiet name source cid s t q =
      opening-Quiet host (builds_machine cid)
        (host.new_machine (machine_spec t.pool name source cid)) s t refl q

  after_log :
      (name : Text) (s t : Making W)
      → Idle s t
      → (r : Result CreateError (Unit {0}) × Making W) → Post (Quiet t) (λ u. Made name t) r
      → Post
          (Quiet s)
          (λ u. Made name s)
          (r.0, record (r.1) { calls = closes_log name ∷ r.1.calls })
  after_log name s t q (ok u, z) m = record {
    machine = m.machine;
    stored = m.stored;
    is_named = m.is_named;
    in_pool = m.in_pool ∙ ap (λ (p : Pool). p.config.name) q.pool;
    numbered = m.numbered ∙ ap inc32 q.next;
    copied = same_config (λ c. copy_map c.firecracker.metadata ≢ none) s.pool q.pool m.copied;
    flagged = same_config (λ c. c.shutdown_on_exit ≢ none) s.pool q.pool m.flagged;
    jit = m.jit;
    metadata = m.metadata;
    answer = m.answer;
    start = m.start;
    carries =
        same_config
          (λ c. Carries name m.jit m.metadata c.shutdown_on_exit (copy_map c.firecracker.metadata))
          s.pool q.pool m.carries;
    registered_as = m.registered_as;
    dialled = m.dialled ∙ same_file name vsock_socket s.pool q.pool;
    pool = m.pool ∙ ap (store_machine name m.machine) (at_id z.pool.installation_id s.pool q.pool);
    watched = m.watched ∙ ap (λ (p : Pool). name ∷ p.cleanups) q.pool;
    leased = m.leased ∙ q.lease;
    lease = m.lease ∙ q.lease;
    holds = m.holds ∙ q.holds;
    created = m.created;
    opens = m.opens ∙ q.opens;
    cancels = m.cancels ∙ q.cancels;
  }
  after_log name s t q (err e, z) m = record {
    pool = ground arith;
    holds = m.holds ∙ q.holds;
    lease = m.lease ∙ q.lease;
    created = m.created ∙ q.created;
    opens = m.opens ∙ q.opens;
    cancels = m.cancels ∙ q.cancels;
  }

  some-none : {A : Type 0} {x : A} → ◌≡◌ {A = Option A} (some x) none → ⊥
  some-none e = cc

  boot_rest :
      (name : Text) (jit : JitConfig) (s t : Making W) (copy : Option Table) (flag : Option Bool)
      → copy ≡ copy_map s.pool.config.firecracker.metadata
      → flag ≡ s.pool.config.shutdown_on_exit
      → Registered name jit s t
      → Post
          (Quiet s)
          (λ u. Made name s)
          (then_act (copied_metadata host copy t) λ user t0.
            then_act (shutdown_flag host flag t0) λ b t1.
              then_act
                (start_machine host name
                  (record {
                    runner_id = name;
                    runner_jit_config = jit.encoded;
                    hostname = name;
                    shutdown_on_exit = b;
                    user = user;
                  })
                  t1)
                λ addresses. finish host name (inc32 s.next_cid) jit addresses)
  unfolding shutdown_flag copied_metadata
  boot_rest name jit s t none flag c f q = q.quiet
  boot_rest name jit s t (some user) none c f q = q.quiet
  boot_rest name jit s t (some user) (some b) c f q =
      let metadata : Metadata = record {
        runner_id = name;
        runner_jit_config = jit.encoded;
        hostname = name;
        shutdown_on_exit = b;
        user = user;
      } in
      let carried : Carries name jit metadata s.pool.config.shutdown_on_exit
          (copy_map s.pool.config.firecracker.metadata) =
        record { runner = refl; host = refl; jit_config = refl; flag_set = sym f; user = sym c } in
      Post-then_act (Quiet s) (λ a. Started name jit metadata s) (λ u. Made name s) _ _
        (start_machine-Started host name jit metadata s t q)
        λ addresses t1 q1.
          finish-Made name jit metadata addresses s t1 (λ e. some-none (c ∙ e))
            (λ e. some-none (f ∙ e)) carried q1

  launch-Made :
      (name : Text) (jit : JitConfig) (s t : Making W)
      → Registered name jit s t
      → Post (Quiet s) (λ u. Made name s) (launch host name (inc32 s.next_cid) jit t)
  unfolding launch
  launch-Made name jit s t q =
      boot_rest name jit s t (copy_map t.pool.config.firecracker.metadata)
        t.pool.config.shutdown_on_exit
        (ap (λ (p : Pool). copy_map p.config.firecracker.metadata) q.pool)
        (ap (λ (p : Pool). p.config.shutdown_on_exit) q.pool) q

  boot-Made :
      (name : Text) (mounts : List Text) (s : Making W)
      → Post (Quiet s) (λ u. Made name s) (boot host name mounts s)
  unfolding boot take_cid first_mount
  boot-Made name [] s = ground arith
  boot-Made name (root ∷ rest) s =
      let cid = inc32 s.next_cid in
      let s1 : Making W = record s { next_cid = cid } in
      let q1 : Quiet s s1 = record {
        pool = refl;
        created = refl;
        opens = refl;
        cancels = refl;
        holds = refl;
        lease = refl;
      } in
      Post-then_act (Quiet s) (λ u. Quiet s) (λ u. Made name s) _ _
        (Post-rewrap (Quiet s) (λ u. Quiet s) creating_machine (build_machine host name root cid s1)
          (build_machine-Quiet name root cid s s1 q1))
        λ u s2 q2.
          Post-then_act (Quiet s) (λ i. Quiet s) (λ u. Made name s) _ _
            (find_installation_id-Quiet host s s2 q2)
            λ i s3 q3.
              Post-then_act (Quiet s) (λ jit. Registered name jit s) (λ u. Made name s) _ _
                (Post-rewrap (Quiet s) (λ jit. Registered name jit s) github
                  (register_runner host i name s3) (register_runner-Registered host i name s s3 q3))
                λ jit s4 q4. launch-Made name jit s s4 q4

  -- Where the log file is open, and what follows its closing.
  logged-Made :
      (name : Text) (mounts : List Text) (s t : Making W)
      → Idle s t
      → Post (Quiet s) (λ u. Made name s) (closing_log host name (boot host name mounts) t)
  unfolding closing_log
  logged-Made name mounts s t q =
      after_log name s t q (boot host name mounts t) (boot-Made name mounts t)

  pub with_snapshot-Made :
      (name : Text) (s : Making W) → Post (Quiet s) (λ u. Made name s) (with_snapshot host name s)
  unfolding with_snapshot
  with_snapshot-Made name s =
      Post-then_act (Quiet s) (λ m. Idle s) (λ u. Made name s) _ _
        (Post-rewrap (Quiet s) (λ m. Idle s) creating_snapshot (create_snapshot host name s)
          (create_snapshot-Quiet host name s))
        λ mounts s1 q1.
          Post-then_act (Quiet s) (λ u. Idle s) (λ u. Made name s) _ _
            (Post-rewrap (Quiet s) (λ u. Idle s) creating_log_file (open_log host name s1)
              (open_log-Idle name s s1 q1))
            λ u s2 q2. logged-Made name mounts s s2 q2
