-- ===== src/Create/Leak.antt =====
-- server/pool.go: the GitHub runner that createMachine registers before it starts the machine.
use fireactions.Prelude.{
  Text, ℕ, suc, ◌+◌, ◌≡◌, refl, Bool, true, false, List, [], ◌∷◌, Option, none, some, Result, ok,
  err, Fault, arith, wrapping, then_act, Ends, Ends-then_act, inc32, ◌∙◌, ap, if_both,
  if◌then◌else◌,
}
use fireactions.Deepcopy.{Table, copy_map}
use fireactions.Create.{
  Host, Making, HostCall, CreateError, registers_runner, removes_runner, create_machine,
  with_snapshot, creating_machine, creating_snapshot, creating_log_file, creating_lease, github,
  open_log, build_machine, register_runner, JitConfig, take_lease, lease_id, runner_name, ensure,
  releasing_lease, boot, closing_log, closes_log, cancels_lease, take_cid, first_mount,
  find_installation_id, shutdown_flag, copied_metadata, start_machine, finish, launch,
  create_snapshot, prepare_snapshot, starting_machine,
}

abbrev pub registered : List HostCall → ℕ
registered [] = 0
registered (registers_runner n jit ∷ ks) = suc (registered ks)
registered (_ ∷ ks) = registered ks

abbrev pub removed : List HostCall → ℕ
removed [] = 0
removed (removes_runner n ∷ ks) = suc (removed ks)
removed (_ ∷ ks) = removed ks

abbrev is_start : CreateError → Bool
is_start (starting_machine f) = true
is_start _ = false

module _ {W : Type 0} where
  -- Nothing has been registered, or one runner has; none has been removed.
  record Before (s t : Making W) : Type 0 where
    regs : registered t.calls ≡ registered s.calls
    rems : removed t.calls ≡ removed s.calls

  pub record Leaks (s t : Making W) : Type 0 where
    pub regs : registered t.calls ≡ registered s.calls + 1
    pub rems : removed t.calls ≡ removed s.calls

  -- If that is how it ended, a runner is left.
  abbrev IfStart : Making W → CreateError → Making W → Type 0
  IfStart s e t = is_start e ≡ true → Leaks s t

module _ {W : Type 0} (host : Host W) where
  build_machine-Before :
      (name root : Text) (cid : ℕ) (s t : Making W)
      → Before s t
      → Ends
          (IfStart s)
          (λ u. Before s)
          (wrapping creating_machine (build_machine host name root cid) t)
  unfolding build_machine
  build_machine-Before name root cid s t b = ground arith

  find_installation_id-Before :
      (s t : Making W) → Before s t → Ends (IfStart s) (λ i. Before s) (find_installation_id host t)
  unfolding find_installation_id
  find_installation_id-Before s t b = ground arith

  register_runner-Leaks :
      (i : ℕ) (name : Text) (s t : Making W)
      → Before s t
      → Ends (IfStart s) (λ j. Leaks s) (wrapping github (register_runner host i name) t)
  unfolding register_runner
  register_runner-Leaks i name s t b = ground arith

  booted :
      (name : Text) (cid : ℕ) (jit : JitConfig) (copy : Option Table) (flag : Option Bool)
      (s t : Making W)
      → Leaks s t
      → Ends
          (IfStart s)
          (λ u v. Unit {0})
          (then_act (copied_metadata host copy t) λ user t0.
            then_act (shutdown_flag host flag t0) λ b t1.
              then_act
                (start_machine host name
                  (record {
                    runner_id = name;
                    runner_jit_config = jit.encoded;
                    hostname = name;
                    shutdown_on_exit = b;
                    user = user;
                  })
                  t1)
                λ addresses. finish host name cid jit addresses)
  unfolding shutdown_flag copied_metadata start_machine finish
  booted name cid jit none flag s t l = ground arith
  booted name cid jit (some user) none s t l = ground arith
  booted name cid jit (some user) (some b) s t l = ground arith

  launch-IfStart :
      (name : Text) (cid : ℕ) (jit : JitConfig) (s t : Making W)
      → Leaks s t
      → Ends (IfStart s) (λ u v. Unit {0}) (launch host name cid jit t)
  unfolding launch
  launch-IfStart name cid jit s t l =
      booted name cid jit (copy_map t.pool.config.firecracker.metadata)
        t.pool.config.shutdown_on_exit s t l

  boot-IfStart :
      (name : Text) (mounts : List Text) (s t : Making W)
      → Before s t
      → Ends (IfStart s) (λ u v. Unit {0}) (boot host name mounts t)
  unfolding boot take_cid first_mount
  boot-IfStart name [] s t b = ground arith
  boot-IfStart name (root ∷ rest) s t b =
      let cid = inc32 t.next_cid in
      let t0 : Making W = record t { next_cid = cid } in
      let b0 : Before s t0 = record { regs = b.regs; rems = b.rems } in
      Ends-then_act (IfStart s) (λ u. Before s) (λ u v. Unit {0}) _ _
        (build_machine-Before name root cid s t0 b0)
        λ u t1 b1.
          Ends-then_act (IfStart s) (λ i. Before s) (λ u v. Unit {0}) _ _
            (find_installation_id-Before s t1 b1)
            λ i t2 b2.
              Ends-then_act (IfStart s) (λ j. Leaks s) (λ u v. Unit {0}) _ _
                (register_runner-Leaks i name s t2 b2)
                λ jit t3 l. launch-IfStart name cid jit s t3 l

  create_snapshot-Before :
      (id : Text) (s : Making W)
      → Ends (IfStart s) (λ m. Before s) (wrapping creating_snapshot (create_snapshot host id) s)
  unfolding create_snapshot prepare_snapshot
  create_snapshot-Before id s = ground arith

  open_log-Before :
      (name : Text) (s t : Making W)
      → Before s t
      → Ends (IfStart s) (λ u. Before s) (wrapping creating_log_file (open_log host name) t)
  unfolding open_log
  open_log-Before name s t b = ground arith

  -- Closing the log and cancelling the lease remove no runner.
  noted-IfStart :
      (s : Making W) (r : Result CreateError (Unit {0}) × Making W) (k : HostCall) (w : W)
      → registered (k ∷ r.1.calls) ≡ registered r.1.calls
      → removed (k ∷ r.1.calls) ≡ removed r.1.calls
      → Ends (IfStart s) (λ u v. Unit {0}) r
      → Ends (IfStart s) (λ u v. Unit {0}) (r.0, record (r.1) { world = w; calls = k ∷ r.1.calls })
  noted-IfStart s (ok u, t) k w e f h = tt
  noted-IfStart s (err x, t) k w e f h =
      λ g. let l = h g in record { regs = e ∙ l.regs; rems = f ∙ l.rems }

  with_snapshot-IfStart :
      (name : Text) (s : Making W) → Ends (IfStart s) (λ u v. Unit {0}) (with_snapshot host name s)
  unfolding with_snapshot closing_log
  with_snapshot-IfStart name s =
      Ends-then_act (IfStart s) (λ m. Before s) (λ u v. Unit {0}) _ _
        (create_snapshot-Before name s)
        λ mounts t1 b1.
          Ends-then_act (IfStart s) (λ u. Before s) (λ u v. Unit {0}) _ _
            (open_log-Before name s t1 b1)
            λ u t2 b2.
              noted-IfStart s (boot host name mounts t2) (closes_log name)
                (boot host name mounts t2).1.world refl refl (boot-IfStart name mounts s t2 b2)

  released-IfStart :
      (s : Making W) (r : Result CreateError (Unit {0}) × Making W)
      → Ends (IfStart s) (λ u v. Unit {0}) r
      → Ends
          (IfStart s)
          (λ u v. Unit {0})
          (if r.1.machine_created then r else (
            r.0,
            record (r.1) {
              world = (host.cancel_lease r.1.lease_cancel r.1.world).1;
              calls = cancels_lease r.1.lease_cancel ∷ r.1.calls;
            },
          ))
  released-IfStart s r h = if_both (Ends (IfStart s) (λ u v. Unit {0})) r.1.machine_created h (
      noted-IfStart s r (cancels_lease r.1.lease_cancel)
        (host.cancel_lease r.1.lease_cancel r.1.world).1 refl refl h)

  opens_lease-Before :
      (lease : Text) (s t : Making W)
      → Before s t
      → Ends (IfStart s) (λ u. Before s) (wrapping creating_lease (take_lease host lease) t)
  unfolding take_lease
  opens_lease-Before lease s t b = ground arith

  ensure-Before : (s : Making W) → Ends (IfStart s) (λ i. Before s) (ensure host s)
  unfolding ensure
  ensure-Before s = ground arith

  widen :
      (s t : Making W) (r : Result CreateError (Unit {0}) × Making W)
      → Before s t
      → Ends (IfStart t) (λ u v. Unit {0}) r
      → Ends (IfStart s) (λ u v. Unit {0}) r
  widen s t (ok u, v) b h = tt
  widen s t (err e, v) b h =
      λ g. let l = h g in record { regs = l.regs ∙ ap (λ n. n + 1) b.regs; rems = l.rems ∙ b.rems }

  ended :
      (e : CreateError) (s : Making W) (r : Result CreateError (Unit {0}) × Making W)
      → is_start e ≡ true
      → r.0 ≡ err e
      → Ends (IfStart s) (λ u v. Unit {0}) r
      → Leaks s r.1
  ended e s (ok u, t) i h k = cc
  ended e s (err x, t) i h k = k (ground arith)

  create_machine-IfStart :
      (id : Text) (s : Making W) → Ends (IfStart s) (λ u v. Unit {0}) (create_machine host id s)
  unfolding create_machine releasing_lease
  create_machine-IfStart id s =
      Ends-then_act (IfStart s) (λ i. Before s) (λ u v. Unit {0}) _ _ (ensure-Before s)
        λ image s1 b1.
          let name = runner_name s1.pool.config.runner.name id in
          let lease = lease_id s1.pool.config.name name in
          Ends-then_act (IfStart s) (λ u. Before s) (λ u v. Unit {0}) _ _
            (opens_lease-Before lease s s1 b1)
            λ u s2 b2.
              let v : Making W = record s2 { machine_created = false } in
              let bv : Before s v = record { regs = b2.regs; rems = b2.rems } in
              released-IfStart s (with_snapshot host name v)
                (widen s v (with_snapshot host name v) bv (with_snapshot-IfStart name v))

  -- The leak: when createMachine ends because Firecracker could not start the machine, it has
  -- registered a runner with GitHub and has not removed it.
  pub create_machine-Leaks :
      (id : Text) (s : Making W) (e : Fault)
      → (create_machine host id s).0 ≡ err (starting_machine e)
      → Leaks s (create_machine host id s).1
  create_machine-Leaks id s e h =
      ended (starting_machine e) s (create_machine host id s) refl h (create_machine-IfStart id s)
