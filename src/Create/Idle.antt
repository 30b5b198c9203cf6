-- ===== src/Create/Idle.antt =====
-- server/pool.go: the calls of createMachine that touch neither its lease nor the pool.
use fireactions.Prelude.{
  Text, ℕ, suc, ◌≡◌, Option, none, some, Bool, true, false, List, [], ◌∷◌, Result, Fault, Post,
  arith, text_eq, text_eq_refl, refl, if◌then◌else◌,
}
use fireactions.Create.{
  Host, Making, HostCall, Metadata, opens_lease, cancels_lease, starts_vm, registers_runner,
  register_runner, JitConfig, opening, asking, ensure, create_snapshot, prepare_snapshot,
  find_installation_id, start_machine,
}

abbrev pub opened : List HostCall → ℕ
opened [] = 0
opened (opens_lease l ∷ ks) = suc (opened ks)
opened (_ ∷ ks) = opened ks

abbrev pub cancelled : List HostCall → ℕ
cancelled [] = 0
cancelled (cancels_lease l ∷ ks) = suc (cancelled ks)
cancelled (_ ∷ ks) = cancelled ks

-- A lease less.
unfoldable pub without : Text → List Text → List Text
without l [] = []
without l (x ∷ xs) = let rest = without l xs in if text_eq x l then xs else x ∷ rest

-- The leases that have been opened and not cancelled, the latest first.
abbrev pub held : List HostCall → List Text
held [] = []
held (opens_lease l ∷ ks) = l ∷ held ks
held (cancels_lease l ∷ ks) = without l (held ks)
held (_ ∷ ks) = held ks

pub without-first : (l : Text) (ls : List Text) → without l (l ∷ ls) ≡ ls
unfolding without
without-first l ls = rw (text_eq_refl l) refl

abbrev pub is_lease_call : HostCall → Bool
is_lease_call (opens_lease l) = true
is_lease_call (cancels_lease l) = true
is_lease_call _ = false

-- The last machine that was started, and what its guest can read.
abbrev pub last_start : List HostCall → Option (Text × Metadata)
last_start [] = none
last_start (starts_vm name metadata ∷ ks) = some (name, metadata)
last_start (_ ∷ ks) = last_start ks

-- The last runner that was registered, and GitHub's answer.
abbrev pub last_registration : List HostCall → Option (Text × JitConfig)
last_registration [] = none
last_registration (registers_runner name jit ∷ ks) = some (name, jit)
last_registration (_ ∷ ks) = last_registration ks

module _ {W : Type 0} where
  -- Nothing has happened to a lease or to the pool, but for its installation's id.
  pub record Quiet (s t : Making W) : Type 0 where
    pub pool : t.pool ≡ record (s.pool) { installation_id = t.pool.installation_id }
    pub created : t.machine_created ≡ s.machine_created
    pub opens : opened t.calls ≡ opened s.calls
    pub cancels : cancelled t.calls ≡ cancelled s.calls
    pub holds : held t.calls ≡ held s.calls
    pub lease : t.lease_cancel ≡ s.lease_cancel

  -- Nor has a CID been taken.
  pub record Idle (s t : Making W) : Type 0 where
    pub quiet : Quiet s t
    pub open quiet use *
    pub next : t.next_cid ≡ s.next_cid

  -- A runner has been registered under the name.
  pub record Registered (name : Text) (jit : JitConfig) (s t : Making W) : Type 0 where
    pub quiet : Quiet s t
    pub open quiet use *
    pub answer : last_registration t.calls ≡ some (name, jit)

  -- The machine has been started with what its guest can read, too.
  pub record Started (name : Text) (jit : JitConfig) (metadata : Metadata) (s t : Making W)
      : Type 0 where
    pub quiet : Quiet s t
    pub open quiet use *
    pub answer : last_registration t.calls ≡ some (name, jit)
    pub start : last_start t.calls ≡ some (name, metadata)

module _ {W : Type 0} (host : Host W) where
  pub opening-Quiet :
      {A : Type 0} (k : HostCall) (f : W → Result Fault A × W) (s t : Making W)
      → is_lease_call k ≡ false
      → Quiet s t
      → Post (Quiet s) (λ a. Quiet s) (opening host k f t)
  opening-Quiet k f s t n q = ground arith

  pub asking-Quiet :
      {A : Type 0} (f : W → Result Fault A × W) (s t : Making W)
      → Quiet s t
      → Post (Quiet s) (λ a. Quiet s) (asking host f t)
  asking-Quiet f s t q = ground arith

  pub ensure-Quiet : (s : Making W) → Post (Quiet s) (λ i. Quiet s) (ensure host s)
  unfolding ensure
  ensure-Quiet s = ground arith

  pub create_snapshot-Quiet :
      (id : Text) (s : Making W) → Post (Quiet s) (λ m. Idle s) (create_snapshot host id s)
  unfolding create_snapshot prepare_snapshot
  create_snapshot-Quiet id s = ground arith

  pub find_installation_id-Quiet :
      (s t : Making W) → Quiet s t → Post (Quiet s) (λ i. Quiet s) (find_installation_id host t)
  unfolding find_installation_id
  find_installation_id-Quiet s t q = ground arith

  pub start_machine-Started :
      (name : Text) (jit : JitConfig) (metadata : Metadata) (s t : Making W)
      → Registered name jit s t
      → Post (Quiet s) (λ a. Started name jit metadata s) (start_machine host name metadata t)
  unfolding start_machine
  start_machine-Started name jit metadata s t q = ground arith

  pub register_runner-Registered :
      (i : ℕ) (name : Text) (s t : Making W)
      → Quiet s t
      → Post (Quiet s) (λ jit. Registered name jit s) (register_runner host i name t)
  unfolding register_runner
  register_runner-Registered i name s t q = ground arith
