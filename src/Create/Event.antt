-- ===== src/Create/Event.antt =====
-- server/pool.go: createMachine as the event that Pool/Events takes it for.
use fireactions.Prelude.{
  Text, ℕ, suc, ◌+◌, ◌≡◌, refl, ap, sym, ◌∙◌, some, ok, err, Result, Post, dec32,
}
use fireactions.Pool.{Pool, Machine}
use fireactions.Pool.Events.{
  exec, creator_stores, creator_fails, store_machine, creator_store, creator_fail,
}
use fireactions.Create.{Host, Making, CreateError, create_machine, runner_name}
use fireactions.Create.Lease.{Released, Kept, create_machine_lem}

-- The pool as createMachine leaves it, with the creation under way, and how the events leave it.
pub data Refines (name : Text) (s t : Pool) (n : ℕ) (r : Result CreateError (Unit {0}))
    : Type 0 where
  stores :
      (m : Machine)
      → r ≡ ok tt
      → m.vmid ≡ name
      → exec (creator_stores name m) (record s { installation_id = t.installation_id })
        ≡ some (record t { creators_creating = n; creators_returning = s.creators_returning + 1 })
      → Refines name s t n r
  fails :
      (e : CreateError)
      → r ≡ err e
      → exec creator_fails (record s { installation_id = t.installation_id })
        ≡ some (record t { creators_creating = n; pending_creates = dec32 s.pending_creates })
      → Refines name s t n r

store_event :
    (name : Text) (m : Machine) (p : Pool) (n : ℕ)
    → p.creators_creating ≡ suc n
    → exec (creator_stores name m) p
      ≡ some (record (store_machine name m p) {
        creators_creating = n;
        creators_returning = p.creators_returning + 1;
      })
unfolding exec creator_store store_machine
store_event name m p n h = rw (h, creator_store) refl

fail_event :
    (p : Pool) (n : ℕ)
    → p.creators_creating ≡ suc n
    → exec creator_fails p
      ≡ some (record p { creators_creating = n; pending_creates = dec32 p.pending_creates })
unfolding exec creator_fail
fail_event p n h = rw (h, creator_fail) refl

module _ {W : Type 0} (host : Host W) where
  refines :
      (name : Text) (s : Making W) (n : ℕ) (r : Result CreateError (Unit {0}) × Making W)
      → s.pool.creators_creating ≡ suc n
      → Post (Released s) (λ u. Kept name s) r
      → Refines name s.pool r.1.pool n r.0
  refines name s n (ok u, t) c k =
      let p : Pool = record (s.pool) { installation_id = t.pool.installation_id } in
      stores k.machine refl k.is_named (
        store_event name k.machine p n c
        ∙ ap
            (λ (q : Pool). some (record q {
              creators_creating = n;
              creators_returning = s.pool.creators_returning + 1;
            }))
            (sym k.pool))
  refines name s n (err e, t) c k =
      let p : Pool = record (s.pool) { installation_id = t.pool.installation_id } in
      fails e refl (
        fail_event p n c
        ∙ ap
            (λ (q : Pool).
              some (record q {
                creators_creating = n;
                pending_creates = dec32 s.pool.pending_creates;
              }))
            (sym k.pool))

  -- createMachine as a whole, whatever the outside answers, is to the pool one of the two events that the
  -- theorems about pools take it for: it stores a machine under the runner's name and launches its cleanup
  -- goroutine, or it fails and the counter of creations is decremented; but for the installation's id,
  -- which no event reads.
  pub create_machine-Refines :
      (id : Text) (s : Making W) (n : ℕ)
      → s.pool.creators_creating ≡ suc n
      → Refines
          (runner_name s.pool.config.runner.name id)
          s.pool
          (create_machine host id s).1.pool
          n
          (create_machine host id s).0
  create_machine-Refines id s n c =
      refines (runner_name s.pool.config.runner.name id) s n (create_machine host id s) c
        (create_machine_lem host id s)
