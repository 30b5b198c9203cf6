-- ===== src/Startup/Pools.antt =====
-- server/server.go: the configured pools against the map of pools.
use fireactions.Prelude.{
  Text, ◌≡◌, refl, sym, ap, ◌∙◌, ◌≢◌, Bool, false, List, [], ◌∷◌, ◌++◌, map, none, some, ok, err,
  arith, inl, inr, insert, lookup, keys, lookup-insert, text_eq, All, Result-cases,
}
use mathlib.Core.List.{append-nil, append_assoc}
use fireactions.Config.{PoolConfig}
use fireactions.Pool.{Pool, PoolError, new_pool}
use fireactions.Startup.{Service, runs_pool, start_pools, Done, creating_pool, preceded}

abbrev pub names : List PoolConfig → List Text
names cs = map (λ (c : PoolConfig). c.name) cs

-- No two of the names are equal, and the map has none of them.
abbrev pub Apart : List Text → Type 0
Apart [] = Unit
Apart (x ∷ xs) = All (λ y. text_eq x y ≡ false) xs × Apart xs

abbrev pub Unused : List (Text × Pool) → List Text → Type 0
Unused m xs = All (λ x. lookup x m ≡ none) xs

keys-insert :
    (k : Text) (p : Pool) (m : List (Text × Pool))
    → lookup k m ≡ none
    → keys (insert k p m) ≡ keys m ++ k ∷ []
unfolding lookup insert
keys-insert k p [] h = refl
keys-insert k p ((j, q) ∷ m) h = ground (arith, ap (λ x. j ∷ x) (keys-insert k p m (ground arith)))

insert-Unused :
    (k : Text) (p : Pool) (m : List (Text × Pool)) (xs : List Text)
    → All (λ y. text_eq k y ≡ false) xs
    → Unused m xs
    → Unused (insert k p m) xs
insert-Unused k p m [] d u = tt
insert-Unused k p m (x ∷ xs) d u =
    (ground (arith, lookup-insert k x p m), insert-Unused k p m xs d.1 u.1)

pub start_pools-ok :
    (hd : PoolConfig → Bool) (c : PoolConfig) (cs : List PoolConfig) (s : Service) (p : Pool)
    → new_pool c (hd c) ≡ ok p
    → start_pools hd (c ∷ cs) s
      ≡ preceded
          (runs_pool c.name ∷ [])
          (start_pools hd cs (record s { pools = insert c.name p s.pools }))
unfolding start_pools
start_pools-ok hd c cs s p h = rw (h, start_pools) refl

pub start_pools-err :
    (hd : PoolConfig → Bool) (c : PoolConfig) (cs : List PoolConfig) (s : Service) (x : PoolError)
    → new_pool c (hd c) ≡ err x
    → start_pools hd (c ∷ cs) s ≡ record { error = some (creating_pool x); acts = []; service = s }
unfolding start_pools
start_pools-err hd c cs s x h = rw (h, start_pools) refl

pub failed_pool :
    (hd : PoolConfig → Bool) (c : PoolConfig) (cs : List PoolConfig) (s : Service) (x : PoolError)
    → new_pool c (hd c) ≡ err x
    → (start_pools hd (c ∷ cs) s).error ≢ none
failed_pool hd c cs s x h = rw (start_pools-err hd c cs s x h) (λ e. cc)

started_nothing :
    (hd : PoolConfig → Bool) (s : Service)
    → ((start_pools hd [] s).acts ≡ [])
      × (keys (start_pools hd [] s).service.pools ≡ keys s.pools ++ [])
      × ((start_pools hd [] s).service.config ≡ s.config)
      × ((start_pools hd [] s).service.metrics_address ≡ s.metrics_address)
unfolding start_pools
started_nothing hd s = (refl, sym (append-nil (keys s.pools)), refl, refl)

-- All pools were made, and are in the map after those that were there.
pub started :
    (hd : PoolConfig → Bool) (cs : List PoolConfig) (s : Service)
    → (start_pools hd cs s).error ≡ none
    → Apart (names cs)
    → Unused s.pools (names cs)
    → ((start_pools hd cs s).acts ≡ map runs_pool (names cs))
      × (keys (start_pools hd cs s).service.pools ≡ keys s.pools ++ names cs)
      × ((start_pools hd cs s).service.config ≡ s.config)
      × ((start_pools hd cs s).service.metrics_address ≡ s.metrics_address)
started hd [] s e a u = started_nothing hd s
started hd (c ∷ cs) s e a u = elim (Result-cases (new_pool c (hd c))) [
  | inr (x, h) ↦ absurd (failed_pool hd c cs s x h e)
  | inl (p, h) ↦
      let t : Service = record s { pools = insert c.name p s.pools } in
      let step = start_pools-ok hd c cs s p h in
      let later =
        started hd cs t (ap Done.error (sym step) ∙ e) a.1
          (insert-Unused c.name p s.pools (names cs) a.0 u.1) in
      (
        ap Done.acts step ∙ ap (λ x. runs_pool c.name ∷ x) later.0,
        ap (λ (d : Done). keys d.service.pools) step
            ∙ later.1
            ∙ ap (λ x. x ++ names cs) (keys-insert c.name p s.pools u.0)
            ∙ append_assoc (keys s.pools) (c.name ∷ []) (names cs),
        ap (λ (d : Done). d.service.config) step ∙ later.2,
        ap (λ (d : Done). d.service.metrics_address) step ∙ later.3,
      )
]
