-- ===== src/Startup/Twice.antt =====
-- server/server.go: pools that are configured under one name.
use fireactions.Prelude.{
  Text, ℕ, suc, ◌+◌, ◌≤◌, ◌<◌, ◌≡◌, refl, sym, subst, ap, ◌∙◌, ◌≢◌, Bool, List, [], ◌∷◌, none, ok,
  arith, inl, inr, insert, lookup, keys, lookup-insert, length, text_eq_refl, Result-cases,
}
use fireactions.Config.{PoolConfig}
use fireactions.Pool.{Pool, new_pool}
use fireactions.Startup.{Service, start_pools, Done}
use fireactions.Startup.Pools.{start_pools-ok, start_pools-err, failed_pool}

-- A configured pool of that name, and two configured pools of one name.
pub data Named (name : Text) : List PoolConfig → Type 0 where
  first : (c : PoolConfig) (cs : List PoolConfig) → c.name ≡ name → Named name (c ∷ cs)
  later : (c : PoolConfig) (cs : List PoolConfig) → Named name cs → Named name (c ∷ cs)

pub data Twice : List PoolConfig → Type 0 where
  now : (c : PoolConfig) (cs : List PoolConfig) → Named c.name cs → Twice (c ∷ cs)
  then : (c : PoolConfig) (cs : List PoolConfig) → Twice cs → Twice (c ∷ cs)

length-keys-insert :
    (k : Text) (p : Pool) (m : List (Text × Pool))
    → length (keys (insert k p m)) ≤ suc (length (keys m))
unfolding insert
length-keys-insert k p [] = omega arith
length-keys-insert k p ((j, q) ∷ m) = ground (arith, length-keys-insert k p m)

length-keys-replace :
    (k : Text) (p : Pool) (m : List (Text × Pool))
    → lookup k m ≢ none
    → length (keys (insert k p m)) ≤ length (keys m)
unfolding insert lookup
length-keys-replace k p [] h = absurd (h refl)
length-keys-replace k p ((j, q) ∷ m) h = ground (arith, length-keys-replace k p m)

-- What the loop has run and what is in the map.
abbrev runs : (PoolConfig → Bool) → List PoolConfig → Service → ℕ
runs hd cs s = length (start_pools hd cs s).acts

abbrev kept : (PoolConfig → Bool) → List PoolConfig → Service → ℕ
kept hd cs s = length (keys (start_pools hd cs s).service.pools)

-- Not more pools than were run are new in the map.
at_most :
    (hd : PoolConfig → Bool) (cs : List PoolConfig) (s : Service)
    → kept hd cs s ≤ length (keys s.pools) + runs hd cs s
unfolding start_pools
at_most hd [] s = omega arith
at_most hd (c ∷ cs) s = elim (Result-cases (new_pool c (hd c))) [
  | inr (x, h) ↦ rw (start_pools-err hd c cs s x h) (omega arith)
  | inl (p, h) ↦ rw (start_pools-ok hd c cs s p h) (
      omega (
        arith,
        at_most hd cs (record s { pools = insert c.name p s.pools }),
        length-keys-insert c.name p s.pools,
      ))
]

error_later :
    (hd : PoolConfig → Bool) (c : PoolConfig) (cs : List PoolConfig) (s : Service) (p : Pool)
    → new_pool c (hd c) ≡ ok p
    → (start_pools hd (c ∷ cs) s).error ≡ none
    → (start_pools hd cs (record s { pools = insert c.name p s.pools })).error ≡ none
error_later hd c cs s p h e = ap Done.error (sym (start_pools-ok hd c cs s p h)) ∙ e

fewer :
    (hd : PoolConfig → Bool) (n : Text) (cs : List PoolConfig) (s : Service)
    → Named n cs
    → lookup n s.pools ≢ none
    → (start_pools hd cs s).error ≡ none
    → kept hd cs s < length (keys s.pools) + runs hd cs s
fewer hd n [] s w l e = elim w [ ]
fewer hd n (c ∷ cs) s (first _ _ q) l e = elim (Result-cases (new_pool c (hd c))) [
  | inr (x, h) ↦ absurd (failed_pool hd c cs s x h e)
  | inl (p, h) ↦ rw (start_pools-ok hd c cs s p h) (
      omega (
        arith,
        at_most hd cs (record s { pools = insert c.name p s.pools }),
        length-keys-replace c.name p s.pools (subst (λ k. lookup k s.pools ≢ none) (sym q) l),
      ))
]
fewer hd n (c ∷ cs) s (later _ _ r) l e = elim (Result-cases (new_pool c (hd c))) [
  | inr (x, h) ↦ absurd (failed_pool hd c cs s x h e)
  | inl (p, h) ↦
      let t : Service = record s { pools = insert c.name p s.pools } in
      let still : lookup n t.pools ≢ none = ground (arith, lookup-insert c.name n p s.pools) in
      rw (start_pools-ok hd c cs s p h) (
        omega (
          arith,
          fewer hd n cs t r still (error_later hd c cs s p h e),
          length-keys-insert c.name p s.pools,
        ))
]

-- When Run's loop over the configured pools succeeds, and two of them have one name, then it has run more
-- pools than the map has new ones: a signal stops only one pool of a name.
pub start_pools-Twice :
    (hd : PoolConfig → Bool) (cs : List PoolConfig) (s : Service)
    → Twice cs
    → (start_pools hd cs s).error ≡ none
    → length (keys (start_pools hd cs s).service.pools)
      < length (keys s.pools) + length (start_pools hd cs s).acts
start_pools-Twice hd [] s w e = elim w [ ]
start_pools-Twice hd (c ∷ cs) s (now _ _ n) e = elim (Result-cases (new_pool c (hd c))) [
  | inr (x, h) ↦ absurd (failed_pool hd c cs s x h e)
  | inl (p, h) ↦
      let t : Service = record s { pools = insert c.name p s.pools } in
      let there : lookup c.name t.pools ≢ none =
        ground (arith, lookup-insert c.name c.name p s.pools, text_eq_refl c.name) in
      rw (start_pools-ok hd c cs s p h) (
        omega (
          arith,
          fewer hd c.name cs t n there (error_later hd c cs s p h e),
          length-keys-insert c.name p s.pools,
        ))
]
start_pools-Twice hd (c ∷ cs) s (then _ _ w) e = elim (Result-cases (new_pool c (hd c))) [
  | inr (x, h) ↦ absurd (failed_pool hd c cs s x h e)
  | inl (p, h) ↦ rw (start_pools-ok hd c cs s p h) (
      omega (
        arith,
        start_pools-Twice hd cs (record s { pools = insert c.name p s.pools }) w
            (error_later hd c cs s p h e),
        length-keys-insert c.name p s.pools,
      ))
]
