-- ===== src/Server/Lists.antt =====
-- server/rpc.go: ListPools, whatever the order in which Go yields the map of pools.
use mathlib.Core.List.{Permᴰ}
use fireactions.Prelude.{
  Text, ◌≡◌, ap, inl, inr, Bool, false, List, [], ◌∷◌, map, none, arith, lookup, Distinct, text_eq,
  text_eq_iff, text_ltb, text_ltb-total, All, Bool-cases,
}
use fireactions.Prelude.Sort.{
  StrictOrder, Ordered, Apart, PairwiseApart, sort-perm, sort-Ordered, sort-eq_of_perm,
  by_key-StrictOrder, map-perm,
}
use fireactions.Pool.{Pool, values}
use fireactions.Server.{Server, PoolProto, pool_less, list_pools, convert_pool_to_proto}

-- The map's key is the pool's name, and no key occurs twice.
pub record IsNamed (s : Server) : Type 0 where
  pub distinct : Distinct s.pools
  pub named : All (λ (e : Text × Pool). e.0 ≡ e.1.config.name) s.pools

pub pool_less-StrictOrder : StrictOrder pool_less
unfolding pool_less
pool_less-StrictOrder = by_key-StrictOrder (λ (p : Pool). p.config.name)

absent :
    (k : Text) (m : List (Text × Pool))
    → lookup k m ≡ none
    → All (λ (e : Text × Pool). text_eq e.0 k ≡ false) m
unfolding lookup
absent k [] h = tt
absent k ((j, p) ∷ m) h = elim (Bool-cases (text_eq j k)) [
  | inl e ↦ absurd (ground arith)
  | inr e ↦ (e, absent k m (ground arith))
]

names-Apart :
    (k : Text) (p : Pool) (m : List (Text × Pool))
    → k ≡ p.config.name
    → All (λ (e : Text × Pool). text_eq e.0 k ≡ false) m
    → All (λ (e : Text × Pool). e.0 ≡ e.1.config.name) m
    → All (Apart pool_less p) (values m)
unfolding pool_less
names-Apart k p [] e a n = tt
names-Apart k p ((j, q) ∷ m) e a n = (
  ground (arith, text_ltb-total p.config.name q.config.name, text_eq_iff j k),
  names-Apart k p m e a.1 n.1,
)

pools-PairwiseApart :
    (m : List (Text × Pool))
    → Distinct m
    → All (λ (e : Text × Pool). e.0 ≡ e.1.config.name) m
    → PairwiseApart pool_less (values m)
pools-PairwiseApart [] d n = tt
pools-PairwiseApart ((k, p) ∷ m) d n =
    (names-Apart k p m n.0 (absent k m d.0) n.1, pools-PairwiseApart m d.1 n.1)

values-perm : {m m' : List (Text × Pool)} → Permᴰ m m' → Permᴰ (values m) (values m')
values-perm Permᴰ.nil = Permᴰ.nil
values-perm (Permᴰ.cons e d) = Permᴰ.cons (ap (λ (x : Text × Pool). x.1) e) (values-perm d)
values-perm (Permᴰ.swap e f) =
    Permᴰ.swap (ap (λ (x : Text × Pool). x.1) e) (ap (λ (x : Text × Pool). x.1) f)
values-perm (Permᴰ.trans d e) = Permᴰ.trans (values-perm d) (values-perm e)

-- The answer of ListPools does not depend on the order in which the map yields the pools, where each
-- pool is kept under its own name.
pub list_pools-eq_of_perm :
    (s t : Server) → IsNamed s → Permᴰ s.pools t.pools → list_pools s ≡ list_pools t
unfolding list_pools
list_pools-eq_of_perm s t n d = ap (map convert_pool_to_proto) (
    sort-eq_of_perm pool_less pool_less-StrictOrder (values-perm d)
      (pools-PairwiseApart s.pools n.distinct n.named))

-- By the names in the messages.
abbrev pub name_less : PoolProto → PoolProto → Bool
name_less a b = text_ltb a.name b.name

convert-All :
    (x : Pool) (ys : List Pool)
    → All (λ y. pool_less y x ≡ false) ys
    → All (λ b. name_less b (convert_pool_to_proto x) ≡ false) (map convert_pool_to_proto ys)
unfolding pool_less convert_pool_to_proto
convert-All x [] h = tt
convert-All x (y ∷ ys) h = (h.0, convert-All x ys h.1)

convert-Ordered :
    (xs : List Pool) → Ordered pool_less xs → Ordered name_less (map convert_pool_to_proto xs)
convert-Ordered [] h = tt
convert-Ordered (x ∷ xs) h = (convert-All x xs h.0, convert-Ordered xs h.1)

-- ListPools answers with one message for each pool of the map, in the order of their names.
pub list_pools_lem :
    (s : Server)
    → Permᴰ (list_pools s) (map convert_pool_to_proto (values s.pools))
      × Ordered name_less (list_pools s)
unfolding list_pools
list_pools_lem s = (
  map-perm convert_pool_to_proto (sort-perm pool_less (values s.pools)),
  convert-Ordered _ (sort-Ordered pool_less pool_less-StrictOrder (values s.pools)),
)
