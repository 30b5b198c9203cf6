-- ===== src/Server/Machines.antt =====
-- server/rpc.go: ListMachines, which converts the machines at once in goroutines of their own, and the
-- search of findMachine.
use mathlib.Core.List.{Permᴰ, Memᴰ, append_assoc}
use fireactions.Prelude.{
  Text, ℕ, zero, suc, ◌≤◌, ◌≡◌, refl, sym, ap, ◌∙◌, ◌≢◌, inl, inr, Bool, List, [], ◌∷◌, ◌++◌, map,
  Option, none, some, Result, ok, err, arith, lookup, text_eq_iff, text_ltb_irrefl, text_ltb_trans,
  text_ltb_neg_trans, text_ltb-total, Option-cases, ltb, All, length, All-map, length-map,
  length-append,
}
use fireactions.Prelude.Sort.{
  sort, StrictOrder, Ordered, Apart, PairwiseApart, PairwiseApart-perm, sort-perm, sort-Ordered,
}
use fireactions.Pool.{Pool, Machine}
use fireactions.Server.{
  Server, Guest, MachineProto, machine_less, select_machines, convert_machine_to_proto,
  find_machine, find_in, no_machine, Cause,
}
use fireactions.Server.Gather.{list_machines, index_from, store_at, collect, empty_slots}

module _ {A : Type 0} where
  -- The slice with every index filled.
  unfoldable pub somes : List A → List (Option A)
  somes [] = []
  somes (x ∷ xs) = some x ∷ somes xs

  index_less : ℕ × A → ℕ × A → Bool
  index_less a b = ltb a.0 b.0

  index_less-StrictOrder : StrictOrder index_less
  unfolding index_less
  index_less-StrictOrder = record {
    irrefl = λ x. ground arith;
    trans = λ x y z h k. ground arith;
    neg_trans = λ x y z h k. ground arith;
  }

  store_at_comm :
      (i j : ℕ) (x y : A) (slots : List (Option A))
      → i ≢ j
      → store_at i x (store_at j y slots) ≡ store_at j y (store_at i x slots)
  unfolding store_at
  store_at_comm i j x y [] n = refl
  store_at_comm zero zero x y (s ∷ ss) n = absurd (n refl)
  store_at_comm zero (suc j) x y (s ∷ ss) n = refl
  store_at_comm (suc i) zero x y (s ∷ ss) n = refl
  store_at_comm (suc i) (suc j) x y (s ∷ ss) n =
      ap (◌∷◌ s) (store_at_comm i j x y ss (λ e. n (ap suc e)))

  apart→ne : (a b : ℕ × A) → Apart index_less a b → a.0 ≢ b.0
  unfolding index_less
  apart→ne a b h e = ground arith

  -- Messages with different indices may come in any order.
  collect-perm :
      {rs ts : List (ℕ × A)} (slots : List (Option A))
      → Permᴰ rs ts
      → PairwiseApart index_less rs
      → collect rs slots ≡ collect ts slots
  unfolding collect
  collect-perm slots Permᴰ.nil h = refl
  collect-perm slots (Permᴰ.cons {a} {b} e d) h =
      rw (← e) (collect-perm (store_at a.0 a.1 slots) d h.1)
  collect-perm slots (Permᴰ.swap {a} {b} {a'} {b'} {l} e f) h =
      rw (← e, ← f)
        (ap (collect l) (store_at_comm b.0 a.0 b.1 a.1 slots (λ k. apart→ne a b h.0.0 (sym k))))
  collect-perm slots (Permᴰ.trans d e) h =
      collect-perm slots d h
      ∙ collect-perm slots e (PairwiseApart-perm index_less index_less-StrictOrder d h)

  index_from-le : (i j : ℕ) (xs : List A) → i ≤ j → All (λ (r : ℕ × A). i ≤ r.0) (index_from j xs)
  unfolding index_from
  index_from-le i j [] h = tt
  index_from-le i j (x ∷ xs) h = (h, index_from-le i (suc j) xs (omega arith))

  index_from-apart : (i : ℕ) (xs : List A) → PairwiseApart index_less (index_from i xs)
  unfolding index_from index_less
  index_from-apart i [] = tt
  index_from-apart i (x ∷ xs) = (
    All-map (λ (r : ℕ × A). suc i ≤ r.0) (λ r. Apart index_less (i, x) r) (index_from (suc i) xs)
        (λ r h. inl (ground arith)) (index_from-le (suc i) (suc i) xs (omega arith)),
    index_from-apart (suc i) xs,
  )

  store_at-append :
      (pre : List (Option A)) (i : ℕ) (x : A) (y : Option A) (rest : List (Option A))
      → length pre ≡ i
      → store_at i x (pre ++ y ∷ rest) ≡ pre ++ some x ∷ rest
  unfolding store_at
  store_at-append [] i x y rest e = rw (← e, store_at) refl
  store_at-append (p ∷ pre) zero x y rest e = absurd (omega arith)
  store_at-append (p ∷ pre) (suc i) x y rest e =
      ap (◌∷◌ p) (store_at-append pre i x y rest (omega arith))

  collect-index_from :
      {B : Type 0} (pre : List (Option A)) (i : ℕ) (xs : List A) (ys : List B)
      → length pre ≡ i
      → length xs ≡ length ys
      → collect (index_from i xs) (pre ++ empty_slots ys) ≡ pre ++ somes xs
  unfolding collect index_from empty_slots somes
  collect-index_from pre i [] [] e h = refl
  collect-index_from pre i [] (y ∷ ys) e h = absurd (omega arith)
  collect-index_from pre i (x ∷ xs) [] e h = absurd (omega arith)
  collect-index_from pre i (x ∷ xs) (y ∷ ys) e h =
      ap (collect (index_from (suc i) xs)) (
        store_at-append pre i x none (empty_slots ys) e
        ∙ sym (append_assoc pre (some x ∷ []) (empty_slots ys)))
      ∙ collect-index_from (pre ++ some x ∷ []) (suc i) xs ys
          (omega (arith, length-append pre (some x ∷ []))) (omega arith)
      ∙ append_assoc pre (some x ∷ []) (somes xs)

machine_less-StrictOrder : StrictOrder machine_less
unfolding machine_less
machine_less-StrictOrder = record {
  irrefl = λ x.
      ground (arith, text_eq_iff x.pool x.pool, text_ltb_irrefl x.pool, text_ltb_irrefl x.name);
  trans = λ x y z. ground (
    arith,
    text_eq_iff x.pool y.pool,
    text_eq_iff y.pool z.pool,
    text_eq_iff x.pool z.pool,
    text_ltb_trans x.pool y.pool z.pool,
    text_ltb_trans x.name y.name z.name,
    text_ltb_irrefl x.pool,
    text_ltb_trans x.pool y.pool x.pool,
  );
  neg_trans = λ x y z. ground (
    arith,
    text_eq_iff x.pool y.pool,
    text_eq_iff y.pool z.pool,
    text_eq_iff x.pool z.pool,
    text_ltb_neg_trans x.pool y.pool z.pool,
    text_ltb_neg_trans x.name y.name z.name,
    text_ltb-total x.pool y.pool,
    text_ltb-total y.pool z.pool,
    text_ltb_trans z.pool y.pool x.pool,
    text_ltb_irrefl x.pool,
    text_ltb_trans x.pool z.pool x.pool,
    text_ltb_trans y.pool x.pool y.pool,
    text_ltb_trans z.pool y.pool z.pool,
    text_ltb_irrefl y.pool,
    text_ltb_irrefl z.pool,
  );
}

-- Where the machines are found, ListMachines answers with a message for each of them, none left nil,
-- ordered by pool and by name within a pool, in whatever order the goroutines' messages come.
pub list_machines_lem :
    (guest : Guest) (arrive : List (ℕ × MachineProto) → List (ℕ × MachineProto)) (name : Text)
    (s : Server) {found : List Machine}
    → ((rs : List (ℕ × MachineProto)) → Permᴰ rs (arrive rs))
    → select_machines name s ≡ ok found
    → (ms : List Machine) × (list_machines guest arrive name s
        ≡ ok (somes (map (convert_machine_to_proto guest) ms)))
      × Permᴰ ms found
      × Ordered machine_less ms
unfolding list_machines
list_machines_lem guest arrive name s {found} any e =
    let ms = sort machine_less found in
    let rs = map (convert_machine_to_proto guest) ms in
    let answer =
      sym (collect-perm (empty_slots ms) (any (index_from 0 rs)) (index_from-apart 0 rs))
      ∙ collect-index_from [] 0 rs ms refl (length-map (convert_machine_to_proto guest) ms) in
    (
      ms,
      rw (e, list_machines, answer) refl,
      sort-perm machine_less found,
      sort-Ordered machine_less machine_less-StrictOrder found,
    )

-- What a search of the pools can find.
pub data Found (id : Text) (pools : List (Text × Pool)) (r : Result Cause Machine) : Type 0 where
  nowhere :
      All (λ (e : Text × Pool). lookup id e.1.machines ≡ none) pools
      → r ≡ err (no_machine id)
      → Found id pools r
  somewhere :
      (e : Text × Pool) (m : Machine)
      → Memᴰ e pools
      → lookup id e.1.machines ≡ some m
      → r ≡ ok m
      → Found id pools r

find_in-Found : (id : Text) (pools : List (Text × Pool)) → Found id pools (find_in id pools)
unfolding find_in
find_in-Found id [] = nowhere tt refl
find_in-Found id ((n, p) ∷ rest) = elim (Option-cases (lookup id p.machines)) [
  | inr (m, e) ↦ somewhere (n, p) m (Memᴰ.head refl) e (ground arith)
  | inl e ↦ elim (find_in-Found id rest) [
    | nowhere a r ↦ nowhere (e, a) (ground arith)
    | somewhere x m i l r ↦ somewhere x m (Memᴰ.tail i) l (ground arith)
  ]
]

-- findMachine answers with a machine that some pool keeps under that name, and fails only if no pool
-- has one.
pub find_machine-Found : (id : Text) (s : Server) → Found id s.pools (find_machine id s)
unfolding find_machine
find_machine-Found id s = find_in-Found id s.pools
