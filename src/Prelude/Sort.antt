-- ===== src/Prelude/Sort.antt =====
-- sort.Slice by a `less` function, as insertion sort, and what it gives for a strict weak order.

use mathlib.Core.Path.{◌≡◌, refl, ap, subst, ◌∙◌}
use mathlib.Core.Logic.{◌⊎◌, inl, inr}
use mathlib.Core.Bool.{Bool, true, false}
use mathlib.Core.List.{List, [], ◌∷◌, map, Permᴰ}
use mathlib.Core.List.Permᴰ
use native.Mathlib.Omega.{arith}
use fireactions.Prelude.Tests.{if◌then◌else◌, Bool-cases}
use Prim.Native.Nat.{suc}
use fireactions.Prelude.Lists.{All, All-map, length}
use fireactions.Prelude.Strings.{
  Text, text_ltb, text_ltb_irrefl, text_ltb_trans, text_ltb_neg_trans,
}

module _ {ℓ} {A : Type ℓ} where
  unfoldable pub insert_sorted : (A → A → Bool) → A → List A → List A
  insert_sorted less x [] = x ∷ []
  insert_sorted less x (y ∷ ys) = if less x y then x ∷ y ∷ ys else y ∷ insert_sorted less x ys

  unfoldable pub sort : (A → A → Bool) → List A → List A
  unfolding insert_sorted
  sort less [] = []
  sort less (x ∷ xs) = insert_sorted less x (sort less xs)

  pub record StrictOrder (less : A → A → Bool) : Type ℓ where
    pub irrefl : (x : A) → less x x ≡ false
    pub trans : (x y z : A) → less x y ≡ true → less y z ≡ true → less x z ≡ true
    pub neg_trans : (x y z : A) → less x y ≡ false → less y z ≡ false → less x z ≡ false

  -- No later element is less than an earlier one.
  abbrev pub Ordered : (A → A → Bool) → List A → Type 0
  Ordered less [] = Unit
  Ordered less (x ∷ xs) = All (λ y. less y x ≡ false) xs × Ordered less xs

  abbrev pub Apart : (A → A → Bool) → A → A → Type 0
  Apart less x y = (less x y ≡ true) ⊎ (less y x ≡ true)

  -- Any two elements are told apart by `less`.
  abbrev pub PairwiseApart : (A → A → Bool) → List A → Type 0
  PairwiseApart less [] = Unit
  PairwiseApart less (x ∷ xs) = All (Apart less x) xs × PairwiseApart less xs

  pub All-perm {κ} : (P : A → Type κ) {xs ys : List A} → Permᴰ xs ys → All P xs → All P ys
  All-perm P Permᴰ.nil h = tt
  All-perm P (Permᴰ.cons e d) h = (subst P e h.0, All-perm P d h.1)
  All-perm P (Permᴰ.swap e f) h = (subst P f h.1.0, (subst P e h.0, h.1.1))
  All-perm P (Permᴰ.trans d e) h = All-perm P e (All-perm P d h)

module _ {ℓ} {A : Type ℓ} (less : A → A → Bool) where
  pub insert_sorted-perm : (x : A) (xs : List A) → Permᴰ (insert_sorted less x xs) (x ∷ xs)
  unfolding insert_sorted
  insert_sorted-perm x [] = Permᴰ.refl (x ∷ [])
  insert_sorted-perm x (y ∷ ys) = elim (Bool-cases (less x y)) [
    | inl e ↦ rw (e, insert_sorted) (Permᴰ.refl (x ∷ y ∷ ys))
    | inr e ↦
        rw (e, insert_sorted)
          (Permᴰ.trans (Permᴰ.cons refl (insert_sorted-perm x ys)) (Permᴰ.swap refl refl))
  ]

  pub sort-perm : (xs : List A) → Permᴰ (sort less xs) xs
  unfolding sort
  sort-perm [] = Permᴰ.nil
  sort-perm (x ∷ xs) =
      Permᴰ.trans (insert_sorted-perm x (sort less xs)) (Permᴰ.cons refl (sort-perm xs))

module _ {ℓ} {A : Type ℓ} (less : A → A → Bool) (o : StrictOrder less) where
  asymm : (x y : A) → less x y ≡ true → less y x ≡ false
  asymm x y h = elim (Bool-cases (less y x)) [
    | inl e ↦ absurd (cc (o.irrefl x, o.trans x y x h e))
    | inr e ↦ e
  ]

  insert_sorted-Ordered :
      (x : A) (xs : List A) → Ordered less xs → Ordered less (insert_sorted less x xs)
  unfolding insert_sorted
  insert_sorted-Ordered x [] s = (tt, tt)
  insert_sorted-Ordered x (y ∷ ys) s = elim (Bool-cases (less x y)) [
    | inl e ↦
        rw (e, insert_sorted)
          (
            (
              asymm x y e,
              All-map (λ z. less z y ≡ false) (λ z. less z x ≡ false) ys
                  (λ z h. o.neg_trans z y x h (asymm x y e)) s.0,
            ),
            s,
          )
    | inr e ↦
        rw (e, insert_sorted)
          (
            All-perm (λ z. less z y ≡ false) (Permᴰ.symm (insert_sorted-perm less x ys)) (e, s.0),
            insert_sorted-Ordered x ys s.1,
          )
  ]

  pub sort-Ordered : (xs : List A) → Ordered less (sort less xs)
  unfolding sort
  sort-Ordered [] = tt
  sort-Ordered (x ∷ xs) = insert_sorted-Ordered x (sort less xs) (sort-Ordered xs)

  insert_sorted_comm :
      (x y : A) (l : List A)
      → Apart less x y
      → insert_sorted less x (insert_sorted less y l)
        ≡ insert_sorted less y (insert_sorted less x l)
  unfolding insert_sorted
  insert_sorted_comm x y [] a = ground (arith, asymm x y, asymm y x)
  insert_sorted_comm x y (z ∷ zs) a = ground (
    arith,
    asymm x y,
    asymm y x,
    o.trans x y z,
    o.trans y x z,
    o.neg_trans x y z,
    o.neg_trans y x z,
    insert_sorted_comm x y zs a,
  )

  pub PairwiseApart-perm :
      {xs ys : List A} → Permᴰ xs ys → PairwiseApart less xs → PairwiseApart less ys
  PairwiseApart-perm Permᴰ.nil h = tt
  PairwiseApart-perm (Permᴰ.cons {a} {b} {l₁} {l₂} e d) h = (
    All-perm (Apart less b) d (subst (λ z. All (Apart less z) l₁) e h.0),
    PairwiseApart-perm d h.1,
  )
  PairwiseApart-perm (Permᴰ.swap {a} {b} {a'} {b'} {l} e f) h = (
    (rw (← e, ← f) (apart_sym a b h.0.0), subst (λ z. All (Apart less z) l) f h.1.0),
    (subst (λ z. All (Apart less z) l) e h.0.1, h.1.1),
  )
    where
      apart_sym : (u v : A) → Apart less u v → Apart less v u
      apart_sym u v (inl p) = inr p
      apart_sym u v (inr p) = inl p
  PairwiseApart-perm (Permᴰ.trans d e) h = PairwiseApart-perm e (PairwiseApart-perm d h)

  -- The order of the input does not show in the result.
  pub sort-eq_of_perm :
      {xs ys : List A} → Permᴰ xs ys → PairwiseApart less xs → sort less xs ≡ sort less ys
  unfolding sort
  sort-eq_of_perm Permᴰ.nil h = refl
  sort-eq_of_perm (Permᴰ.cons {a} {b} e d) h = rw (e, sort-eq_of_perm d h.1) refl
  sort-eq_of_perm (Permᴰ.swap {a} {b} {a'} {b'} {l} e f) h =
      rw (← e, ← f) (insert_sorted_comm a b (sort less l) h.0.0)
  sort-eq_of_perm (Permᴰ.trans d e) h =
      sort-eq_of_perm d h ∙ sort-eq_of_perm e (PairwiseApart-perm d h)

-- An order on texts carries over to whatever has a text for its key.
pub by_key-StrictOrder {ℓ} :
    {A : Type ℓ} (key : A → Text) → StrictOrder (λ (x y : A). text_ltb (key x) (key y))
by_key-StrictOrder key = record {
  irrefl = λ x. text_ltb_irrefl (key x);
  trans = λ x y z. text_ltb_trans (key x) (key y) (key z);
  neg_trans = λ x y z. text_ltb_neg_trans (key x) (key y) (key z);
}

pub map-perm {ℓ κ} :
    {A : Type ℓ} {B : Type κ} (f : A → B) {xs ys : List A}
    → Permᴰ xs ys
    → Permᴰ (map f xs) (map f ys)
map-perm f Permᴰ.nil = Permᴰ.nil
map-perm f (Permᴰ.cons e d) = Permᴰ.cons (ap f e) (map-perm f d)
map-perm f (Permᴰ.swap e g) = Permᴰ.swap (ap f e) (ap f g)
map-perm f (Permᴰ.trans d e) = Permᴰ.trans (map-perm f d) (map-perm f e)

pub length-perm {ℓ} : {A : Type ℓ} {xs ys : List A} → Permᴰ xs ys → length xs ≡ length ys
length-perm Permᴰ.nil = refl
length-perm (Permᴰ.cons e d) = ap suc (length-perm d)
length-perm (Permᴰ.swap e f) = refl
length-perm (Permᴰ.trans d e) = length-perm d ∙ length-perm e
