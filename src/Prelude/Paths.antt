-- ===== src/Prelude/Paths.antt =====
-- path/filepath's Join, for a directory that begins with a slash, and when two of its results differ.
use Prim.Native.Nat.{ℕ, ◌≤◌}
use mathlib.Core.Path.{◌≡◌, refl, ap, ◌∙◌, sym}
use mathlib.Core.Logic.{◌≢◌, inl, inr}
use mathlib.Core.Bool.{true, false}
use mathlib.Core.List.{List, [], ◌∷◌, ◌++◌}
use native.Mathlib.Omega.{arith}
use fireactions.Prelude.Tests.{◌==◌, if◌then◌else◌, Bool-cases}
use fireactions.Prelude.Lists.{length, All, length-append}
use fireactions.Prelude.Strings.{Text, codes, text_eq}

abbrev pub slash : ℕ
slash = 47

-- What an element of a path does to the elements before it, of which the last is the head.
unfoldable pub enter : List Text → Text → List Text
unfolding text_eq
enter before e =
    if text_eq e []
    then before
    else if text_eq e (codes ".")
    then before
    else if text_eq e (codes "..")
    then elim before [ [] ↦ [] | x ∷ rest ↦ rest ]
    else e ∷ before

-- The elements up to each slash, and what follows the last one.
unfoldable pub elements : List Text → Text → Text → List Text
unfolding enter
elements before e [] = enter before e
elements before e (c ∷ cs) = elim (c == slash) [
  | true ↦ elements (enter before e) [] cs
  | false ↦ elements before (e ++ c ∷ []) cs
]

unfoldable pub joined : List Text → Text
joined [] = []
joined (e ∷ before) = joined before ++ slash ∷ e

-- Clean
unfoldable pub clean : Text → Text
unfolding elements joined
clean path = elim (elements [] [] path) [ [] ↦ slash ∷ [] | e ∷ before ↦ joined (e ∷ before) ]

unfoldable pub join : Text → Text → Text
unfolding clean
join dir base = clean (dir ++ slash ∷ base)

-- A text without a slash belongs to one element.
abbrev pub NoSlash : Text → Type 0
NoSlash s = All (λ c. c ≢ slash) s

append_nil : {A : Type 0} (xs : List A) → xs ++ [] ≡ xs
append_nil [] = refl
append_nil (x ∷ xs) = ap (λ ys. x ∷ ys) (append_nil xs)

pub append_assoc : {A : Type 0} (xs ys zs : List A) → (xs ++ ys) ++ zs ≡ xs ++ (ys ++ zs)
append_assoc [] ys zs = refl
append_assoc (x ∷ xs) ys zs = ap (λ r. x ∷ r) (append_assoc xs ys zs)

append_cancel : {A : Type 0} (xs : List A) {ys zs : List A} → xs ++ ys ≡ xs ++ zs → ys ≡ zs
append_cancel [] h = h
append_cancel (x ∷ xs) h = append_cancel xs cc

pub append_split :
    {A : Type 0} (xs ys : List A) {us vs : List A}
    → length xs ≡ length ys
    → xs ++ us ≡ ys ++ vs
    → (xs ≡ ys) × (us ≡ vs)
append_split [] [] n h = (refl, h)
append_split [] (y ∷ ys) n h = absurd (omega arith)
append_split (x ∷ xs) [] n h = absurd (omega arith)
append_split (x ∷ xs) (y ∷ ys) {us} {vs} n h =
    let tails : xs ++ us ≡ ys ++ vs = cc in
    let (same, rest) = append_split xs ys (omega arith) tails in (cc, rest)

elements-NoSlash :
    (before : List Text) (e s : Text) → NoSlash s → elements before e s ≡ enter before (e ++ s)
unfolding elements
elements-NoSlash before e [] h = ap (enter before) (sym (append_nil e))
elements-NoSlash before e (c ∷ cs) h =
    ground (arith, elements-NoSlash before (e ++ c ∷ []) cs h.1, append_assoc e (c ∷ []) cs)

-- Where the elements stand after a text, whatever follows it.
elements-append :
    (p : Text) (before : List Text) (e : Text)
    → (after : List Text) × (last : Text) × ((s : Text)
        → elements before e (p ++ s) ≡ elements after last s)
unfolding elements
elements-append [] before e = (before, e, λ s. refl)
elements-append (c ∷ cs) before e = elim (Bool-cases (c == slash)) [
  | inl k ↦
      let (after, last, h) = elements-append cs (enter before e) [] in
      (after, last, λ s. ground (arith, h s))
  | inr k ↦
      let (after, last, h) = elements-append cs before (e ++ c ∷ []) in
      (after, last, λ s. ground (arith, h s))
]

-- Three bytes are no element that Clean drops.
enter-long : (before : List Text) (e : Text) → 3 ≤ length e → enter before e ≡ e ∷ before
unfolding enter text_eq
enter-long before [] h = absurd (omega arith)
enter-long before (a ∷ []) h = absurd (omega arith)
enter-long before (a ∷ b ∷ []) h = absurd (omega arith)
enter-long before (a ∷ b ∷ c ∷ s) h = ground arith

clean-elements :
    (path e : Text) (before : List Text)
    → elements [] [] path ≡ e ∷ before
    → clean path ≡ joined before ++ slash ∷ e
unfolding clean joined
clean-elements path e before h = rw (clean, h) refl

-- All that Join makes of the directory and of the beginning of the name.
join-last :
    (dir prefix : Text)
    → (before : Text) × (last : Text) × ((s : Text)
        → NoSlash s
        → 3 ≤ length s
        → join dir (prefix ++ s) ≡ before ++ slash ∷ (last ++ s))
unfolding join
join-last dir prefix =
    let (after, last, h) = elements-append (dir ++ slash ∷ prefix) [] [] in
    (
      joined after,
      last,
      λ s free long.
          let whole = append_assoc dir (slash ∷ prefix) s in
          let ends = h s ∙ elements-NoSlash after last s free in
          let kept = enter-long after (last ++ s) (omega (arith, length-append last s)) in
          ap clean (sym whole)
          ∙ clean-elements ((dir ++ slash ∷ prefix) ++ s) (last ++ s) after (ends ∙ kept),
    )

-- Whatever directory and beginning of a name: with what follows, without a slash and at least three
-- bytes long, Join's results differ if that differs.
pub join-injective :
    (dir prefix s t : Text)
    → NoSlash s
    → NoSlash t
    → 3 ≤ length s
    → 3 ≤ length t
    → join dir (prefix ++ s) ≡ join dir (prefix ++ t)
    → s ≡ t
join-injective dir prefix s t hs ht ls lt h =
    let (before, last, form) = join-last dir prefix in
    append_cancel last
      (append_cancel (slash ∷ []) (append_cancel before (sym (form s hs ls) ∙ (h ∙ form t ht lt))))
