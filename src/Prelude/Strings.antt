-- ===== src/Prelude/Strings.antt =====
-- Go strings as lists of their bytes: equality, order and the functions of package strings that the
-- program calls.
use Prim.Native.Nat.{ℕ}
use Prim.Native.Char.{code}
use Prim.Native.String.{String}
use mathlib.Core.Path.{◌≡◌, refl}
use mathlib.Core.Logic.{◌↔◌, ◌⊎◌, inl, inr}
use mathlib.Core.Bool.{Bool, true, false, ◌&&◌, ◌||◌}
use mathlib.Core.List.{List, [], ◌∷◌, ◌++◌, reverse}
use native.Mathlib.Omega.{arith}
use fireactions.Prelude.Tests.{ltb, ◌==◌, if◌then◌else◌}

abbrev pub Text : Type 0
Text = List ℕ

-- The bytes of an ASCII literal.
abbrev pub codes : String → Text
codes String.[] = []
codes (String.◌∷◌ c s) = code c ∷ codes s

unfoldable pub text_eq : Text → Text → Bool
text_eq [] [] = true
text_eq (a ∷ s) (b ∷ t) = a == b && text_eq s t
text_eq _ _ = false

pub text_eq→eq : (s t : Text) → text_eq s t ≡ true → s ≡ t
unfolding text_eq
text_eq→eq [] [] h = refl
text_eq→eq [] (b ∷ t) h = cc
text_eq→eq (a ∷ s) [] h = cc
text_eq→eq (a ∷ s) (b ∷ t) h = ground (arith, text_eq→eq s t)

pub text_eq_refl : (s : Text) → text_eq s s ≡ true
unfolding text_eq
text_eq_refl [] = refl
text_eq_refl (a ∷ s) = ground (arith, text_eq_refl s)

pub eq→text_eq : (s t : Text) → s ≡ t → text_eq s t ≡ true
eq→text_eq s t e = rw e (text_eq_refl t)

pub text_eq_iff : (s t : Text) → (text_eq s t ≡ true) ↔ (s ≡ t)
text_eq_iff s t = (text_eq→eq s t, eq→text_eq s t)

-- The order of Go strings, byte by byte.
unfoldable pub text_ltb : Text → Text → Bool
text_ltb [] [] = false
text_ltb [] (b ∷ t) = true
text_ltb (a ∷ s) [] = false
text_ltb (a ∷ s) (b ∷ t) = ltb a b || (a == b && text_ltb s t)

pub text_ltb_trans :
    (r s t : Text) → text_ltb r s ≡ true → text_ltb s t ≡ true → text_ltb r t ≡ true
unfolding text_ltb
text_ltb_trans r [] [] h k = cc
text_ltb_trans [] [] (c ∷ t) h k = refl
text_ltb_trans (a ∷ r) [] (c ∷ t) h k = cc
text_ltb_trans r (b ∷ s) [] h k = cc
text_ltb_trans [] (b ∷ s) (c ∷ t) h k = refl
text_ltb_trans (a ∷ r) (b ∷ s) (c ∷ t) h k = ground (arith, text_ltb_trans r s t)

pub text_ltb_irrefl : (s : Text) → text_ltb s s ≡ false
unfolding text_ltb
text_ltb_irrefl [] = refl
text_ltb_irrefl (a ∷ s) = ground (arith, text_ltb_irrefl s)

pub text_ltb-total : (s t : Text) → (text_ltb s t ≡ true) ⊎ ((s ≡ t) ⊎ (text_ltb t s ≡ true))
unfolding text_ltb
text_ltb-total [] [] = inr (inl refl)
text_ltb-total [] (b ∷ t) = inl refl
text_ltb-total (a ∷ s) [] = inr (inr refl)
text_ltb-total (a ∷ s) (b ∷ t) = ground (arith, text_ltb-total s t)

-- strings.HasPrefix and strings.Contains.
unfoldable pub has_prefix : Text → Text → Bool
has_prefix s [] = true
has_prefix [] (p ∷ ps) = false
has_prefix (a ∷ s) (p ∷ ps) = a == p && has_prefix s ps

unfoldable pub contains : Text → Text → Bool
unfolding has_prefix
contains [] p = has_prefix [] p
contains (a ∷ s) p = has_prefix (a ∷ s) p || contains s p

-- Membership of a byte, and strings.ContainsAny over ASCII characters.
unfoldable pub has_byte : Text → ℕ → Bool
has_byte [] c = false
has_byte (a ∷ s) c = a == c || has_byte s c

unfoldable pub contains_any : Text → Text → Bool
unfolding has_byte
contains_any [] cs = false
contains_any (a ∷ s) cs = has_byte cs a || contains_any s cs

-- strings.Join
abbrev pub join_by : Text → List Text → Text
join_by sep [] = []
join_by sep (t ∷ []) = t
join_by sep (t ∷ u ∷ ts) = t ++ (sep ++ join_by sep (u ∷ ts))

-- strings.TrimSpace over ASCII: tab, newline, vertical tab, form feed, carriage return, space.
unfoldable pub is_space : ℕ → Bool
is_space c = c == 32 || (ltb 8 c && ltb c 14)

unfoldable pub trim_left : Text → Text
unfolding is_space
trim_left [] = []
trim_left (a ∷ s) = if is_space a then trim_left s else a ∷ s

unfoldable pub trim_space : Text → Text
unfolding trim_left
trim_space s = reverse (trim_left (reverse (trim_left s)))

pub text_ltb_neg_trans :
    (r s t : Text) → text_ltb r s ≡ false → text_ltb s t ≡ false → text_ltb r t ≡ false
unfolding text_ltb
text_ltb_neg_trans [] [] t h k = k
text_ltb_neg_trans (a ∷ r) [] [] h k = refl
text_ltb_neg_trans (a ∷ r) [] (c ∷ t) h k = cc
text_ltb_neg_trans [] (b ∷ s) t h k = cc
text_ltb_neg_trans (a ∷ r) (b ∷ s) [] h k = refl
text_ltb_neg_trans (a ∷ r) (b ∷ s) (c ∷ t) h k = ground (arith, text_ltb_neg_trans r s t)
