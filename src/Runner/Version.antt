-- ===== src/Runner/Version.antt =====
-- agent/runner/runner.go: the version that GetVersion reads off `run.sh --version`.
use fireactions.Prelude.{
  Text, ℕ, ◌≡◌, refl, sym, ap, subst, ◌∙◌, false, [], ◌∷◌, ◌++◌, ok, arith, All, All-append,
  is_space, trim_left, trim_space,
}
use mathlib.Core.List.{reverse, reverse-cons, reverse-reverse}
use fireactions.Runner.{first_line, some_version, get_version}

abbrev pub NotSpace : ℕ → Type 0
NotSpace c = is_space c ≡ false

-- A newline is a space.
first_line-append : (v rest : Text) → All NotSpace v → first_line (v ++ 10 ∷ rest) ≡ v
unfolding is_space
first_line-append [] rest h = refl
first_line-append (c ∷ v) rest h = ground (arith, first_line-append v rest, h.0)

trim_left-NotSpace : (s : Text) → All NotSpace s → trim_left s ≡ s
unfolding trim_left
trim_left-NotSpace [] h = refl
trim_left-NotSpace (c ∷ s) h = rw (h.0) refl

reverse-NotSpace : (s : Text) → All NotSpace s → All NotSpace (reverse s)
reverse-NotSpace [] h = tt
reverse-NotSpace (c ∷ s) h =
    subst (All NotSpace) (sym (reverse-cons c s))
      (All-append NotSpace (reverse s) (c ∷ []) (reverse-NotSpace s h.1) (h.0, tt))

trim_space-NotSpace : (s : Text) → All NotSpace s → trim_space s ≡ s
unfolding trim_space
trim_space-NotSpace s h =
    ap (λ x. reverse (trim_left (reverse x))) (trim_left-NotSpace s h)
    ∙ ap reverse (trim_left-NotSpace (reverse s) (reverse-NotSpace s h))
    ∙ reverse-reverse s

-- A version that is not empty and has no white space in it is read off the first line of the output, whatever the lines
-- after it say.
pub get_version-first_line :
    (c : ℕ) (v rest : Text)
    → All NotSpace (c ∷ v)
    → get_version (ok ((c ∷ v) ++ 10 ∷ rest)) ≡ ok (c ∷ v)
unfolding get_version
get_version-first_line c v rest h =
    ap some_version
      (ap trim_space (first_line-append (c ∷ v) rest h) ∙ trim_space-NotSpace (c ∷ v) h)
