-- ===== src/Logger.antt =====
-- helper/logger/logger.go: the level that New takes, and how it shortens the name of the file that a log line
-- comes from. zerolog's ParseLevel is a parameter; what its writer prints is left out.
pub mod Tests
use mathlib.Core.List.{append-nil}
use fireactions.Prelude.{
  Text, codes, ℕ, zero, suc, ◌+◌, ◌-◌, ◌≤◌, ◌<◌, ◌≡◌, ◌≢◌, refl, ap, ◌∙◌, sym, Bool, true, false,
  List, [], ◌∷◌, ◌++◌, Result, ok, err, Fault, ℤ, pos, itoa, length, length-append, drop, All, ◌==◌,
  if◌then◌else◌, arith, inl, inr, Bool-cases,
}
use fireactions.Prelude.Paths.{slash, NoSlash}

-- `file[i] == '/'`
abbrev pub slash_at : ℕ → Text → Bool
slash_at i file = elim (drop i file) [ [] ↦ false | c ∷ rest ↦ c == slash ]

-- The loop from i down to 1.
unfoldable pub shorten : Text → ℕ → Text
shorten file zero = file
shorten file (suc i) =
    let rest = shorten file i in if slash_at (suc i) file then drop (suc (suc i)) file else rest

-- CallerMarshalFunc. The loop does not run for the empty name, whose length less 1 is below 1.
unfoldable pub marshal_caller : Text → ℕ → Text
unfolding shorten
marshal_caller file line = shorten file (length file - 1) ++ (codes ":" ++ itoa (pos line))

-- New gives a logger of the level that the text names, or ParseLevel's error.
unfoldable pub new_logger :
    {Level : Type 0} → (Text → Result Fault Level) → Text → Result Fault Level
new_logger parse_level level = elim (parse_level level) [ err e ↦ err e | ok l ↦ ok l ]

drop_next :
    {A : Type 0} (xs : List A) (y : A) (ys : List A) → drop (suc (length xs)) (xs ++ y ∷ ys) ≡ ys
drop_next [] y ys = refl
drop_next (x ∷ xs) y ys = drop_next xs y ys

-- No slash from an index on.
slash_at-NoSlash : (i : ℕ) (s : Text) → NoSlash s → slash_at i s ≡ false
slash_at-NoSlash zero [] h = refl
slash_at-NoSlash zero (c ∷ s) h = ground arith
slash_at-NoSlash (suc i) [] h = refl
slash_at-NoSlash (suc i) (c ∷ s) h = slash_at-NoSlash i s h.1

slash_at-append : (dir s : Text) (i : ℕ) → slash_at (length dir + i) (dir ++ s) ≡ slash_at i s
slash_at-append [] s i = let n : 0 + i ≡ i = omega arith in ap (λ k. slash_at k s) n
slash_at-append (c ∷ dir) s i =
    let n : suc (length dir) + i ≡ suc (length dir + i) = omega arith in
    ap (λ k. slash_at k (c ∷ dir ++ s)) n ∙ slash_at-append dir s i

shorten-slash :
    (file : Text) (i : ℕ)
    → slash_at (suc i) file ≡ true
    → shorten file (suc i) ≡ drop (suc (suc i)) file
unfolding shorten
shorten-slash file i h = ground arith

shorten-skip :
    (file : Text) (i : ℕ) → slash_at (suc i) file ≡ false → shorten file (suc i) ≡ shorten file i
unfolding shorten
shorten-skip file i h = ground arith

-- Down from any place in the part after the last slash.
shorten-base :
    (c : ℕ) (dir base : Text) (j : ℕ)
    → NoSlash base
    → shorten (c ∷ dir ++ slash ∷ base) (suc (length dir + j)) ≡ base
shorten-base c dir base zero h =
    let file = c ∷ dir ++ slash ∷ base in
    let n : length dir + 0 ≡ length dir = omega arith in
    shorten-slash file (length dir + 0) (slash_at-append dir (slash ∷ base) 0)
    ∙ ap (λ k. drop (suc k) (dir ++ slash ∷ base)) n
    ∙ drop_next dir slash base
shorten-base c dir base (suc j) h =
    let file = c ∷ dir ++ slash ∷ base in
    let n : length dir + suc j ≡ suc (length dir + j) = omega arith in
    shorten-skip file (length dir + suc j)
      (slash_at-append dir (slash ∷ base) (suc j) ∙ slash_at-NoSlash j base h)
    ∙ ap (shorten file) n
    ∙ shorten-base c dir base j h

shorten-NoSlash : (c : ℕ) (file : Text) (i : ℕ) → NoSlash file → shorten (c ∷ file) i ≡ c ∷ file
unfolding shorten
shorten-NoSlash c file zero h = refl
shorten-NoSlash c file (suc i) h =
    let none_here : slash_at i file ≡ false = slash_at-NoSlash i file h in
    ground (arith, shorten-NoSlash c file i h)

-- The caller of a log line is shown as the part of the file's name after its last slash, a colon and the
-- line, if that slash is not the name's first byte; a name with no slash after its first byte is shown
-- whole.
pub marshal_caller_lem :
    (c : ℕ) (dir base : Text) (line : ℕ)
    → NoSlash base
    → (marshal_caller (c ∷ dir ++ slash ∷ base) line ≡ base ++ (codes ":" ++ itoa (pos line)))
      × (marshal_caller (c ∷ base) line ≡ c ∷ base ++ (codes ":" ++ itoa (pos line)))
unfolding marshal_caller
marshal_caller_lem c dir base line h =
    let n : length (c ∷ dir ++ slash ∷ base) - 1 ≡ suc (length dir + length base) =
      omega (arith, length-append dir (slash ∷ base)) in
    (
      ap (λ s. s ++ (codes ":" ++ itoa (pos line)))
          (ap (shorten (c ∷ dir ++ slash ∷ base)) n ∙ shorten-base c dir base (length base) h),
      ap (λ s. s ++ (codes ":" ++ itoa (pos line)))
          (shorten-NoSlash c base (length (c ∷ base) - 1) h),
    )
