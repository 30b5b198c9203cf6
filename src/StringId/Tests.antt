-- ===== src/StringId/Tests.antt =====
-- Draws of twelve bytes: twelve zeros, which make a number, and then bytes with a letter.

use fireactions.Prelude.{
  Text, codes, ◌≡◌, refl, List, [], ◌∷◌, ok, err, Result, Fault, not_found, inl, inr, arith, All,
  atoi,
}
use fireactions.StringId.{encode_to_string, new_id, returns, panics, drawing}
use fireactions.StringId.Accepted.{IsByte, Filled, Identifier, HasLetter, new_id-Identifier}

abbrev zeros : Text
zeros = 0 ∷ 0 ∷ 0 ∷ 0 ∷ 0 ∷ 0 ∷ 0 ∷ 0 ∷ 0 ∷ 0 ∷ 0 ∷ 0 ∷ []

abbrev letters : Text
letters = 18 ∷ 175 ∷ 0 ∷ 0 ∷ 0 ∷ 0 ∷ 0 ∷ 0 ∷ 0 ∷ 0 ∷ 0 ∷ 255 ∷ []

abbrev pub draws : List (Result Fault Text)
draws = ok zeros ∷ ok letters ∷ []

pub second : new_id draws ≡ returns (codes "12af000000000000000000ff")
unfolding new_id encode_to_string atoi
second = refl

failing : new_id (ok zeros ∷ err not_found ∷ ok letters ∷ []) ≡ panics not_found
unfolding new_id encode_to_string atoi
failing = refl

none_yet : new_id (ok zeros ∷ []) ≡ drawing
unfolding new_id encode_to_string atoi
none_yet = refl

pub draws-Filled : All Filled draws
draws-Filled = ((refl, ground arith), ((refl, ground arith), tt))

new_id-Identifier_example : Identifier draws (codes "12af000000000000000000ff")
new_id-Identifier_example =
    new_id-Identifier draws (codes "12af000000000000000000ff") draws-Filled second

letters-IsByte : All IsByte letters
letters-IsByte = ground arith

letters-HasLetter : HasLetter letters
letters-HasLetter = inr (inl (inl (ground arith)))
