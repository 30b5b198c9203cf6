-- ===== src/StringId.antt =====
-- helper/stringid/stringid.go: New, over what crypto/rand draws.
pub mod Accepted
pub mod Tests
use fireactions.Prelude.{
  Text, ℕ, ◌+◌, ◌/◌, ◌%◌, List, [], ◌∷◌, Option, none, some, Result, ok, err, Fault, atoi, ltb,
  if◌then◌else◌,
}

-- The digits of encoding/hex.
abbrev pub hex_digit : ℕ → ℕ
hex_digit n = if ltb n 10 then 48 + n else 87 + n

-- hex.EncodeToString
unfoldable pub encode_to_string : Text → Text
encode_to_string [] = []
encode_to_string (b ∷ bs) = hex_digit (b / 16) ∷ hex_digit (b % 16) ∷ encode_to_string bs

-- How New ends; `drawing` while it has found none, and `panics` when rand.Read fails.
pub data NewId : Type 0 where
  returns : Text → NewId
  panics : Fault → NewId
  drawing : NewId

-- The loop. ParseInt(id, 10, 64) takes what Atoi takes.
unfoldable pub new_id : List (Result Fault Text) → NewId
new_id [] = drawing
new_id (err e ∷ draws) = panics e
new_id (ok b ∷ draws) =
    let again = new_id draws in
    let id = encode_to_string b in elim (atoi id) [ some n ↦ again | none ↦ returns id ]
