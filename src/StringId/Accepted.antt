-- ===== src/StringId/Accepted.antt =====
-- helper/stringid/stringid.go: the identifiers that New returns, and that it returns one.
use mathlib.Core.List.{Memᴰ}
use fireactions.Prelude.{
  ap, Option, some, leb, ◌-◌, ◌&&◌, if◌then◌else◌, Text, ℕ, ◌+◌, ◌-◌, ◌*◌, ◌/◌, ◌%◌, ◌≤◌, ◌<◌, ◌≡◌,
  refl, subst, ◌⊎◌, inl, inr, List, [], ◌∷◌, ◌++◌, map, none, Result, ok, err, Fault, atoi,
  digits_from, arith, length, All, Option-cases,
}
use fireactions.StringId.{hex_digit, encode_to_string, returns, new_id}

abbrev pub IsByte : ℕ → Type 0
IsByte b = b < 256

-- 0 to 9 and a to f.
abbrev pub IsHexDigit : ℕ → Type 0
IsHexDigit c = ((48 ≤ c) × (c ≤ 57)) ⊎ ((97 ≤ c) × (c ≤ 102))

length-encode : (bs : Text) → length (encode_to_string bs) ≡ 2 * length bs
unfolding encode_to_string
length-encode [] = refl
length-encode (b ∷ bs) = omega (arith, length-encode bs)

hex_digit-IsHexDigit : (n : ℕ) → n < 16 → IsHexDigit (hex_digit n)
hex_digit-IsHexDigit n h = ground arith

encode-IsHexDigit : (bs : Text) → All IsByte bs → All IsHexDigit (encode_to_string bs)
unfolding encode_to_string
encode-IsHexDigit [] h = tt
encode-IsHexDigit (b ∷ bs) h = (
  hex_digit-IsHexDigit (b / 16) (ground (arith, h.0)),
  (hex_digit-IsHexDigit (b % 16) (omega arith), encode-IsHexDigit bs h.1),
)

-- The value of a hexadecimal digit, and the bytes that a text of such digits stands for.
abbrev pub hex_value : ℕ → Option ℕ
hex_value c =
    if leb 48 c && leb c 57
    then some (c - 48)
    else if leb 97 c && leb c 102
    then some (c - 87)
    else none

abbrev both : Option ℕ → Option ℕ → Option Text → Option Text
both (some m) (some n) (some bs) = some ((m * 16 + n) ∷ bs)
both (some m) (some n) none = none
both (some m) none r = none
both none l r = none

unfoldable pub decode_string : Text → Option Text
decode_string [] = some []
decode_string (c ∷ []) = none
decode_string (c ∷ d ∷ cs) = both (hex_value c) (hex_value d) (decode_string cs)

hex_value-hex_digit : (n : ℕ) → n < 16 → hex_value (hex_digit n) ≡ some n
hex_value-hex_digit n h = ground arith

decode-encode : (bs : Text) → All IsByte bs → decode_string (encode_to_string bs) ≡ some bs
unfolding decode_string encode_to_string
decode-encode [] h = refl
decode-encode (b ∷ bs) h =
    let high = hex_value-hex_digit (b / 16) (ground (arith, h.0)) in
    let low = hex_value-hex_digit (b % 16) (omega arith) in
    rw (high, low, decode-encode bs h.1) (ap (λ n. some (n ∷ bs)) (omega arith))

-- Draws of rand.Read that fill the twelve bytes, where none fails.
abbrev pub Filled : Result Fault Text → Type 0
Filled (ok b) = (length b ≡ 12) × All IsByte b
Filled (err e) = Unit

-- What an identifier is: 24 hexadecimal digits, which are not a number of 64 bits, and which stand for
-- bytes that were drawn.
pub record Identifier (draws : List (Result Fault Text)) (id : Text) : Type 0 where
  pub bytes : Text
  pub drawn : Memᴰ (ok bytes) draws
  pub digits : length id ≡ 24
  pub hex : All IsHexDigit id
  pub no_number : atoi id ≡ none
  pub read_back : decode_string id ≡ some bytes

later :
    (d : Result Fault Text) (draws : List (Result Fault Text)) (id : Text)
    → Identifier draws id
    → Identifier (d ∷ draws) id
later d draws id i = record {
  bytes = i.bytes;
  drawn = Memᴰ.tail i.drawn;
  digits = i.digits;
  hex = i.hex;
  no_number = i.no_number;
  read_back = i.read_back;
}

at_once :
    (b : Text) (draws : List (Result Fault Text))
    → Filled (ok b)
    → atoi (encode_to_string b) ≡ none
    → Identifier (ok b ∷ draws) (encode_to_string b)
at_once b draws f e = record {
  bytes = b;
  drawn = Memᴰ.head refl;
  digits = omega (arith, length-encode b, f.0);
  hex = encode-IsHexDigit b f.1;
  no_number = e;
  read_back = decode-encode b f.1;
}

-- Where each draw that does not fail fills twelve bytes, what New returns is 24 digits, 0 to 9 and a to f,
-- that strconv.ParseInt does not take for a number, and which, decoded, are bytes that were drawn.
pub new_id-Identifier :
    (draws : List (Result Fault Text)) (id : Text)
    → All Filled draws
    → new_id draws ≡ returns id
    → Identifier draws id
unfolding new_id
new_id-Identifier [] id f h = cc
new_id-Identifier (err e ∷ draws) id f h = cc
new_id-Identifier (ok b ∷ draws) id f h = elim (Option-cases (atoi (encode_to_string b))) [
  | inl e ↦
      let same : encode_to_string b ≡ id = ground arith in
      subst (Identifier (ok b ∷ draws)) same (at_once b draws f.0 e)
  | inr (n, e) ↦ later (ok b) draws id (new_id-Identifier draws id f.1 (ground arith))
]

-- A byte that is written with a letter.
abbrev pub HasLetter : Text → Type 0
HasLetter [] = ⊥
HasLetter (b ∷ bs) = ((10 ≤ b / 16) ⊎ (10 ≤ b % 16)) ⊎ HasLetter bs

digits_from-letter : (n : ℕ) (bs : Text) → HasLetter bs → digits_from n (encode_to_string bs) ≡ none
unfolding encode_to_string
digits_from-letter n [] h = absurd h
digits_from-letter n (b ∷ bs) (inl (inl h)) = ground arith
digits_from-letter n (b ∷ bs) (inl (inr h)) = ground arith
digits_from-letter n (b ∷ bs) (inr h) = ground (
  arith,
  digits_from-letter ((n * 10 + (hex_digit (b / 16) - 48)) * 10 + (hex_digit (b % 16) - 48)) bs h,
)

-- No sign stands in front.
atoi-unsigned : (c : ℕ) (cs : Text) → 48 ≤ c → digits_from 0 (c ∷ cs) ≡ none → atoi (c ∷ cs) ≡ none
unfolding atoi
atoi-unsigned c cs h e = ground arith

atoi-letter : (bs : Text) → All IsByte bs → HasLetter bs → atoi (encode_to_string bs) ≡ none
unfolding encode_to_string
atoi-letter [] a h = absurd h
atoi-letter (b ∷ bs) a h =
    atoi-unsigned (hex_digit (b / 16)) (hex_digit (b % 16) ∷ encode_to_string bs) (ground arith)
      (digits_from-letter 0 (b ∷ bs) h)

-- New returns at the latest when the bytes that it draws have a letter among their hexadecimal digits,
-- where no draw before has failed.
pub new_id-letter :
    (before : List Text) (b : Text) (rest : List (Result Fault Text))
    → All IsByte b
    → HasLetter b
    → (id : Text) × (new_id (map ok before ++ ok b ∷ rest) ≡ returns id)
unfolding new_id
new_id-letter [] b rest a l = (encode_to_string b, ground (arith, atoi-letter b a l))
new_id-letter (c ∷ before) b rest a l = elim (Option-cases (atoi (encode_to_string c))) [
  | inl e ↦ (encode_to_string c, ground arith)
  | inr (n, e) ↦ let (id, h) = new_id-letter before b rest a l in (id, ground arith)
]
