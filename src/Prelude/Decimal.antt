-- ===== src/Prelude/Decimal.antt =====
-- Decimal numerals: the parts of strconv and fmt that the program uses.
use Prim.Native.Nat.{ℕ, zero, suc, ◌+◌, ◌-◌, ◌*◌, ◌/◌, ◌%◌}
use mathlib.Core.Bool.{◌&&◌}
use mathlib.Core.List.{[], ◌∷◌}
use mathlib.Core.Option.{Option, none, some}
use fireactions.Prelude.Tests.{ltb, leb, ◌==◌, if◌then◌else◌}
use fireactions.Prelude.Strings.{Text}
use fireactions.Prelude.Int.{ℤ, pos, negsuc}

-- strconv.Atoi: an optional sign and decimal digits, within the range of int64.
abbrev pub digits_from : ℕ → Text → Option ℕ
digits_from n [] = some n
digits_from n (c ∷ cs) =
    let rest = digits_from (n * 10 + (c - 48)) cs in if leb 48 c && leb c 57 then rest else none

abbrev pub parse_digits : Text → Option ℕ
parse_digits [] = none
parse_digits (c ∷ cs) = digits_from 0 (c ∷ cs)

abbrev negate : ℕ → ℤ
negate zero = pos zero
negate (suc n) = negsuc n

abbrev pub up_to : ℕ → (ℕ → ℤ) → Option ℕ → Option ℤ
up_to max f none = none
up_to max f (some n) = if leb n max then some (f n) else none

unfoldable pub atoi : Text → Option ℤ
atoi [] = none
atoi (c ∷ cs) =
    if c == 45
    then up_to 9223372036854775808 negate (parse_digits cs)
    else if c == 43
    then up_to 9223372036854775807 pos (parse_digits cs)
    else up_to 9223372036854775807 pos (parse_digits (c ∷ cs))

-- strconv.Itoa. A number has fewer digits than it counts, so that it is fuel enough for them.
abbrev print_from : ℕ → ℕ → Text → Text
print_from zero n done = (48 + n) ∷ done
print_from (suc fuel) n done =
    let rest = print_from fuel (n / 10) ((48 + n % 10) ∷ done) in
    if ltb n 10 then (48 + n) ∷ done else rest

abbrev pub itoa : ℤ → Text
itoa (pos n) = print_from n n []
itoa (negsuc n) = 45 ∷ print_from (suc n) (suc n) []
