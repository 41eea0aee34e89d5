-- ===== src/Base/Decimal/Format.antt =====
-- Integers and their decimal texts: `fmt.Sscanf` and `fmt.Sprintf` with `%d` on an int.
use Prim.Native.Nat.{ℕ, zero, suc, ◌+◌, ◌-◌, ◌*◌, ◌/◌, ◌%◌}
use mathlib.Core.Bool.{Bool, ◌&&◌}
use mathlib.Core.Option.{Option, none, some}
use mathlib.Core.List.{[], ◌∷◌}
use hamsa.Base.Tests.{leb, ltb, ◌==◌, if◌then◌else◌}
use hamsa.Base.Int.{ℤ, pos, negsuc}
use hamsa.Base.Text.{Text}

-- The digits of n in front of a text; a number has no more digits than the fuel.
abbrev pub digits_onto : ℕ → ℕ → Text → Text
digits_onto zero n rest = rest
digits_onto (suc fuel) n rest =
    let text = (b'0' + n % 10) ∷ rest in
    let more = digits_onto fuel (n / 10) text in if ltb n 10 then text else more

-- An int has at most 19 digits.
abbrev pub print_ℕ : ℕ → Text
print_ℕ n = digits_onto 20 n []

-- `fmt.Sprintf("%d", z)`
unfoldable pub print_int : ℤ → Text
print_int (pos n) = print_ℕ n
print_int (negsuc n) = b'-' ∷ print_ℕ (n + 1)

abbrev is_decimal : ℕ → Bool
is_decimal c = leb b'0' c && leb c b'9'

-- The longest run of digits in front, as a number.
abbrev pub read_digits : ℕ → Text → ℕ
read_digits acc [] = acc
read_digits acc (c ∷ cs) =
    let rest = read_digits (acc * 10 + (c - b'0')) cs in if is_decimal c then rest else acc

-- At least one digit.
abbrev pub read_ℕ : Text → Option ℕ
read_ℕ [] = none
read_ℕ (c ∷ cs) = if is_decimal c then some (read_digits 0 (c ∷ cs)) else none

abbrev pub max_int : ℕ
max_int = 9223372036854775807

abbrev pub as_positive : Option ℕ → Option ℤ
as_positive none = none
as_positive (some n) = if leb n max_int then some (pos n) else none

abbrev pub as_negative : Option ℕ → Option ℤ
as_negative none = none
as_negative (some zero) = some (pos 0)
as_negative (some (suc n)) = if leb n max_int then some (negsuc n) else none

-- `fmt.Sscanf(s, "%d", &n)` on a text with no space in front: a sign, then digits; what follows is
-- not read.
unfoldable pub scan_int : Text → Option ℤ
scan_int [] = none
scan_int (c ∷ cs) =
    if c == b'-'
    then as_negative (read_ℕ cs)
    else if c == b'+'
    then as_positive (read_ℕ cs)
    else as_positive (read_ℕ (c ∷ cs))
