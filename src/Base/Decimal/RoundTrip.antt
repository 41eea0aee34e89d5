-- ===== src/Base/Decimal/RoundTrip.antt =====
-- Reading back the decimal text of an int.
use Prim.Native.Nat.{ℕ, zero, suc, ◌+◌, ◌-◌, ◌*◌, ◌/◌, ◌%◌, ◌^◌, ◌≤◌, ◌<◌}
use mathlib.Core.Path.{◌≡◌, refl, sym, ap, ◌∙◌}
use mathlib.Core.Bool.{true}
use mathlib.Core.Option.{some}
use mathlib.Core.List.{[], ◌∷◌}
use native.Mathlib.Omega.{arith}
use hamsa.Base.Int.{ℤ, pos, negsuc}
use hamsa.Base.Text.{Text, text_eq}
use hamsa.Base.Decimal.Format.{
  digits_onto, print_ℕ, print_int, read_digits, read_ℕ, max_int, as_positive, as_negative, scan_int,
}

digit_read : (n : ℕ) → (n / 10) * 10 + (b'0' + n % 10 - b'0') ≡ n
digit_read n = omega arith

read-digits_onto :
    (fuel n : ℕ) (rest : Text)
    → n < 10 ^ suc fuel
    → read_digits 0 (digits_onto (suc fuel) n rest) ≡ read_digits n rest
read-digits_onto zero n rest h = ground arith
read-digits_onto (suc fuel) n rest h =
    let ih = read-digits_onto fuel (n / 10) ((b'0' + n % 10) ∷ rest) in
    ground (arith, digit_read n, ih)

-- The text begins with a digit.
starts-digits_onto :
    (fuel n : ℕ) (rest : Text)
    → read_ℕ (digits_onto (suc fuel) n rest) ≡ some (read_digits 0 (digits_onto (suc fuel) n rest))
starts-digits_onto zero n rest = ground arith
starts-digits_onto (suc fuel) n rest =
    let ih = starts-digits_onto fuel (n / 10) ((b'0' + n % 10) ∷ rest) in ground (arith, ih)

read-print_ℕ : (n : ℕ) → n < 10 ^ 20 → read_ℕ (print_ℕ n) ≡ some n
read-print_ℕ n h = starts-digits_onto 19 n [] ∙ ap some (read-digits_onto 19 n [] h)

scan-digits : (s : Text) (n : ℕ) → read_ℕ s ≡ some n → scan_int s ≡ as_positive (some n)
unfolding scan_int
scan-digits [] n h = ground arith
scan-digits (c ∷ cs) n h = ground arith

scan_minus : (s : Text) → scan_int (b'-' ∷ s) ≡ as_negative (read_ℕ s)
unfolding scan_int
scan_minus s = refl

-- An int of 64 bits.
abbrev pub FitsInt : ℤ → Type 0
FitsInt (pos n) = n ≤ max_int
FitsInt (negsuc n) = n ≤ max_int

small : (n : ℕ) → n ≤ max_int → n + 1 < 10 ^ 20
small n h = omega arith

scan_int-print_int : (z : ℤ) → FitsInt z → scan_int (print_int z) ≡ some z
unfolding print_int
scan_int-print_int (pos n) h =
    scan-digits (print_ℕ n) n (read-print_ℕ n (omega (arith, small n h))) ∙ in_range n h
  where
    in_range : (n : ℕ) → n ≤ max_int → as_positive (some n) ≡ some (pos n)
    in_range n h = ground arith
scan_int-print_int (negsuc n) h =
    scan_minus (print_ℕ (n + 1)) ∙ ap as_negative (read-print_ℕ (n + 1) (small n h)) ∙ ground arith

pub print_int_injective : (x y : ℤ) → FitsInt x → FitsInt y → print_int x ≡ print_int y → x ≡ y
print_int_injective x y h k e =
    some_inj (sym (scan_int-print_int x h) ∙ ap scan_int e ∙ scan_int-print_int y k)
  where
    some_inj : {a b : ℤ} → some a ≡ some b → a ≡ b
    some_inj p = ground arith

pub scan_int-FitsInt : (s : Text) (z : ℤ) → scan_int s ≡ some z → FitsInt z
unfolding scan_int
scan_int-FitsInt [] z h = ground arith
scan_int-FitsInt (c ∷ cs) z h = ground arith

pub text_eq_iff : (s t : Text) → text_eq s t ≡ true → s ≡ t
text_eq_iff [] [] h = refl
text_eq_iff [] (y ∷ t) h = ground arith
text_eq_iff (x ∷ s) [] h = ground arith
text_eq_iff (x ∷ s) (y ∷ t) h =
    let e : x ≡ y = ground arith in let r = text_eq_iff s t (ground arith) in λ i. e i ∷ r i

pub text_eq_refl : (s : Text) → text_eq s s ≡ true
text_eq_refl [] = refl
text_eq_refl (x ∷ s) = ground (arith, text_eq_refl s)
