-- ===== src/Engine/Rat.antt =====
-- math/big's Rat as the engine uses it: a fraction that need not be in lowest terms. Every use
-- below (Quo on Num and Denom, Cmp, Sign) has the same result for equal fractions.
pub mod Fractions
use hamsa.Base.{
  ℕ, ◌+◌, ◌*◌, ◌/◌, ◌%◌, ◌-◌, ◌≡◌, ◌<◌, ◌≤◌, refl, ap, ◌∙◌, Bool, arith, if◌then◌else◌, ltb,
}
use hamsa.Base.Int.{
  ℤ, pos, negsuc, pos_part, neg_part, sub_ℕ, ◌+ℤ◌, ◌-ℤ◌, ◌*ℤ◌, ltb_ℤ, eqb_ℤ, pos-+ℤ, pos--ℤ, pos-*ℤ,
}

-- A fraction num / den with 0 < den.
pub record Rat : Type 0 where
  pub num : ℤ
  pub den : ℕ

-- `new(big.Rat).SetInt64(z)`
unfoldable pub set_int : ℤ → Rat
set_int z = record { num = z; den = 1 }

unfoldable pub add : Rat → Rat → Rat
add a b = record { num = a.num *ℤ pos b.den +ℤ b.num *ℤ pos a.den; den = a.den * b.den }

unfoldable pub sub : Rat → Rat → Rat
sub a b = record { num = a.num *ℤ pos b.den -ℤ b.num *ℤ pos a.den; den = a.den * b.den }

unfoldable pub mul : Rat → Rat → Rat
mul a b = record { num = a.num *ℤ b.num; den = a.den * b.den }

-- A denominator with the sign of a numerator.
abbrev signed_den : ℤ → ℕ → ℤ
signed_den (pos n) d = pos d
signed_den (negsuc n) d = sub_ℕ 0 d

-- Division; the engine never divides by zero.
unfoldable pub quo : Rat → Rat → Rat
quo a b = record {
  num = a.num *ℤ signed_den b.num b.den;
  den = a.den * (pos_part b.num + neg_part b.num);
}

unfoldable pub is_zero : Rat → Bool
is_zero a = eqb_ℤ a.num (pos 0)

-- `a.Cmp(b) < 0`
unfoldable pub less : Rat → Rat → Bool
less a b = ltb_ℤ (a.num *ℤ pos b.den) (b.num *ℤ pos a.den)

-- `new(big.Int).Quo(e.Num(), e.Denom())`, which truncates toward zero.
unfoldable pub truncate : Rat → ℤ
truncate a = elim a.num [ pos n ↦ pos (n / a.den) | negsuc n ↦ sub_ℕ 0 ((n + 1) / a.den) ]

-- A non-negative fraction.
abbrev pub frac : ℕ → ℕ → Rat
frac p s = record { num = pos p; den = s }
