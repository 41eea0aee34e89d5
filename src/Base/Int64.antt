-- ===== src/Base/Int64.antt =====
-- Go's int64 as an integer: a result outside the range wraps around.
use Prim.Native.Nat.{ℕ, ◌+◌, ◌-◌, ◌*◌, ◌%◌, ◌^◌, ◌≤◌, ◌<◌}
use mathlib.Core.Path.{◌≡◌, ap, ◌∙◌}
use mathlib.Core.List.{List, [], ◌∷◌, map}
use native.Mathlib.Omega.{arith}
use hamsa.Base.Tests.{ltb, if◌then◌else◌}
use hamsa.Base.Lists.{sum}
use hamsa.Base.Int.{ℤ, pos, negsuc, ◌+ℤ◌, ◌-ℤ◌, ◌*ℤ◌, pos-*ℤ, pos_part, neg_part}

-- The value whose bit pattern is m, for m below 2 ^ 64.
abbrev signed64 : ℕ → ℤ
signed64 m = if ltb m (2 ^ 63) then pos m else negsuc (2 ^ 64 - 1 - m)

unfoldable pub wrap64 : ℤ → ℤ
wrap64 (pos n) = signed64 (n % 2 ^ 64)
wrap64 (negsuc n) = signed64 (2 ^ 64 - 1 - n % 2 ^ 64)

-- `a + b`, `a - b` and `a * b` at type int64.
unfoldable pub add64 : ℤ → ℤ → ℤ
unfolding wrap64
add64 a b = wrap64 (a +ℤ b)

unfoldable pub sub64 : ℤ → ℤ → ℤ
unfolding wrap64
sub64 a b = wrap64 (a -ℤ b)

unfoldable pub mul64 : ℤ → ℤ → ℤ
unfolding wrap64
mul64 a b = wrap64 (a *ℤ b)

-- Inside the range nothing wraps.
abbrev pub InInt64 : ℤ → Type 0
InInt64 z = (pos_part z < 2 ^ 63) × (neg_part z ≤ 2 ^ 63)

pub wrap64_lem : (z : ℤ) → InInt64 z → wrap64 z ≡ z
unfolding wrap64
wrap64_lem (pos n) h = ground arith
wrap64_lem (negsuc n) h = ground arith

pub add64_lem : (a b : ℤ) → InInt64 (a +ℤ b) → add64 a b ≡ a +ℤ b
unfolding add64
add64_lem a b h = wrap64_lem (a +ℤ b) h

pub sub64_lem : (a b : ℤ) → InInt64 (a -ℤ b) → sub64 a b ≡ a -ℤ b
unfolding sub64
sub64_lem a b h = wrap64_lem (a -ℤ b) h

pub add64-pos : (a b : ℕ) → a + b < 2 ^ 63 → add64 (pos a) (pos b) ≡ pos (a + b)
unfolding add64 ◌+ℤ◌
add64-pos a b h = ground (arith, wrap64_lem (pos (a + b)))

pub sub64-pos : (a b : ℕ) → b ≤ a → a < 2 ^ 63 → sub64 (pos a) (pos b) ≡ pos (a - b)
unfolding sub64 ◌-ℤ◌
sub64-pos a b h k = ground (arith, wrap64_lem (pos (a - b)))

pub mul64-pos : (a b : ℕ) → a * b < 2 ^ 63 → mul64 (pos a) (pos b) ≡ pos (a * b)
unfolding mul64
mul64-pos a b h = ap wrap64 (pos-*ℤ a b) ∙ wrap64_lem (pos (a * b)) (h, omega arith)

-- `for _, x := range xs { acc += x }`
unfoldable pub sum_from64 : ℤ → List ℤ → ℤ
sum_from64 acc [] = acc
sum_from64 acc (x ∷ xs) = sum_from64 (add64 acc x) xs

pub sum_from64-pos :
    (acc : ℕ) (xs : List ℕ)
    → acc + sum xs < 2 ^ 63
    → sum_from64 (pos acc) (map pos xs) ≡ pos (acc + sum xs)
unfolding sum_from64
sum_from64-pos acc [] h = ap pos (omega arith)
sum_from64-pos acc (x ∷ xs) h =
    ap (λ z. sum_from64 z (map pos xs)) (add64-pos acc x (omega arith))
    ∙ sum_from64-pos (acc + x) xs (omega arith)
    ∙ ap pos (omega arith)
