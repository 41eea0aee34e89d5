-- ===== src/Engine/Rounding/Split.antt =====
-- Shares with one denominator, split into quotients and remainders (for engine.go, lines 268-290).
use hamsa.Base.{
  ℕ, suc, ◌+◌, ◌*◌, ◌/◌, ◌%◌, ◌^◌, ◌≤◌, ◌<◌, ◌≡◌, refl, ap, List, [], ◌∷◌, map, length, sum, arith,
}
use hamsa.Base.Int.{pos}
use hamsa.Base.Int64.{wrap64_lem}
use hamsa.Engine.Rat.{Rat, frac, truncate}
use hamsa.Engine.Rounding.{floor64, remainders}
use native.Mathlib.Nat.{div-add-mod, mod-lt, le_of_mul-le-mul_left}

module _ (s : ℕ) where
  abbrev pub fracs : List ℕ → List Rat
  fracs [] = []
  fracs (p ∷ ps) = frac p s ∷ fracs ps

  abbrev pub quots : List ℕ → List ℕ
  quots [] = []
  quots (p ∷ ps) = p / s ∷ quots ps

  abbrev pub mods : List ℕ → List ℕ
  mods [] = []
  mods (p ∷ ps) = p % s ∷ mods ps

pub sum-quots-mods : (s : ℕ) (ps : List ℕ) → sum ps ≡ s * sum (quots s ps) + sum (mods s ps)
sum-quots-mods s [] = omega arith
sum-quots-mods s (p ∷ ps) = omega (arith, sum-quots-mods s ps, div-add-mod p s)

pub sum-mods-le : (s : ℕ) (ps : List ℕ) → 0 < s → sum (mods s ps) ≤ s * length ps
sum-mods-le s [] h = omega arith
sum-mods-le s (p ∷ ps) h = omega (arith, sum-mods-le s ps h, mod-lt p {m = s} h)

pub length-quots : (s : ℕ) (ps : List ℕ) → length (quots s ps) ≡ length ps
length-quots s [] = refl
length-quots s (p ∷ ps) = ap suc (length-quots s ps)

-- The floors are computed with no wrap-around if their sum is in the range.
pub floor64-fracs :
    (s : ℕ) (ps : List ℕ)
    → sum (quots s ps) < 2 ^ 63
    → map floor64 (fracs s ps) ≡ map pos (quots s ps)
unfolding floor64 truncate
floor64-fracs s [] h = refl
floor64-fracs s (p ∷ ps) h =
    λ i. wrap64_lem (pos (p / s)) (omega arith, omega arith) i ∷ floor64-fracs s ps (omega arith) i

pub length-remainders : (i : ℕ) (es : List Rat) → length (remainders i es) ≡ length es
unfolding remainders
length-remainders i [] = refl
length-remainders i (e ∷ es) = ap suc (length-remainders (i + 1) es)

pub length-fracs : (s : ℕ) (ps : List ℕ) → length (fracs s ps) ≡ length ps
length-fracs s [] = refl
length-fracs s (p ∷ ps) = ap suc (length-fracs s ps)

-- What is left over after the floors, in units of 1 / s, fits the number of shares.
pub leftover_fits : (s t q m n : ℕ) → 0 < s → t * s ≡ s * q + m → m ≤ s * n → (q ≤ t) × (t ≤ q + n)
leftover_fits s t q m n h e k =
    (le_of_mul-le-mul_left {k = s} (omega arith) h, le_of_mul-le-mul_left {k = s} (omega arith) h)
