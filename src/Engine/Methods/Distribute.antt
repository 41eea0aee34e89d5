-- ===== src/Engine/Methods/Distribute.antt =====
-- Lemmas on `distribute` (engine.go, lines 236-266).
use hamsa.Base.{
  ℕ, suc, ◌+◌, ◌*◌, ◌^◌, ◌<◌, ◌≡◌, refl, ap, ◌∙◌, sym, List, [], ◌∷◌, map, length, sum, All, arith,
  true, false, if◌then◌else◌, subst,
}
use native.Mathlib.Decide.{ℕ_discrete}
use hamsa.Base.Int.{ℤ, pos, neg_part}
use hamsa.Base.Results.{Sound, ok, err, ◌>>=◌}
use hamsa.Engine.Rat
use hamsa.Engine.Rat.{Rat}
use hamsa.Engine.Rat.Fractions.{ints, foldl-add, mul-quo}
use hamsa.Engine.Model.{EngineUnit, Share, ItemResult, zero_factor}
use hamsa.Engine.Rounding.{allocate_largest_remainder}
use hamsa.Engine.Rounding.Split.{fracs, length-fracs}
use hamsa.Engine.Rounding.Totals.{rounded, sum-rounded, allocate-rounded, length-rounded}
use hamsa.Engine.Methods.{
  Outcome, sort_shares, sum_shares_from, make_shares, sum_weights, exact_shares, close_item,
  distribute, distribute_by,
}
use hamsa.Engine.Methods.Shares.{
  AreNonneg, total, sum_shares_from-total, total-sort_shares, All-sort_shares,
  make_shares-AreNonneg, total-make_shares,
}

-- The shares are natural numbers, they add up to the total, and the result says so.
pub record Reconciles (r : ItemResult) : Type 0 where
  pub nonneg : AreNonneg r.shares
  pub exact : pos (total r.shares) ≡ r.total_used
  pub flagged : r.reconciled ≡ true

-- A reconciled result for the total t.
abbrev pub Splits : ℕ → ItemResult → Type 0
Splits t r = Reconciles r × (r.total_used ≡ pos t)

abbrev pub times : ℕ → List ℕ → List ℕ
times t [] = []
times t (w ∷ ws) = t * w ∷ times t ws

pub sum-times : (t : ℕ) (ws : List ℕ) → sum (times t ws) ≡ t * sum ws
sum-times t [] = omega arith
sum-times t (w ∷ ws) = omega (arith, sum-times t ws)

pub length-times : (t : ℕ) (ws : List ℕ) → length (times t ws) ≡ length ws
length-times t [] = refl
length-times t (w ∷ ws) = ap suc (length-times t ws)

sum_weights-ints : (ws : List ℕ) → sum_weights (ints ws) ≡ Rat.set_int (pos (sum ws))
unfolding sum_weights
sum_weights-ints ws = foldl-add 0 ws ∙ ap (λ n. Rat.set_int (pos n)) (omega arith)

map-mul-quo :
    (t s : ℕ) (ws : List ℕ)
    → map (λ w. Rat.mul (Rat.set_int (pos t)) (Rat.quo w (Rat.set_int (pos s)))) (ints ws)
      ≡ fracs s (times t ws)
map-mul-quo t s [] = refl
map-mul-quo t s (w ∷ ws) = λ i. mul-quo t w s i ∷ map-mul-quo t s ws i

exact_shares-fracs :
    (t : ℕ) (ws : List ℕ) → exact_shares (pos t) (ints ws) ≡ fracs (sum ws) (times t ws)
unfolding exact_shares
exact_shares-fracs t ws =
    ap (λ z. map (λ w. Rat.mul (Rat.set_int (pos t)) (Rat.quo w z)) (ints ws)) (sum_weights-ints ws)
    ∙ map-mul-quo t (sum ws) ws

sum_sorted :
    (t : ℕ) (ss : List Share)
    → AreNonneg ss
    → total ss ≡ t
    → t < 2 ^ 63
    → sum_shares_from (pos 0) (sort_shares ss) ≡ pos t
sum_sorted t ss n e b =
    sum_shares_from-total 0 (sort_shares ss) (All-sort_shares (λ s. neg_part s.rounded ≡ 0) ss n)
      (omega (arith, total-sort_shares ss))
    ∙ (let q : 0 + total (sort_shares ss) ≡ t = omega (arith, total-sort_shares ss) in ap pos q)

-- The result closes with the flag set, if the shares add up.
pub close_item-Splits :
    (id t : ℕ) (ss : List Share)
    → AreNonneg ss
    → total ss ≡ t
    → t < 2 ^ 63
    → Splits t (close_item id (pos t) ss)
unfolding close_item
close_item-Splits id t ss n e b = (
  record {
    nonneg = All-sort_shares (λ s. neg_part s.rounded ≡ 0) ss n;
    exact = ap pos (total-sort_shares ss ∙ e);
    flagged = rw (sum_sorted t ss n e b) (ground arith);
  },
  refl,
)

is_zero_pos : (ws : List ℕ) → 0 < sum ws → Rat.is_zero (sum_weights (ints ws)) ≡ false
unfolding Rat.is_zero Rat.set_int
is_zero_pos ws h = rw (sum_weights-ints ws) (ground arith)

is_zero_zero : (ws : List ℕ) → sum ws ≡ 0 → Rat.is_zero (sum_weights (ints ws)) ≡ true
unfolding Rat.is_zero Rat.set_int
is_zero_zero ws h = rw (sum_weights-ints ws) (ground arith)

module _ (id t : ℕ) (els : List EngineUnit) (ws : List ℕ) where
  abbrev pub exact_split : List Share
  exact_split =
      make_shares els (fracs (sum ws) (times t ws)) (map pos (rounded (sum ws) t (times t ws)))

  abbrev finish : List Rat → List ℤ → Outcome ItemResult
  finish es rs = ok (close_item id (pos t) (make_shares els es rs))

  -- With a positive sum of weights the division is defined, and nothing panics.
  pub distribute_by_pos :
      0 < sum ws
      → t < 2 ^ 63
      → distribute_by id (pos t) els (ints ws) ≡ ok (close_item id (pos t) exact_split)
  unfolding distribute_by
  distribute_by_pos h b =
      ap
        (λ z.
          if z
          then err zero_factor
          else (allocate_largest_remainder (pos t) (exact_shares (pos t) (ints ws))
              >>= finish (exact_shares (pos t) (ints ws))))
        (is_zero_pos ws h)
      ∙ ap (λ es. allocate_largest_remainder (pos t) es >>= finish es) (exact_shares-fracs t ws)
      ∙ ap (λ r. r >>= finish (fracs (sum ws) (times t ws)))
          (allocate-rounded (sum ws) t (times t ws) h (sum-times t ws) b)

  distribute_by_zero : sum ws ≡ 0 → distribute_by id (pos t) els (ints ws) ≡ err zero_factor
  unfolding distribute_by
  distribute_by_zero h =
      ap
        (λ z.
          if z
          then err zero_factor
          else (allocate_largest_remainder (pos t) (exact_shares (pos t) (ints ws))
              >>= finish (exact_shares (pos t) (ints ws))))
        (is_zero_zero ws h)

  pub total-exact_split : 0 < sum ws → length ws ≡ length els → total exact_split ≡ t
  total-exact_split h l =
      total-make_shares els (fracs (sum ws) (times t ws)) (rounded (sum ws) t (times t ws))
        (length-fracs (sum ws) (times t ws) ∙ length-times t ws ∙ l)
        (length-rounded (sum ws) t (times t ws) ∙ length-times t ws ∙ l)
      ∙ sum-rounded (sum ws) t (times t ws) h (sum-times t ws)

  distribute_by-Splits :
      length ws ≡ length els
      → t < 2 ^ 63
      → Sound (Splits t) (distribute_by id (pos t) els (ints ws))
  distribute_by-Splits l b = elim (ℕ_discrete (sum ws) 0) [
    | yes z ↦ rw (distribute_by_zero z) tt
    | no z ↦ rw (distribute_by_pos (omega arith) b) (
        close_item-Splits id t exact_split
          (make_shares-AreNonneg els (fracs (sum ws) (times t ws))
            (rounded (sum ws) t (times t ws)))
          (total-exact_split (omega arith) l) b)
  ]

-- A weight that is a natural number for every unit.
abbrev pub HasWeights : (EngineUnit → Rat) → List EngineUnit → Type 0
HasWeights weight = All (λ u. (n : ℕ) × (weight u ≡ Rat.set_int (pos n)))

weights : (weight : EngineUnit → Rat) (us : List EngineUnit) → HasWeights weight us → List ℕ
weights weight [] h = []
weights weight (u ∷ us) h = h.0.0 ∷ weights weight us h.1

length-weights :
    (weight : EngineUnit → Rat) (us : List EngineUnit) (h : HasWeights weight us)
    → length (weights weight us h) ≡ length us
unfolding weights
length-weights weight [] h = refl
length-weights weight (u ∷ us) h = ap suc (length-weights weight us h.1)

map-weights :
    (weight : EngineUnit → Rat) (us : List EngineUnit) (h : HasWeights weight us)
    → map weight us ≡ ints (weights weight us h)
unfolding weights
map-weights weight [] h = refl
map-weights weight (u ∷ us) h = λ i. h.0.1 i ∷ map-weights weight us h.1 i

-- A split of a non-negative total by natural weights is exact, or an error value.
pub distribute-Splits :
    (id t : ℕ) (els : List EngineUnit) (weight : EngineUnit → Rat)
    → HasWeights weight els
    → t < 2 ^ 63
    → Sound (Splits t) (distribute id (pos t) els weight)
unfolding distribute
distribute-Splits id t [] weight h b = tt
distribute-Splits id t (u ∷ us) weight h b =
    subst (λ ws. Sound (Splits t) (distribute_by id (pos t) (u ∷ us) ws))
      (sym (map-weights weight (u ∷ us) h))
      (distribute_by-Splits id t (u ∷ us) (weights weight (u ∷ us) h)
        (length-weights weight (u ∷ us) h) b)
