-- ===== src/Engine/Combined/Sound.antt =====
-- What `Calculate` promises for every method (engine.go, lines 93-266).
use hamsa.Base.{
  ℕ, ◌*◌, ◌^◌, ◌<◌, ◌≡◌, refl, ap, ◌∙◌, sym, List, [], ◌∷◌, map, length, sum, All, arith, true,
  false, is_empty,
}
use hamsa.Base.Int.{ℤ, pos, negsuc, pos_part, neg_part, leb_ℤ}
use hamsa.Base.Int64.{mul64-pos}
use hamsa.Base.Results.{Sound, Sound-imp, if-Sound}
use hamsa.Engine.Model.{
  Method, equal, per_occupant, per_area, fixed, specific_units, combined, other, CostItem,
  EngineUnit,
}
use hamsa.Engine.Methods.{participants, calc_fixed, fixed_share}
use hamsa.Engine.Methods.Shares.{AreNonneg, total, total-sort_shares, All-sort_shares}
use hamsa.Engine.Methods.Distribute.{Reconciles, Splits}
use hamsa.Engine.Combined.{
  is_fixed, has_bad_total, by_method, calculate_with, calc_combined, calculate,
}
use hamsa.Engine.Combined.Pools.{nat_weights}
use hamsa.Engine.Combined.Splits.{HasFactors, by_method-Splits}
use hamsa.Engine.Combined.Collected.{calc_combined-Splits}

nonneg-fixed : (a : ℕ) (us : List EngineUnit) → AreNonneg (map (fixed_share (pos a)) us)
unfolding fixed_share
nonneg-fixed a [] = tt
nonneg-fixed a (u ∷ us) = (refl, nonneg-fixed a us)

total-fixed : (a : ℕ) (us : List EngineUnit) → total (map (fixed_share (pos a)) us) ≡ a * length us
unfolding fixed_share
total-fixed a [] = omega arith
total-fixed a (u ∷ us) = omega (arith, total-fixed a us)

calc_fixed-Reconciles :
    (item : CostItem) (units : List EngineUnit) (a : ℕ)
    → item.fixed_amount_per_unit ≡ pos a
    → a * length (participants item units) < 2 ^ 63
    → Sound Reconciles (calc_fixed item units)
unfolding calc_fixed
calc_fixed-Reconciles item units a e b =
    if-Sound Reconciles (is_empty (participants item units)) _ _ (λ _. tt)
      (λ _. rw e (record {
        nonneg =
            All-sort_shares (λ s. neg_part s.rounded ≡ 0)
              (map (fixed_share (pos a)) (participants item units))
              (nonneg-fixed a (participants item units));
        exact =
            ap pos (
              total-sort_shares (map (fixed_share (pos a)) (participants item units))
              ∙ total-fixed a (participants item units))
            ∙ sym (mul64-pos a (length (participants item units)) b);
        flagged = refl;
      }))

-- The bounds under which no int64 of a calculation wraps around.
pub record Fits (item : CostItem) (units : List EngineUnit) : Type 0 where
  pub factors : All HasFactors units
  pub total_fits : pos_part item.total < 2 ^ 63
  pub weights_fit : sum (nat_weights item.combo_weights) < 2 ^ 63
  pub fixed_fits : pos_part item.fixed_amount_per_unit * length (participants item units) < 2 ^ 63

positive_of : (z : ℤ) → leb_ℤ z (pos 0) ≡ false → z ≡ pos (pos_part z)
positive_of (pos n) h = refl
positive_of (negsuc n) h = ground arith

total_positive :
    (item : CostItem)
    → has_bad_total item ≡ false
    → is_fixed item.method ≡ false
    → leb_ℤ item.total (pos 0) ≡ false
unfolding has_bad_total
total_positive item p q = ground arith

fixed_positive :
    (item : CostItem)
    → has_bad_total item ≡ false
    → is_fixed item.method ≡ true
    → leb_ℤ item.fixed_amount_per_unit (pos 0) ≡ false
unfolding has_bad_total
fixed_positive item p q = ground arith

module _ (item : CostItem) (units : List EngineUnit) (f : Fits item units) where
  simple :
      is_fixed item.method ≡ false
      → has_bad_total item ≡ false
      → Sound Reconciles (by_method calc_combined item.method item units)
  simple q p =
      let e = positive_of item.total (total_positive item p q) in
      Sound-imp (Splits (pos_part item.total)) Reconciles _
        (by_method-Splits units f.factors (pos_part item.total) f.total_fits calc_combined
          item.method item e q
          (calc_combined-Splits units f.factors (pos_part item.total) f.total_fits item e
            f.weights_fit))
        (λ r k. k.0)

  by_method-Reconciles :
      (m : Method)
      → item.method ≡ m
      → has_bad_total item ≡ false
      → Sound Reconciles (by_method calc_combined item.method item units)
  unfolding by_method
  by_method-Reconciles fixed e p = rw e (
      calc_fixed-Reconciles item units (pos_part item.fixed_amount_per_unit)
        (positive_of item.fixed_amount_per_unit (fixed_positive item p (ap is_fixed e)))
        f.fixed_fits)
  by_method-Reconciles equal e p = simple (ap is_fixed e) p
  by_method-Reconciles per_occupant e p = simple (ap is_fixed e) p
  by_method-Reconciles per_area e p = simple (ap is_fixed e) p
  by_method-Reconciles specific_units e p = simple (ap is_fixed e) p
  by_method-Reconciles combined e p = simple (ap is_fixed e) p
  by_method-Reconciles other e p = simple (ap is_fixed e) p

-- For every item and all units whose occupant counts and areas are not negative, and whose total, weights and fixed
-- amounts fit in 64 bits, `Calculate` does not panic; it returns an error value, or
-- shares that are not negative, whose sum is exactly the amount that the result names as
-- distributed, with the reconciliation flag set.
pub calculate-Reconciles :
    (item : CostItem) (units : List EngineUnit)
    → Fits item units
    → Sound Reconciles (calculate item units)
unfolding calculate calculate_with
calculate-Reconciles item units f =
    if-Sound Reconciles (has_bad_total item) _ _ (λ _. tt)
      (λ p. by_method-Reconciles item units f item.method refl p)
