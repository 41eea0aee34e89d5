-- ===== src/Engine/Combined/Splits.antt =====
-- Lemmas on the simple methods and on one component of a combined item (engine.go, lines 93-215).
use hamsa.Base.{
  ℕ, ◌^◌, ◌<◌, ◌≡◌, refl, List, [], ◌∷◌, All, arith, false, Bool-cases, inl, inr, Bool, keep,
  is_empty, not, ◌&&◌,
}
use hamsa.Base.Int.{ℤ, pos, negsuc, neg_part}
use hamsa.Base.Results.{err, Sound, if-Sound}
use hamsa.Engine.Rat
use hamsa.Engine.Rat.{Rat}
use hamsa.Engine.Model.{
  Method, equal, per_occupant, per_area, fixed, specific_units, combined, other, ComboWeight,
  CostItem, EngineUnit, ItemResult, bad_weights,
}
use hamsa.Engine.Methods.{
  Outcome, participants, selected, rat_one, by_occupants, by_area, calc_specific,
}
use hamsa.Engine.Methods.Distribute.{Splits, HasWeights, distribute-Splits}
use hamsa.Engine.Combined.{
  is_fixed, has_bad_total, by_method, calculate_with, calculate_sub, sub_item, calc_pool,
}

-- Occupant counts and areas are not negative (the database checks both columns).
abbrev pub HasFactors : EngineUnit → Type 0
HasFactors u = (neg_part u.occupants ≡ 0) × (neg_part u.area_m2 ≡ 0)

All-keep :
    (P : EngineUnit → Type 0) (p : EngineUnit → Bool) (us : List EngineUnit)
    → All P us
    → All P (keep p us)
All-keep P p [] h = tt
All-keep P p (u ∷ us) h = elim (Bool-cases (p u)) [
  | inl e ↦ rw e (h.0, All-keep P p us h.1)
  | inr e ↦ rw e (All-keep P p us h.1)
]

All-participants :
    (P : EngineUnit → Type 0) (item : CostItem) (us : List EngineUnit)
    → All P us
    → All P (participants item us)
unfolding participants
All-participants P item us h = All-keep P (λ u. not (u.vacant && not item.include_vacant)) us h

nat : (z : ℤ) → neg_part z ≡ 0 → (n : ℕ) × (Rat.set_int z ≡ Rat.set_int (pos n))
nat (pos n) h = (n, refl)
nat (negsuc n) h = absurd (omega arith)

rat_one-HasWeights : (us : List EngineUnit) → HasWeights rat_one us
unfolding rat_one
rat_one-HasWeights [] = tt
rat_one-HasWeights (u ∷ us) = ((1, refl), rat_one-HasWeights us)

by_occupants-HasWeights : (us : List EngineUnit) → All HasFactors us → HasWeights by_occupants us
unfolding by_occupants
by_occupants-HasWeights [] h = tt
by_occupants-HasWeights (u ∷ us) h = (nat u.occupants h.0.0, by_occupants-HasWeights us h.1)

by_area-HasWeights : (us : List EngineUnit) → All HasFactors us → HasWeights by_area us
unfolding by_area
by_area-HasWeights [] h = tt
by_area-HasWeights (u ∷ us) h = (nat u.area_m2 h.0.1, by_area-HasWeights us h.1)

module _ (units : List EngineUnit) (h : All HasFactors units) (t : ℕ) (b : t < 2 ^ 63) where
  calc_specific-Splits :
      (item : CostItem) → item.total ≡ pos t → Sound (Splits t) (calc_specific item units)
  unfolding calc_specific
  calc_specific-Splits item e = rw e (
      if-Sound (Splits t) (is_empty item.unit_ids) _ _ (λ _. tt)
        (λ _.
          if-Sound (Splits t) (is_empty (selected item.unit_ids units)) _ _ (λ _. tt)
            (λ _.
              distribute-Splits item.id t (selected item.unit_ids units) rat_one
                (rat_one-HasWeights (selected item.unit_ids units)) b)))

  -- Every method but the fixed and the combined one splits the total.
  pub by_method-Splits :
      (rec : CostItem → List EngineUnit → Outcome ItemResult) (m : Method) (item : CostItem)
      → item.total ≡ pos t
      → is_fixed m ≡ false
      → Sound (Splits t) (rec item units)
      → Sound (Splits t) (by_method rec m item units)
  unfolding by_method
  by_method-Splits rec equal item e f k = rw e (
      distribute-Splits item.id t (participants item units) rat_one
        (rat_one-HasWeights (participants item units)) b)
  by_method-Splits rec per_occupant item e f k = rw e (
      distribute-Splits item.id t (participants item units) by_occupants
        (by_occupants-HasWeights (participants item units)
          (All-participants HasFactors item units h))
        b)
  by_method-Splits rec per_area item e f k = rw e (
      distribute-Splits item.id t (participants item units) by_area
        (by_area-HasWeights (participants item units) (All-participants HasFactors item units h)) b)
  by_method-Splits rec fixed item e f k = cc
  by_method-Splits rec specific_units item e f k = calc_specific-Splits item e
  by_method-Splits rec combined item e f k = k
  by_method-Splits rec other item e f k = tt

  calculate_with-Splits :
      (rec : CostItem → List EngineUnit → Outcome ItemResult) (item : CostItem)
      → item.total ≡ pos t
      → is_fixed item.method ≡ false
      → Sound (Splits t) (rec item units)
      → Sound (Splits t) (calculate_with rec item units)
  unfolding calculate_with
  calculate_with-Splits rec item e f k =
      if-Sound (Splits t) (has_bad_total item) _ _ (λ _. tt)
        (λ _. by_method-Splits rec item.method item e f k)

  pub calc_pool-Splits :
      (item : CostItem) (w : ComboWeight) → Sound (Splits t) (calc_pool item units w (pos t))
  unfolding calc_pool calculate_sub
  calc_pool-Splits item w =
      if-Sound (Splits t) (is_fixed w.method) _ _
        (λ _.
          distribute-Splits item.id t (participants (sub_item item w (pos t)) units) rat_one
            (rat_one-HasWeights (participants (sub_item item w (pos t)) units)) b)
        (λ p.
          calculate_with-Splits (λ item units. err bad_weights) (sub_item item w (pos t)) refl p tt)
