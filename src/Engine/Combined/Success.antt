-- ===== src/Engine/Combined/Success.antt =====
-- When `Calculate` returns a result (engine.go, lines 93-118).
use hamsa.Base.{
  ℕ, ◌^◌, ◌<◌, ◌≡◌, refl, ap, ◌∙◌, List, [], ◌∷◌, map, sum, All, arith, Option, some, none, false,
  if◌then◌else◌,
}
use hamsa.Base.Int.{ℤ, pos}
use hamsa.Base.Results.{ok, err}
use hamsa.Engine.Rat
use hamsa.Engine.Rat.{Rat}
use hamsa.Engine.Model.{
  Method, equal, per_occupant, per_area, fixed, specific_units, combined, other, CostItem,
  EngineUnit, ItemResult, non_positive_total, bad_weights,
}
use hamsa.Engine.Methods.{participants, rat_one, by_occupants, by_area, distribute}
use hamsa.Engine.Methods.Distribute.{Splits}
use hamsa.Engine.Methods.Success.{Weighs, distribute-succeeds}
use hamsa.Engine.Combined.{
  calculate, calculate_with, calculate_sub, calc_combined, has_bad_total, by_method, is_fixed,
}

-- What the three proportional methods count of a unit.
abbrev factor : Method → EngineUnit → Option ℤ
factor equal u = some (pos 1)
factor per_occupant u = some u.occupants
factor per_area u = some u.area_m2
factor _ u = none

-- The factor of every unit is the natural number that n gives.
abbrev Counts : Method → (EngineUnit → ℕ) → List EngineUnit → Type 0
Counts m n = All (λ u. factor m u ≡ some (pos (n u)))

no_factor :
    (m : Method) (n : EngineUnit → ℕ) (us : List EngineUnit)
    → ((u : EngineUnit) → factor m u ≡ none)
    → Counts m n us
    → 0 < sum (map n us)
    → ⊥
no_factor m n [] f c h = omega arith
no_factor m n (u ∷ us) f c h =
    let e : factor m u ≡ none = f u in let d : factor m u ≡ some (pos (n u)) = c.0 in cc

some_inj : (a b : ℤ) → some a ≡ some b → a ≡ b
some_inj a b h = cc

Counts-Weighs :
    (m : Method) (w : EngineUnit → Rat) (n : EngineUnit → ℕ) (us : List EngineUnit)
    → ((u : EngineUnit) (k : ℕ) → factor m u ≡ some (pos k) → w u ≡ Rat.set_int (pos k))
    → Counts m n us
    → Weighs w n us
Counts-Weighs m w n [] f c = tt
Counts-Weighs m w n (u ∷ us) f c = (f u (n u) c.0, Counts-Weighs m w n us f c.1)

module _ (item : CostItem) (units : List EngineUnit) (t : ℕ) (n : EngineUnit → ℕ) where
  abbrev els : List EngineUnit
  els = participants item units

  split_by :
      (m : Method) (w : EngineUnit → Rat)
      → ((u : EngineUnit) (k : ℕ) → factor m u ≡ some (pos k) → w u ≡ Rat.set_int (pos k))
      → item.total ≡ pos t
      → t < 2 ^ 63
      → Counts m n els
      → 0 < sum (map n els)
      → (r : ItemResult) × (distribute item.id item.total els w ≡ ok r) × Splits t r
  split_by m w f e b c h =
      let d = distribute-succeeds item.id t els w n (Counts-Weighs m w n els f c) h b in
      (d.0, ap (λ z. distribute item.id z els w) e ∙ d.1, d.2)

  by_method-succeeds :
      (m : Method)
      → item.total ≡ pos t
      → t < 2 ^ 63
      → Counts m n els
      → 0 < sum (map n els)
      → (r : ItemResult) × (by_method calc_combined m item units ≡ ok r) × Splits t r
  unfolding by_method rat_one by_occupants by_area
  by_method-succeeds equal e b c h =
      split_by equal rat_one (λ u k q. ap Rat.set_int (some_inj (pos 1) (pos k) q)) e b c h
  by_method-succeeds per_occupant e b c h =
      split_by per_occupant by_occupants (λ u k q. ap Rat.set_int (some_inj u.occupants (pos k) q))
        e b c h
  by_method-succeeds per_area e b c h =
      split_by per_area by_area (λ u k q. ap Rat.set_int (some_inj u.area_m2 (pos k) q)) e b c h
  by_method-succeeds fixed e b c h = absurd (no_factor fixed n els (λ _. refl) c h)
  by_method-succeeds specific_units e b c h =
      absurd (no_factor specific_units n els (λ _. refl) c h)
  by_method-succeeds combined e b c h = absurd (no_factor combined n els (λ _. refl) c h)
  by_method-succeeds other e b c h = absurd (no_factor other n els (λ _. refl) c h)

  not_fixed : (m : Method) → Counts m n els → 0 < sum (map n els) → is_fixed m ≡ false
  not_fixed fixed c h = absurd (no_factor fixed n els (λ _. refl) c h)
  not_fixed equal c h = refl
  not_fixed per_occupant c h = refl
  not_fixed per_area c h = refl
  not_fixed specific_units c h = refl
  not_fixed combined c h = refl
  not_fixed other c h = refl

good_total :
    (item : CostItem) (t : ℕ)
    → item.total ≡ pos t
    → 0 < t
    → is_fixed item.method ≡ false
    → has_bad_total item ≡ false
unfolding has_bad_total
good_total item t e h f = ground arith

-- For an equal, per-occupant or per-area item with a positive total in range, where the factor of each participant
-- is a natural number and not all are 0, `Calculate` returns a result: shares that are not
-- negative and add up to exactly the item's total, with the reconciliation flag set.
pub calculate-succeeds :
    (item : CostItem) (units : List EngineUnit) (t : ℕ) (n : EngineUnit → ℕ)
    → item.total ≡ pos t
    → 0 < t
    → t < 2 ^ 63
    → Counts item.method n (participants item units)
    → 0 < sum (map n (participants item units))
    → (r : ItemResult) × (calculate item units ≡ ok r) × Splits t r
unfolding calculate calculate_with
calculate-succeeds item units t n e p b c h =
    let d = by_method-succeeds item units t n item.method e b c h in
    (
      d.0,
      ap (λ z. if z then err non_positive_total else by_method calc_combined item.method item units)
            (good_total item t e p (not_fixed item units t n item.method c h))
          ∙ d.1,
      d.2,
    )

no_weights :
    (item : CostItem) (units : List EngineUnit)
    → item.combo_weights ≡ []
    → calc_combined item units ≡ err bad_weights
unfolding calc_combined
no_weights item units h = ground arith

same_switch :
    (m : Method) (item : CostItem) (units : List EngineUnit)
    → item.combo_weights ≡ []
    → by_method calc_combined m item units ≡ by_method (λ _ _. err bad_weights) m item units
unfolding by_method
same_switch combined item units h = no_weights item units h
same_switch equal item units h = refl
same_switch per_occupant item units h = refl
same_switch per_area item units h = refl
same_switch fixed item units h = refl
same_switch specific_units item units h = refl
same_switch other item units h = refl

-- On an item with no weights, `Calculate` is the version that the combined method calls for its components,
-- so cutting the recursion there changes no result.
calculate-calculate_sub :
    (item : CostItem) (units : List EngineUnit)
    → item.combo_weights ≡ []
    → calculate item units ≡ calculate_sub item units
unfolding calculate calculate_sub calculate_with
calculate-calculate_sub item units h =
    ap (λ r. if has_bad_total item then err non_positive_total else r)
      (same_switch item.method item units h)
