-- ===== src/Engine/Tests.antt =====
-- Examples for backend/internal/billing/engine: the engine by evaluation, and instances of its theorems.
use hamsa.Base.{arith, length, sum, ℕ, ◌≡◌, refl, Bool, true, false, List, [], ◌∷◌, map}
use hamsa.Base.Int.{ℤ, pos, pos_part}
use hamsa.Base.Results.{ok, Sound}
use hamsa.Engine.Model.{
  CostItem, EngineUnit, ItemResult, equal, Method, combined, fixed, per_area, ComboWeight,
}
use hamsa.Engine.Methods.{Outcome}
use hamsa.Engine.Rounding.{allocate_largest_remainder}
use hamsa.Engine.Rounding.Split.{fracs}
use hamsa.Engine.Rounding.Fair.{Near, allocate-Near}
use hamsa.Engine.Methods.Distribute.{Reconciles, Splits}
use hamsa.Engine.Combined.{calculate, calc_combined}
use hamsa.Engine.Combined.Sound.{Fits, calculate-Reconciles}
use hamsa.Engine.Combined.Success.{calculate-succeeds}

abbrev unit : ℕ → ℕ → ℕ → Bool → EngineUnit
unit i o a v = record { id = i; occupants = pos o; area_m2 = pos a; vacant = v }

abbrev item : Method → ℕ → List ComboWeight → CostItem
item m t ws = record {
  id = 7;
  total = pos t;
  method = m;
  fixed_amount_per_unit = pos 0;
  combo_weights = ws;
  include_vacant = false;
  unit_ids = [];
}

abbrev units : List EngineUnit
units = unit 3 2 80 false ∷ unit 1 1 60 false ∷ unit 2 4 60 false ∷ []

-- `calculate`, with all that it calls unfolded.
run : CostItem → List EngineUnit → Outcome ItemResult
unfolding calculate calc_combined hamsa.Engine.Rat.is_zero hamsa.Engine.Rat.add hamsa.Base.Int.◌+ℤ◌
    hamsa.Base.Int.◌*ℤ◌ hamsa.Engine.Rat.set_int hamsa.Engine.Rounding.allocate_largest_remainder
    hamsa.Base.Int64.sub64 hamsa.Base.Int.◌-ℤ◌ hamsa.Base.Int64.sum_from64 hamsa.Base.Int64.add64
    hamsa.Engine.Rat.truncate hamsa.Engine.Rat.mul hamsa.Engine.Rat.quo hamsa.Engine.Rounding.before
    hamsa.Engine.Rat.less hamsa.Engine.Rat.sub hamsa.Engine.Rounding.bump hamsa.Base.Int64.mul64
    hamsa.Base.Int64.wrap64
run = calculate

abbrev amounts : Outcome ItemResult → List ℤ
amounts (ok r) = map (λ s. s.rounded) r.shares
amounts _ = []

equal_of_three : amounts (run (item equal 100 []) units) ≡ pos 33 ∷ pos 33 ∷ pos 34 ∷ []
unfolding run
equal_of_three = refl

half_fixed_half_area :
    amounts (
      run
        (item combined 101 (
          record { method = fixed; weight = pos 50; fixed_amount_per_unit = pos 0 }
          ∷ record { method = per_area; weight = pos 50; fixed_amount_per_unit = pos 0 }
          ∷ []))
        units)
    ≡ pos 32 ∷ pos 32 ∷ pos 37 ∷ []
unfolding run
half_fixed_half_area = refl

abbrev mixed : CostItem
mixed = item combined 101 (
    record { method = fixed; weight = pos 50; fixed_amount_per_unit = pos 0 }
    ∷ record { method = per_area; weight = pos 50; fixed_amount_per_unit = pos 0 }
    ∷ [])

mixed-Fits : Fits mixed units
unfolding hamsa.Engine.Methods.participants
mixed-Fits = record {
  factors = ((refl, refl), ((refl, refl), ((refl, refl), tt)));
  total_fits = omega arith;
  weights_fit = omega arith;
  fixed_fits = omega arith;
}

calculate-Reconciles_example : Sound Reconciles (calculate mixed units)
calculate-Reconciles_example = calculate-Reconciles mixed units mixed-Fits

calculate-succeeds_example :
    (r : ItemResult) × (calculate (item per_area 100 []) units ≡ ok r) × Splits 100 r
unfolding hamsa.Engine.Methods.participants
calculate-succeeds_example =
    calculate-succeeds (item per_area 100 []) units 100 (λ u. pos_part u.area_m2) refl (omega arith)
      (omega arith) (refl, (refl, (refl, tt))) (omega arith)

allocate-Near_example :
    (rs : List ℕ) × (allocate_largest_remainder (pos 100) (fracs 3 (100 ∷ 100 ∷ 100 ∷ []))
      ≡ ok (map pos rs))
    × (length rs ≡ 3)
    × (sum rs ≡ 100)
    × Near 3 (100 ∷ 100 ∷ 100 ∷ []) rs
allocate-Near_example =
    allocate-Near 3 100 (100 ∷ 100 ∷ 100 ∷ []) (omega arith) (omega arith) (omega arith)
