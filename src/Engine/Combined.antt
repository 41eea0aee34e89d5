-- ===== src/Engine/Combined.antt =====
-- The combined method: a weighted mix of simple methods (engine.go, lines 169-232), and the
-- switch over the methods (lines 93-118).
pub mod Pools
pub mod Splits
pub mod Collected
pub mod Sound
pub mod Success
use hamsa.Base.{
  ℕ, ◌+◌, Bool, true, false, ◌&&◌, ◌||◌, not, List, [], ◌∷◌, map, is_empty, exists, ◌==◌,
  if◌then◌else◌,
}
use mathlib.Core.List.{foldl}
use hamsa.Base.Int.{ℤ, pos, leb_ℤ, eqb_ℤ}
use hamsa.Base.Int64.{add64}
use hamsa.Base.Results.{Result, ok, err, ◌>>=◌}
use hamsa.Engine.Rat
use hamsa.Engine.Rat.{Rat}
use hamsa.Engine.Model.{
  Method, equal, per_occupant, per_area, fixed, specific_units, combined, other, ComboWeight,
  CostItem, EngineUnit, Share, ItemResult, bad_weights, non_positive_total, unknown_method,
}
use hamsa.Engine.Rounding.{allocate_largest_remainder}
use hamsa.Engine.Methods.{
  Outcome, participants, sort_shares, sum_shares, distribute, rat_one, by_occupants, by_area,
  calc_fixed, calc_specific,
}

abbrev pub is_fixed : Method → Bool
is_fixed fixed = true
is_fixed _ = false

abbrev pub is_combined : Method → Bool
is_combined combined = true
is_combined _ = false

-- The two guards that stand before the switch of `Calculate`.
unfoldable pub has_bad_total : CostItem → Bool
has_bad_total item =
    (leb_ℤ item.total (pos 0) && not (is_fixed item.method))
    || (is_fixed item.method && leb_ℤ item.fixed_amount_per_unit (pos 0))

-- The switch of `Calculate`, where `calc_combined` stands for the call of `calcCombined`.
unfoldable pub by_method :
    (CostItem → List EngineUnit → Outcome ItemResult)
    → Method
    → CostItem
    → List EngineUnit
    → Outcome ItemResult
unfolding distribute participants rat_one by_occupants by_area calc_fixed calc_specific
by_method calc_combined equal item units =
    distribute item.id item.total (participants item units) rat_one
by_method calc_combined per_occupant item units =
    distribute item.id item.total (participants item units) by_occupants
by_method calc_combined per_area item units =
    distribute item.id item.total (participants item units) by_area
by_method calc_combined fixed item units = calc_fixed item units
by_method calc_combined specific_units item units = calc_specific item units
by_method calc_combined combined item units = calc_combined item units
by_method calc_combined other item units = err unknown_method

unfoldable pub calculate_with :
    (CostItem → List EngineUnit → Outcome ItemResult)
    → CostItem
    → List EngineUnit
    → Outcome ItemResult
unfolding has_bad_total by_method
calculate_with calc_combined item units =
    if has_bad_total item
    then err non_positive_total
    else by_method calc_combined item.method item units

-- `Calculate` on a sub-item. A sub-item has no weights, and without weights `calcCombined` returns
-- ErrBadWeights, so the recursion stops here.
unfoldable pub calculate_sub : CostItem → List EngineUnit → Outcome ItemResult
unfolding calculate_with
calculate_sub = calculate_with (λ item units. err bad_weights)

-- The loop that checks the weights and adds them up (Go's int has 64 bits).
unfoldable pub sum_combo_weights : ℤ → List ComboWeight → Outcome ℤ
sum_combo_weights acc [] = ok acc
sum_combo_weights acc (w ∷ ws) =
    if leb_ℤ w.weight (pos 0) || is_combined w.method
    then err bad_weights
    else sum_combo_weights (add64 acc w.weight) ws

-- `total * weight / 100`
unfoldable pub exact_pool : ℤ → ComboWeight → Rat
exact_pool total w =
    Rat.quo (Rat.mul (Rat.set_int total) (Rat.set_int w.weight)) (Rat.set_int (pos 100))

abbrev pub sub_item : CostItem → ComboWeight → ℤ → CostItem
sub_item item w pool = record {
  id = item.id;
  total = pool;
  method = w.method;
  fixed_amount_per_unit = w.fixed_amount_per_unit;
  combo_weights = [];
  include_vacant = item.include_vacant;
  unit_ids = [];
}

-- One component: a fixed one splits its pool equally, any other is calculated as an item.
unfoldable pub calc_pool : CostItem → List EngineUnit → ComboWeight → ℤ → Outcome ItemResult
unfolding distribute participants rat_one calculate_sub
calc_pool item units w pool =
    if is_fixed w.method
    then distribute item.id pool (participants (sub_item item w pool) units) rat_one
    else calculate_sub (sub_item item w pool) units

-- The map `perUnit`, as a list of shares with distinct unit ids.
unfoldable pub add_share : Share → List Share → List Share
add_share sh [] =
    record {
      unit_id = sh.unit_id;
      exact = Rat.add (Rat.set_int (pos 0)) sh.exact;
      rounded = add64 (pos 0) sh.rounded;
    }
    ∷ []
add_share sh (x ∷ xs) =
    if x.unit_id == sh.unit_id
    then record x { exact = Rat.add x.exact sh.exact; rounded = add64 x.rounded sh.rounded } ∷ xs
    else x ∷ add_share sh xs

unfoldable pub add_shares : List Share → List Share → List Share
unfolding add_share
add_shares [] acc = acc
add_shares (sh ∷ shs) acc = add_shares shs (add_share sh acc)

-- The loop over the components: the running sum and the shares so far.
unfoldable pub run_pools :
    CostItem
    → List EngineUnit
    → List ComboWeight
    → List ℤ
    → ℤ
    → List Share
    → Outcome (ℤ × List Share)
unfolding calc_pool sum_shares add_shares
run_pools item units (w ∷ ws) (p ∷ ps) running acc = do
  res ← calc_pool item units w p
  run_pools item units ws ps (add64 running (sum_shares res)) (add_shares res.shares acc)
run_pools item units _ _ running acc = ok (running, acc)

unfoldable pub combined_result : CostItem → ℤ × List Share → ItemResult
unfolding sort_shares
combined_result item (running, acc) = record {
  cost_item_id = item.id;
  total_used = item.total;
  shares = sort_shares acc;
  reconciled = eqb_ℤ running item.total;
}

-- What `calcCombined` does once the weights are valid.
unfoldable pub run_item : CostItem → List EngineUnit → Outcome ItemResult
unfolding exact_pool run_pools combined_result
run_item item units = do
  pools ← allocate_largest_remainder item.total (map (exact_pool item.total) item.combo_weights)
  out ← run_pools item units item.combo_weights pools (pos 0) []
  ok (combined_result item out)

unfoldable pub calc_combined : CostItem → List EngineUnit → Outcome ItemResult
unfolding sum_combo_weights run_item
calc_combined item units = if is_empty item.combo_weights then err bad_weights else do
  total_weight ← sum_combo_weights (pos 0) item.combo_weights
  if eqb_ℤ total_weight (pos 100) then run_item item units else err bad_weights

unfoldable pub calculate : CostItem → List EngineUnit → Outcome ItemResult
unfolding calculate_with calc_combined
calculate = calculate_with calc_combined
