-- ===== src/Billing/Periods/CostItems.antt =====
-- The cost items of a draft period (period_service.go) and their validation.
use Prim.Native.String.{String}
use hamsa.Base.{
  ℕ, Bool, true, false, ◌&&◌, ◌||◌, not, List, [], ◌∷◌, Option, none, some, exists, keep, length,
  is_empty, ◌==◌, if◌then◌else◌,
}
use hamsa.Base.Int.{ℤ, pos, leb_ℤ, eqb_ℤ}
use hamsa.Base.Int64.{add64, mul64}
use hamsa.Engine.Model.{Method, fixed, specific_units, combined, other}
use hamsa.Engine.Combined.{is_combined}
use hamsa.Server.{
  bad_request, conflict, period_not_draft, item_amount_invalid, item_method_invalid, item_not_found,
  unit_not_in_building, specific_units_empty, bad_weights, pure, fail, fail_if, ◌>>=◌, ◌>>◌,
  map_error, or_not_found, new_id,
}
use hamsa.Billing.Model.{BillingPeriod, Weight, CostItem, BuildingUnit}
use hamsa.Billing.Repository.{
  Billing, is_draft, get_period, get_cost_item, create_cost_item, save_cost_item, delete_cost_item,
  units_for_building,
}
use hamsa.Billing.Periods.Access.{authorize_building, get_authorized_period}

pub record CostItemInput : Type 0 where
  pub title : String
  pub total_amount : ℤ
  pub method : Method
  pub fixed_amount_per_unit : ℤ
  pub combo_weights : List Weight
  pub include_vacant : Bool
  pub unit_ids : List ℕ

-- Cost items.

abbrev pub counts : Bool → BuildingUnit → Bool
counts include_vacant u = not (u.vacant && not include_vacant)

abbrev all_known : List BuildingUnit → List ℕ → Bool
all_known units [] = true
all_known units (id ∷ ids) = if exists (λ u. u.id == id) units then all_known units ids else false

-- The loop over the weights: their sum, or an invalid weight.
abbrev pub sum_weights : ℤ → List Weight → Option ℤ
sum_weights acc [] = some acc
sum_weights acc (w ∷ ws) =
    if leb_ℤ w.weight (pos 0) || is_combined w.method
    then none
    else sum_weights (add64 acc w.weight) ws

abbrev has_sum_100 : Option ℤ → Bool
has_sum_100 none = false
has_sum_100 (some z) = eqb_ℤ z (pos 100)

abbrev pub with_input : CostItem → CostItemInput → CostItem
with_input ci input = record ci {
  title = input.title;
  method = input.method;
  include_vacant = input.include_vacant;
  combo_weights = input.combo_weights;
  unit_ids = input.unit_ids;
}

abbrev with_total : CostItem → ℤ → CostItem
with_total ci total = record ci { total_amount = total; fixed_amount_per_unit = none }

-- The switch of `validateCostItem`.
unfoldable pub validate_method : Method → CostItem → CostItemInput → ℕ → Billing CostItem
validate_method fixed ci input building_id = do
  fail_if (leb_ℤ input.fixed_amount_per_unit (pos 0)) (bad_request item_amount_invalid)
  units ← units_for_building building_id
  pure (record ci {
    fixed_amount_per_unit = some input.fixed_amount_per_unit;
    total_amount =
        mul64 input.fixed_amount_per_unit (pos (length (keep (counts input.include_vacant) units)));
  })
validate_method specific_units ci input building_id = do
  fail_if (leb_ℤ input.total_amount (pos 0)) (bad_request item_amount_invalid)
  fail_if (is_empty input.unit_ids) (bad_request specific_units_empty)
  units ← units_for_building building_id
  fail_if (not (all_known units input.unit_ids)) (bad_request unit_not_in_building)
  pure (with_total ci input.total_amount)
validate_method combined ci input building_id = do
  fail_if (leb_ℤ input.total_amount (pos 0)) (bad_request item_amount_invalid)
  fail_if (is_empty input.combo_weights) (bad_request bad_weights)
  fail_if (not (has_sum_100 (sum_weights (pos 0) input.combo_weights))) (bad_request bad_weights)
  pure (with_total ci input.total_amount)
validate_method other ci input building_id = fail (bad_request item_method_invalid)
validate_method _ ci input building_id = do
  fail_if (leb_ℤ input.total_amount (pos 0)) (bad_request item_amount_invalid)
  pure (with_total ci input.total_amount)

unfoldable pub validate_cost_item : CostItem → CostItemInput → ℕ → Billing CostItem
unfolding validate_method
validate_cost_item ci input building_id =
    validate_method input.method (with_input ci input) input building_id

abbrev pub empty_item : ℕ → ℕ → CostItem
empty_item id period_id = record {
  id = id;
  period_id = period_id;
  title = "";
  total_amount = pos 0;
  method = other;
  fixed_amount_per_unit = none;
  combo_weights = [];
  include_vacant = false;
  unit_ids = [];
}

unfoldable pub add_cost_item : ℕ → ℕ → CostItemInput → Billing CostItem
unfolding get_authorized_period validate_cost_item
add_cost_item manager period_id input = do
  p ← get_authorized_period manager period_id
  fail_if (not (is_draft p.status)) (conflict period_not_draft)
  id ← new_id
  ci ← validate_cost_item (empty_item id period_id) input p.building_id
  create_cost_item ci
  pure ci

unfoldable authorized_cost_item : ℕ → ℕ → Billing (CostItem × BillingPeriod)
unfolding authorize_building
authorized_cost_item manager id = do
  ci ← map_error (or_not_found item_not_found) (get_cost_item id)
  p ← get_period ci.period_id
  authorize_building manager p.building_id
  pure (ci, p)

unfoldable update_cost_item : ℕ → ℕ → CostItemInput → Billing (CostItem × CostItem)
unfolding authorized_cost_item validate_cost_item
update_cost_item manager id input = do
  (ci, p) ← authorized_cost_item manager id
  fail_if (not (is_draft p.status)) (conflict period_not_draft)
  ci' ← validate_cost_item ci input p.building_id
  save_cost_item ci'
  pure (ci', ci)

unfoldable remove_cost_item : ℕ → ℕ → Billing (Unit {0})
unfolding authorized_cost_item
remove_cost_item manager id = do
  (ci, p) ← authorized_cost_item manager id
  fail_if (not (is_draft p.status)) (conflict period_not_draft)
  delete_cost_item ci.id
