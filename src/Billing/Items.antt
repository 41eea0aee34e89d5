-- ===== src/Billing/Items.antt =====
-- Theorems on cost items (backend/internal/billing/period_service.go, lines 217-314).
use hamsa.Base.{arith, ◌≡◌, refl, ap, ◌∙◌, true, false, not, ◌++◌, [], ◌∷◌, ℕ}
use hamsa.Server.{
  ApiError, World, ◌>>◌, ◌>>=◌, fail_if, conflict, period_not_draft, pure, new_id, exec,
}
use hamsa.Server.Rules.{Ends, bind-Ends, imp-Ends, fail_if-Ends, exec-Ends, guard_lem}
use hamsa.Engine.Model.{
  Method, equal, per_occupant, per_area, fixed, specific_units, combined, other,
}
use hamsa.Billing.Model.{BillingPeriod, CostItem, BillingDb}
use hamsa.Billing.Repository.{is_draft, create_cost_item, units_for_building}
use hamsa.Billing.Periods.{
  CostItemInput, add_cost_item, validate_cost_item, validate_method, empty_item, with_input,
}
use hamsa.Engine.Combined.{has_bad_total}
use hamsa.Billing.Calculation.{engine_item}
use hamsa.Billing.Lifecycle.{BWorld, Unchanged, Owned, with_period}

-- The item keeps its id, period, method and units, and its amount is one that the engine takes.
abbrev Validated : CostItem → CostItem → Type 0
Validated ci ci' =
    (ci'.id ≡ ci.id)
    × (ci'.period_id ≡ ci.period_id)
    × (ci'.method ≡ ci.method)
    × (ci'.unit_ids ≡ ci.unit_ids)
    × (has_bad_total (engine_item ci') ≡ false)

validate_method-Ends :
    (m : Method) (ci : CostItem) (input : CostItemInput) (building_id : ℕ) (w : BWorld)
    → ci.method ≡ m
    → Ends
        (λ ci' w'. Validated ci ci' × (w'.db ≡ w.db))
        (Unchanged w)
        (validate_method m ci input building_id w)
unfolding has_bad_total engine_item validate_method units_for_building hamsa.Server.Monad.query
validate_method-Ends equal ci input building_id w e = ground arith
validate_method-Ends per_occupant ci input building_id w e = ground arith
validate_method-Ends per_area ci input building_id w e = ground arith
validate_method-Ends fixed ci input building_id w e = ground arith
validate_method-Ends specific_units ci input building_id w e = ground arith
validate_method-Ends combined ci input building_id w e = ground arith
validate_method-Ends other ci input building_id w e = refl

abbrev with_item : CostItem → BillingDb → BillingDb
with_item ci db = record db { cost_items = db.cost_items ++ ci ∷ [] }

-- A draft of a building that the user manages has one more item.
abbrev pub Added : ℕ → ℕ → CostItemInput → BWorld → CostItem → BWorld → Type 0
Added manager period_id input w ci w' =
    (p : BillingPeriod) × Owned manager period_id w.db p
    × (is_draft p.status ≡ true)
    × (ci.period_id ≡ period_id)
    × (ci.method ≡ input.method)
    × (ci.unit_ids ≡ input.unit_ids)
    × (has_bad_total (engine_item ci) ≡ false)
    × (w'.db ≡ with_item ci w.db)

-- Adding a cost item does not panic. It succeeds only for a stored draft of a building that the user manages; the item
-- belongs to that period, has the method and the units of the input and an amount that the engine does not refuse as not
-- positive, and is the last row of the items, with nothing else changed. Otherwise the database is as it was.
pub add_cost_item-Added :
    (manager period_id : ℕ) (input : CostItemInput) (w : BWorld)
    → Ends (Added manager period_id input w) (Unchanged w) (add_cost_item manager period_id input w)
unfolding add_cost_item validate_cost_item create_cost_item hamsa.Server.Monad.new_id
add_cost_item-Added manager period_id input w =
    with_period (Added manager period_id input w) manager period_id w
      (λ p.
        fail_if (not (is_draft p.status)) (conflict period_not_draft)
        >> (new_id >>= λ id.
            validate_cost_item (empty_item id period_id) input p.building_id >>= λ ci.
            create_cost_item ci >> pure ci))
      (λ p w1 o d n.
        bind-Ends (Added manager period_id input w) (Unchanged w)
          (fail_if (not (is_draft p.status)) (conflict period_not_draft))
          (λ _. new_id >>= λ id.
            validate_cost_item (empty_item id period_id) input p.building_id >>= λ ci.
            create_cost_item ci >> pure ci)
          w1
          (fail_if-Ends _ (Unchanged w) (not (is_draft p.status)) (conflict period_not_draft) w1
            (λ h.
              bind-Ends (Added manager period_id input w) (Unchanged w)
                (validate_cost_item (empty_item (w1.uuid w1.drawn) period_id) input p.building_id)
                (λ ci. create_cost_item ci >> pure ci) _
                (imp-Ends _ _
                  (λ ci' w'.
                    Validated (with_input (empty_item (w1.uuid w1.drawn) period_id) input) ci'
                    × (w'.db ≡ w1.db))
                  (Unchanged w1) _
                  (validate_method-Ends input.method
                    (with_input (empty_item (w1.uuid w1.drawn) period_id) input) input p.building_id
                    _ refl)
                  (λ ci w2 q.
                    bind-Ends (Added manager period_id input w) (Unchanged w) (create_cost_item ci)
                      (λ _. pure ci) w2
                      (exec-Ends (λ _ w3. Added manager period_id input w ci w3) (Unchanged w)
                        (with_item ci) w2
                        (
                          p,
                          o,
                          guard_lem _ h,
                          q.0.1,
                          q.0.2,
                          q.0.3,
                          q.0.4,
                          ap (with_item ci) (q.1 ∙ d),
                        )
                        (q.1 ∙ d)))
                  (λ _ _ e. e ∙ d)))
            (λ _. d)))
