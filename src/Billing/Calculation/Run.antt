-- ===== src/Billing/Calculation/Run.antt =====
-- The calculation of a period (backend/internal/billing/calc_service.go).
use hamsa.Base.{ℕ, ◌||◌, not, List, [], ◌∷◌, ◌++◌, none, some, keep, is_empty, ◌==◌}
use hamsa.Base.Int.{ℤ, pos}
use hamsa.Engine.Rat.{Rat}
use hamsa.Engine.Fees.{late_fee}
use hamsa.Server.{
  bad_request, conflict, period_not_calculable, period_no_items, building_no_units, pure, fail_if,
  ◌>>=◌, ◌>>◌, new_id,
}
use hamsa.Billing.Model.{calculated, unpaid, BillingPeriod, draft_number, BuildingUnit}
use hamsa.Billing.Repository.{
  Billing, is_draft, is_calculated, list_cost_items, units_for_building, InvoiceWithItems,
  replace_calculation, save_period,
}
use hamsa.Billing.Periods.{get_authorized_period}
use hamsa.Billing.Calculation.Snapshots.{from_engine, engine_fee, snapshot_units}
use hamsa.Billing.Calculation.Lines.{
  ChargeLine, run_items, base_amount, charge_items, fee_items, final_amount,
}

-- `snapshot` is the interface BalanceProvider: the prior debt and the credit of a unit.
module _ (percent_of : Rat → Rat) (snapshot : ℕ → Billing (ℤ × ℤ)) where
  -- The invoice of one unit.
  unfoldable pub make_invoice :
      BillingPeriod → List ChargeLine → BuildingUnit → Billing InvoiceWithItems
  unfolding base_amount charge_items fee_items final_amount late_fee
  make_invoice period lines u = do
    let mine = keep (λ l. l.unit_id == u.id) lines
    let base = base_amount (pos 0) mine
    charges ← charge_items mine
    (prior_debt, credit) ← snapshot u.id
    fee ←
        from_engine
          (late_fee percent_of (engine_fee period.late_fee_type) period.late_fee_value base (pos 0))
    id ← new_id
    number ← new_id
    fees ← fee_items period.late_fee_type fee
    pure (record {
      invoice = record {
        id = id;
        invoice_number = draft_number number;
        building_id = period.building_id;
        period_id = period.id;
        unit_id = u.id;
        base_amount = base;
        prior_debt = prior_debt;
        late_fee_amount = fee;
        credit_amount = credit;
        final_amount = final_amount base prior_debt fee credit;
        issue_date = none;
        due_date = some period.due_date;
        status = unpaid;
        paid_amount = pos 0;
        inputs_frozen_at = none;
      };
      items = charges ++ fees;
    })

  unfoldable make_invoices :
      BillingPeriod → List ChargeLine → List BuildingUnit → Billing (List InvoiceWithItems)
  unfolding make_invoice
  make_invoices period lines [] = pure []
  make_invoices period lines (u ∷ us) = do
    x ← make_invoice period lines u
    rest ← make_invoices period lines us
    pure (x ∷ rest)

  -- `Calculate`, up to the preview that it returns.
  unfoldable calculate_period : ℕ → ℕ → Billing (Unit {0})
  unfolding get_authorized_period snapshot_units run_items make_invoices
  calculate_period manager period_id = do
    period ← get_authorized_period manager period_id
    fail_if (not (is_draft period.status || is_calculated period.status))
        (conflict period_not_calculable)
    items ← list_cost_items period_id
    fail_if (is_empty items) (bad_request period_no_items)
    units ← units_for_building period.building_id
    fail_if (is_empty units) (bad_request building_no_units)
    engine_units ← snapshot_units period.end_date units
    (shares, lines) ← run_items engine_units items
    invoices ← make_invoices period lines units
    replace_calculation period_id shares invoices
    save_period (record period { status = calculated })
