-- ===== src/Billing/Tests.antt =====
-- Examples for backend/internal/billing: a building with one unit, and periods of all states.
use hamsa.Base.{ℕ, ◌≡◌, refl, ◌+◌, true, false, List, [], ◌∷◌, none, some}
use hamsa.Base.Int.{ℤ, pos}
use hamsa.Base.Results.{is_ok}
use hamsa.Engine.Model.{equal}
use hamsa.Server.{World, pure}
use hamsa.Server.Rules.{Ends}
use hamsa.Billing.Model.{
  PeriodStatus, draft, calculated, issued, no_fee, percent, BillingPeriod, BuildingUnit, Invoice,
  InvoiceItem, draft_number, unpaid, late_fee, fee_type,
}
use hamsa.Billing.Repository.{
  InvoiceWithItems, Billing, put_period, issue_invoices, replace_calculation,
}
use hamsa.Billing.Periods.{PeriodInput, create, update, close}
use hamsa.Billing.Calculation.{ChargeLine, make_invoice}
use hamsa.Billing.Lifecycle.{
  Unchanged, manages, Owned, Valid, Closed, create-Created, update-stays_draft, close-Closed,
  BWorld,
}
use hamsa.Billing.Items.{Added, add_cost_item-Added}
use hamsa.Billing.Cancellation.{Cancelled, cancel_invoice-Cancelled}
use hamsa.Billing.Periods.{CostItemInput, add_cost_item, cancel_invoice}
use hamsa.Billing.Issuance.{Issued, issue_invoices-Issued}
use hamsa.Billing.Replacement.{replace_calculation-has_alien, replace_calculation-has_frozen}
use hamsa.Billing.Invoicing.{Composed, make_invoice-Composed}
use hamsa.Base.{◌++◌}

abbrev period : ℕ → PeriodStatus → BillingPeriod
period id status = record {
  id = id;
  building_id = 1;
  title = "spring";
  start_date = 100;
  end_date = 130;
  due_date = 140;
  late_fee_type = no_fee;
  late_fee_value = record { num = pos 0; den = 1 };
  status = status;
  issued_at = none;
  closed_at = none;
}

abbrev invoice : ℕ → ℕ → ℕ → Invoice
invoice id period_id unit_id = record {
  id = id;
  invoice_number = draft_number id;
  building_id = 1;
  period_id = period_id;
  unit_id = unit_id;
  base_amount = pos 1000;
  prior_debt = pos 0;
  late_fee_amount = pos 0;
  credit_amount = pos 0;
  final_amount = pos 1000;
  issue_date = none;
  due_date = some 140;
  status = unpaid;
  paid_amount = pos 0;
  inputs_frozen_at = none;
}

abbrev world : BWorld
world = record {
  db = record {
    periods = period 3 calculated ∷ period 4 draft ∷ period 5 issued ∷ [];
    cost_items = [];
    shares = [];
    invoices = invoice 31 3 9 ∷ invoice 32 3 8 ∷ invoice 51 5 8 ∷ [];
    items = [];
    adjustments = [];
    units = [];
    grants = record { user_id = 9; building_id = 1 } ∷ [];
    occupant_counts = [];
    audit_log = [];
    notifications = [];
    residents = [];
  };
  faults = λ _. false;
  calls = 0;
  uuid = λ k. 100 + k;
  drawn = 0;
  now = 864000;
}

abbrev summer : PeriodInput
summer = record {
  title = "summer";
  start_date = 140;
  end_date = 170;
  due_date = 180;
  late_fee_type = percent;
  late_fee_value = record { num = pos 5; den = 1 };
}

abbrev unit : BuildingUnit
unit = record {
  id = 8;
  building_id = 1;
  number = "8";
  area_m2 = pos 70;
  vacant = false;
  deleted = false;
}

abbrev line : ChargeLine
line = record { unit_id = 8; item_id = 6; method = equal; amount = pos 400 }

abbrev no_balance : ℕ → Billing (ℤ × ℤ)
no_balance id = pure (pos 0, pos 0)

abbrev fee_row : InvoiceItem
fee_row = record {
  id = 71;
  invoice_id = 0;
  kind = late_fee;
  cost_item_id = none;
  amount = pos 50;
  method = some (fee_type percent);
  adjustment_id = none;
}

abbrev with_fee_row : List InvoiceWithItems
with_fee_row = record { invoice = invoice 41 4 8; items = fee_row ∷ [] } ∷ []

create-Created_example :
    Ends
      (λ p w'.
        (manages 9 1 world.db ≡ true)
        × Valid p
        × (p.status ≡ draft)
        × (p.building_id ≡ 1)
        × (w'.db ≡ record world.db { periods = world.db.periods ++ p ∷ [] }))
      (Unchanged world)
      (create 9 1 summer world)
create-Created_example = create-Created 9 1 summer world

update-stays_draft_example :
    Ends
      (λ r w'.
        Owned 9 4 world.db r.1
        × (r.1.status ≡ draft)
        × (r.0.status ≡ draft)
        × (r.0.id ≡ r.1.id)
        × Valid r.0
        × (w'.db ≡ put_period r.0 world.db))
      (Unchanged world)
      (update 9 4 summer world)
update-stays_draft_example = update-stays_draft 9 4 summer world

close-Closed_example : Ends (Closed 9 5 world) (Unchanged world) (close 9 5 world)
close-Closed_example = close-Closed 9 5 world

issue_invoices-Issued_example :
    Ends (Issued 3 2026 world) (Unchanged world) (issue_invoices 3 2026 864000 world)
issue_invoices-Issued_example = issue_invoices-Issued 3 2026 864000 world (refl, (refl, tt))

replace_calculation-has_alien_example :
    Ends (λ _ _. ⊥) (Unchanged world) (replace_calculation 4 [] with_fee_row world)
replace_calculation-has_alien_example = replace_calculation-has_alien 4 [] with_fee_row world refl

replace_calculation-has_frozen_example :
    Ends (λ _ _. ⊥) (Unchanged world) (replace_calculation 5 [] [] world)
replace_calculation-has_frozen_example = replace_calculation-has_frozen 5 [] [] world refl

make_invoice-Composed_example :
    Ends
      (λ x _. Composed (period 4 draft) (line ∷ []) unit x)
      (λ _ _. Unit {0})
      (make_invoice (λ r. r) no_balance (period 4 draft) (line ∷ []) unit world)
make_invoice-Composed_example =
    make_invoice-Composed (λ r. r) no_balance (period 4 draft) (line ∷ []) unit world (λ id w'. tt)

close_runs : is_ok (close 9 5 world).0 ≡ true
unfolding close hamsa.Billing.Periods.get_authorized_period hamsa.Billing.Repository.get_period
    hamsa.Billing.Periods.authorize_building hamsa.Billing.Repository.is_manager_of
    hamsa.Billing.Repository.save_period hamsa.Server.Monad.query hamsa.Server.Monad.first
    hamsa.Server.Monad.exec hamsa.Server.Monad.time_now
close_runs = refl

issue_invoices_runs : is_ok (issue_invoices 3 2026 864000 world).0 ≡ true
unfolding issue_invoices hamsa.Billing.Repository.number_all hamsa.Server.Monad.query
    hamsa.Server.Monad.first hamsa.Server.Monad.exec hamsa.Server.Monad.exec?
    hamsa.Server.Monad.transaction
issue_invoices_runs = refl

abbrev no_recompute : ℕ → Billing (Unit {0})
no_recompute id = pure tt

cancel_invoice-Cancelled_example :
    Ends (Cancelled 9 51 world) (Unchanged world) (cancel_invoice no_recompute 9 51 world)
cancel_invoice-Cancelled_example = cancel_invoice-Cancelled no_recompute 9 51 world (λ id w. refl)

abbrev cleaning : CostItemInput
cleaning = record {
  title = "cleaning";
  total_amount = pos 900;
  method = equal;
  fixed_amount_per_unit = pos 0;
  combo_weights = [];
  include_vacant = false;
  unit_ids = [];
}

add_cost_item-Added_example :
    Ends (Added 9 4 cleaning world) (Unchanged world) (add_cost_item 9 4 cleaning world)
add_cost_item-Added_example = add_cost_item-Added 9 4 cleaning world

add_cost_item_runs : is_ok (add_cost_item 9 4 cleaning world).0 ≡ true
unfolding add_cost_item hamsa.Billing.Periods.validate_cost_item
    hamsa.Billing.Repository.create_cost_item hamsa.Billing.Periods.get_authorized_period
    hamsa.Billing.Repository.get_period hamsa.Billing.Periods.authorize_building
    hamsa.Billing.Repository.is_manager_of hamsa.Server.Monad.query hamsa.Server.Monad.first
    hamsa.Server.Monad.exec hamsa.Server.Monad.new_id
add_cost_item_runs = refl

cancel_invoice_runs : is_ok (cancel_invoice no_recompute 9 51 world).0 ≡ true
unfolding cancel_invoice hamsa.Billing.Periods.authorized_invoice
    hamsa.Billing.Repository.get_invoice hamsa.Billing.Periods.authorize_building
    hamsa.Billing.Repository.is_manager_of hamsa.Billing.Repository.set_invoice_status
    hamsa.Billing.Periods.append_audit hamsa.Billing.Periods.recompute_balances
    hamsa.Server.Monad.query hamsa.Server.Monad.first hamsa.Server.Monad.exec
    hamsa.Server.Monad.best_effort
cancel_invoice_runs = refl
