-- ===== src/Billing/Repository/Outputs.antt =====
-- What a calculation writes (backend/internal/billing/repository.go).
use hamsa.Base.{
  ℕ, Bool, true, false, ◌&&◌, ◌||◌, not, List, [], ◌∷◌, ◌++◌, Option, none, some, keep, exists,
  ◌==◌, if◌then◌else◌,
}
use hamsa.Server.{◌>>◌, query, exec, exec?, transaction, for_each}
use hamsa.Engine.Model.{other}
use hamsa.Billing.Model.{
  ItemKind, adjustment, ItemMethod, cost_method, fee_type, fixed_fee, CostItemShare, Invoice,
  InvoiceItem, BillingDb,
}
use hamsa.Billing.Repository.PeriodRows.{Billing, is_frozen}

-- Calculation output.

pub record InvoiceWithItems : Type 0 where
  pub invoice : Invoice
  pub items : List InvoiceItem

abbrev item_in_period : ℕ → BillingDb → ℕ → Bool
item_in_period period_id db id = exists (λ c. c.id == id && c.period_id == period_id) db.cost_items

unfoldable pub delete_shares : ℕ → Billing (Unit {0})
delete_shares period_id = exec (λ db. record db {
  shares = keep (λ s. not (item_in_period period_id db s.cost_item_id)) db.shares;
})

abbrev pub period_is_frozen : ℕ → BillingDb → Bool
period_is_frozen id db = exists (λ p. p.id == id && is_frozen p.status) db.periods

abbrev invoice_in : List Invoice → ℕ → Bool
invoice_in invs id = exists (λ i. i.id == id) invs

-- `DELETE FROM invoices WHERE period_id = ?`, with the trigger that keeps issued invoices, and
-- the cascade to items and adjustments.
abbrev drop_invoices : ℕ → BillingDb → Option BillingDb
drop_invoices period_id db =
    let gone = keep (λ i. i.period_id == period_id) db.invoices in
    if exists (λ i. i.period_id == period_id) db.invoices && period_is_frozen period_id db
    then none
    else some (record db {
      invoices = keep (λ i. not (i.period_id == period_id)) db.invoices;
      items = keep (λ j. not (invoice_in gone j.invoice_id)) db.items;
      adjustments = keep (λ a. not (invoice_in gone a.invoice_id)) db.adjustments;
    })

unfoldable pub delete_invoices : ℕ → Billing (Unit {0})
delete_invoices period_id = exec? (drop_invoices period_id)

unfoldable pub insert_share : CostItemShare → Billing (Unit {0})
insert_share s = exec (λ db. record db { shares = db.shares ++ s ∷ [] })

unfoldable pub insert_invoice : Invoice → Billing (Unit {0})
insert_invoice i = exec (λ db. record db { invoices = db.invoices ++ i ∷ [] })

-- The column `method` has the type cost_method, which has the text "fixed" in common with the
-- fee types, and none of the others.
abbrev pub is_cost_method : Option ItemMethod → Bool
is_cost_method none = true
is_cost_method (some (cost_method other)) = false
is_cost_method (some (cost_method _)) = true
is_cost_method (some (fee_type fixed_fee)) = true
is_cost_method (some (fee_type _)) = false

abbrev is_adjustment : ItemKind → Bool
is_adjustment adjustment = true
is_adjustment _ = false

-- Once the period is issued, only adjustment items may be appended.
abbrev append_item : InvoiceItem → BillingDb → Option BillingDb
append_item j db =
    if not (is_cost_method j.method)
      || (not (is_adjustment j.kind)
          && exists (λ i. i.id == j.invoice_id && period_is_frozen i.period_id db) db.invoices)
    then none
    else some (record db { items = db.items ++ j ∷ [] })

unfoldable pub insert_item : InvoiceItem → Billing (Unit {0})
insert_item j = exec? (append_item j)

unfoldable pub insert_invoice_with_items : InvoiceWithItems → Billing (Unit {0})
unfolding insert_invoice insert_item
insert_invoice_with_items x = do
  insert_invoice x.invoice
  for_each (λ j. insert_item (record j { invoice_id = x.invoice.id })) x.items

unfoldable pub replace_calculation :
    ℕ → List CostItemShare → List InvoiceWithItems → Billing (Unit {0})
unfolding delete_shares delete_invoices insert_share insert_invoice_with_items
replace_calculation period_id shares invoices = transaction do
  delete_shares period_id
  delete_invoices period_id
  for_each insert_share shares
  for_each insert_invoice_with_items invoices

unfoldable pub discard_calculation : ℕ → Billing (Unit {0})
unfolding delete_shares delete_invoices
discard_calculation period_id = transaction do delete_shares period_id; delete_invoices period_id

unfoldable pub list_shares_for_period : ℕ → Billing (List CostItemShare)
list_shares_for_period period_id =
    query (λ db. keep (λ s. item_in_period period_id db s.cost_item_id) db.shares)
