-- ===== src/Billing/Repository/InvoiceRows.antt =====
-- The rows of invoices (backend/internal/billing/repository.go).
use hamsa.Base.{
  ℕ, ◌/◌, Bool, true, false, ◌&&◌, ◌||◌, not, List, [], ◌∷◌, ◌++◌, Option, none, some, keep, find,
  exists, update_where, length, ltb, ◌==◌, if◌then◌else◌,
}
use hamsa.Base.Int.{ℤ, pos, ltb_ℤ}
use hamsa.Base.Int64.{add64}
use hamsa.Server.{
  not_calculable, pure, fail_if, ◌>>=◌, ◌>>◌, query, exec, exec?, first, transaction,
}
use hamsa.Billing.Model.{
  issued, InvoiceStatus, InvoiceNumber, draft_number, building_number, Invoice, InvoiceItem,
  InvoiceAdjustment, BillingDb,
}
use hamsa.Billing.Repository.PeriodRows.{Billing, is_calculated, find_period}
use hamsa.Billing.Repository.Outputs.{insert_item}

-- Invoices.

abbrev pub find_invoice : ℕ → BillingDb → Option Invoice
find_invoice id db = find (λ i. i.id == id) db.invoices

-- An invoice with its items and adjustments, in the order of their creation. The number of the unit and
-- the title of the period, which are read for display, are left out.
pub record InvoiceDetails : Type 0 where
  pub invoice : Invoice
  pub items : List InvoiceItem
  pub adjustments : List InvoiceAdjustment

unfoldable pub get_invoice : ℕ → Billing InvoiceDetails
get_invoice id = do
  inv ← first (find_invoice id)
  items ← query (λ db. keep (λ x. x.invoice_id == id) db.items)
  adjustments ← query (λ db. keep (λ a. a.invoice_id == id) db.adjustments)
  pure (record { invoice = inv; items = items; adjustments = adjustments })

abbrev is_draft_number : InvoiceNumber → Bool
is_draft_number (draft_number _) = true
is_draft_number _ = false

-- `... AND invoice_number NOT LIKE 'DRAFT-%'`
abbrev pub numbered : ℕ → BillingDb → ℕ
numbered building_id db =
    length (
      keep (λ i. i.building_id == building_id && not (is_draft_number i.invoice_number))
        db.invoices)

-- `Order("unit_id")`
abbrev insert_by_unit : Invoice → List Invoice → List Invoice
insert_by_unit i [] = i ∷ []
insert_by_unit i (x ∷ xs) = if ltb x.unit_id i.unit_id then x ∷ insert_by_unit i xs else i ∷ x ∷ xs

abbrev pub sort_by_unit : List Invoice → List Invoice
sort_by_unit [] = []
sort_by_unit (x ∷ xs) = insert_by_unit x (sort_by_unit xs)

abbrev pub stamp : InvoiceNumber → ℕ → Invoice → Invoice
stamp number now i = record i {
  invoice_number = number;
  issue_date = some (now / 86400);
  inputs_frozen_at = some now;
}

-- The trigger lets a number replace a placeholder, and nothing else.
abbrev pub number_invoice : ℕ → InvoiceNumber → ℕ → BillingDb → Option BillingDb
number_invoice id number now db =
    if exists (λ i. i.id == id && not (is_draft_number i.invoice_number)) db.invoices
    then none
    else some
        (record db { invoices = update_where (λ i. i.id == id) (stamp number now) db.invoices })

-- The loop that numbers the drafts.
unfoldable pub number_all : ℤ → ℕ → ℕ → List Invoice → Billing (Unit {0})
number_all seq year now [] = pure tt
number_all seq year now (i ∷ is) =
    exec? (number_invoice i.id (building_number year seq) now)
    >> number_all (add64 seq (pos 1)) year now is

abbrev pub mark_issued : ℕ → ℕ → BillingDb → BillingDb
mark_issued id now db = record db {
  periods =
      update_where (λ p. p.id == id) (λ p. record p { status = issued; issued_at = some now })
        db.periods;
}

unfoldable pub issue_invoices : ℕ → ℕ → ℕ → Billing (List Invoice)
unfolding number_all
issue_invoices period_id year now = transaction do
  p ← first (find_period period_id)
  fail_if (not (is_calculated p.status)) not_calculable
  count ← query (numbered p.building_id)
  drafts ← query (λ db. sort_by_unit (keep (λ i. i.period_id == period_id) db.invoices))
  number_all (add64 (pos count) (pos 1)) year now drafts
  exec (mark_issued period_id now)
  query (λ db. keep (λ i. i.period_id == period_id) db.invoices)

unfoldable pub set_invoice_status : ℕ → InvoiceStatus → Billing (Unit {0})
set_invoice_status id status = exec (λ db. record db {
  invoices = update_where (λ i. i.id == id) (λ i. record i { status = status }) db.invoices;
})

unfoldable pub create_adjustment : InvoiceAdjustment → InvoiceItem → Billing (Unit {0})
unfolding insert_item
create_adjustment adj item = transaction do
  exec (λ db. record db { adjustments = db.adjustments ++ adj ∷ [] })
  insert_item (record item { adjustment_id = some adj.id })

-- `normalizePage`
unfoldable normalize_page : ℤ → ℤ → ℤ × ℤ
normalize_page page size = (
  if ltb_ℤ page (pos 1) then pos 1 else page,
  if ltb_ℤ size (pos 1) || ltb_ℤ (pos 100) size then pos 20 else size,
)
