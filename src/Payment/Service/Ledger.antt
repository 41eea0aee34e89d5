-- ===== src/Payment/Service/Ledger.antt =====
-- The invoice reads and writes of backend/internal/payment/repository.go, lines 46-133 and 204-235,
-- and the application of money to an invoice (service.go).
use hamsa.Base.{
  ℕ, ◌&&◌, not, [], ◌∷◌, ◌++◌, Option, none, some, exists, keep, find, update_where, ◌==◌,
  if◌then◌else◌,
}
use hamsa.Base.Int.{ℤ, pos, ltb_ℤ, leb_ℤ}
use hamsa.Base.Int64.{add64, sub64}
use hamsa.Server.{record_not_found, fail_if, ◌>>=◌, ◌>>◌, query, exec, first}
use hamsa.Billing.Model.{InvoiceStatus, unpaid, partial, paid, Invoice}
use hamsa.Payment.Model.{Payment, LedgerInvoice, effective, PaymentDb}
use hamsa.Payment.Balance.{Pay, sum_of, is_debit, is_credit, clamp}

-- The invoice reads and writes of the repository (repository.go, lines 46-133 and 204-235).

abbrev ledger : PaymentDb → Invoice → LedgerInvoice
ledger db i = record {
  id = i.id;
  building_id = i.building_id;
  unit_id = i.unit_id;
  status = i.status;
  paid_amount = i.paid_amount;
  final_amount = i.final_amount;
  debit_adj =
      sum_of (λ a. a.amount) (keep (λ a. is_debit a.kind && a.invoice_id == i.id) db.adjustments);
  credit_adj =
      sum_of (λ a. a.amount) (keep (λ a. is_credit a.kind && a.invoice_id == i.id) db.adjustments);
}

abbrev pub ledger_row : ℕ → PaymentDb → Option LedgerInvoice
ledger_row id db = elim (find (λ i. i.id == id) db.invoices) [
  | none ↦ none
  | some i ↦ some (ledger db i)
]

-- The row lock orders transactions and has no other effect.
unfoldable pub invoice_for_update : ℕ → Pay LedgerInvoice
invoice_for_update id = do
  found ← query (λ db. exists (λ i. i.id == id) db.invoices)
  fail_if (not found) record_not_found
  first (ledger_row id)

abbrev pub set_paid : ℕ → ℤ → InvoiceStatus → PaymentDb → PaymentDb
set_paid id new_paid status db = record db {
  invoices =
      update_where (λ i. i.id == id) (λ i. record i { paid_amount = new_paid; status = status })
        db.invoices;
}

unfoldable pub apply_invoice_paid : ℕ → ℤ → InvoiceStatus → Pay (Unit {0})
apply_invoice_paid id new_paid status = exec (set_paid id new_paid status)

unfoldable pub create_payment : Payment → Pay (Unit {0})
create_payment p = exec (λ db. record db { payments = db.payments ++ p ∷ [] })

-- Applying money to an invoice.

pub record PaymentApplication : Type 0 where
  pub applied : ℤ
  pub status : InvoiceStatus

abbrev pub derive_status : ℤ → ℤ → InvoiceStatus
derive_status new_paid eff =
    if leb_ℤ eff new_paid then paid else if ltb_ℤ (pos 0) new_paid then partial else unpaid

abbrev pub min_ℤ : ℤ → ℤ → ℤ
min_ℤ a b = if ltb_ℤ b a then b else a

unfoldable pub apply_to_invoice : LedgerInvoice → ℤ → PaymentApplication
unfolding effective
apply_to_invoice inv amount =
    let eff = effective inv in
    let applied = min_ℤ amount (clamp (sub64 eff inv.paid_amount)) in
    record { applied = applied; status = derive_status (add64 inv.paid_amount applied) eff }
