-- ===== src/Payment/Revival.antt =====
-- Settling and cancelled invoices (backend/internal/payment/service.go, lines 378-395).
use hamsa.Base.{
  arith, ◌≡◌, refl, ap, ◌∙◌, false, ◌&&◌, ℕ, exists, ◌==◌, List, [], ◌∷◌, update_where,
}
use hamsa.Base.Int.{ℤ}
use hamsa.Base.Int64.{add64}
use hamsa.Server.{database}
use hamsa.Server.Rules.{Ends, imp-Ends}
use hamsa.Billing.Model.{Invoice, InvoiceStatus}
use hamsa.Payment.Model.{LedgerInvoice, effective}
use hamsa.Payment.Service.{settle_invoice, is_void, derive_status, apply_to_invoice}
use hamsa.Payment.Books.{PWorld, settled, settle_invoice-Ends}

derive_status-live : (n e : ℤ) → is_void (derive_status n e) ≡ false
derive_status-live n e = ground arith

applied-live :
    (inv : LedgerInvoice) (amount : ℤ) → is_void (apply_to_invoice inv amount).status ≡ false
unfolding apply_to_invoice
applied-live inv amount =
    derive_status-live (add64 inv.paid_amount (apply_to_invoice inv amount).applied) (effective inv)

set_paid-live :
    (id : ℕ) (n : ℤ) (s : InvoiceStatus) (is : List Invoice)
    → is_void s ≡ false
    → exists
        (λ i. i.id == id && is_void i.status)
        (update_where (λ i. i.id == id) (λ i. record i { paid_amount = n; status = s }) is)
      ≡ false
set_paid-live id n s [] h = refl
set_paid-live id n s (i ∷ is) h = ground (arith, set_paid-live id n s is h)

-- Settling a payment looks at no status of the invoice: where it succeeds, no row with the invoice's id is
-- cancelled, not even one that was cancelled before, and it fails only where the database does.
pub settle_invoice-revives :
    (inv : LedgerInvoice) (amount : ℤ) (w : PWorld)
    → Ends
        (λ _ w'. exists (λ i. i.id == inv.id && is_void i.status) w'.db.invoices ≡ false)
        (λ e _. e ≡ database)
        (settle_invoice inv amount w)
settle_invoice-revives inv amount w =
    imp-Ends _ _ (λ _ w'. w'.db ≡ settled inv amount w.now w.db) (λ e _. e ≡ database)
      (settle_invoice inv amount w) (settle_invoice-Ends inv amount w)
      (λ _ w' e.
        ap (λ d. exists (λ i. i.id == inv.id && is_void i.status) d.invoices) e
        ∙ set_paid-live inv.id _ _ w.db.invoices (applied-live inv amount))
      (λ _ _ e. e)
