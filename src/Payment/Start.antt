-- ===== src/Payment/Start.antt =====
-- The start of a gateway payment (backend/internal/payment/service.go, lines 278-332).
use hamsa.Base.{
  Bool-cases, inl, inr, if◌then◌else◌, arith, ◌≡◌, refl, ap, ◌∙◌, true, false, ◌++◌, [], ◌∷◌,
  Option, none, some, ℕ, ◌/◌,
}
use hamsa.Base.Int.{ℤ, pos, leb_ℤ}
use hamsa.Base.Int64.{sub64}
use hamsa.Server.{
  ApiError, World, ◌>>◌, ◌>>=◌, fail_if, conflict, invoice_cancelled, invoice_no_debt, new_id,
  time_now, pure, fail, bad_request, amount_invalid,
}
use hamsa.Server.Rules.{Ends, bind-Ends, imp-Ends, fail_if-Ends}
use hamsa.Payment.Model.{Payment, LedgerInvoice, PaymentDb, effective}
use hamsa.Payment.Balance.{Pay, clamp}
use hamsa.Payment.Service.{
  User, Gateway, authorized_invoice, ledger_row, is_void, gateway_amount, or_internal,
  gateway_payment, create_payment, start_gateway,
}
use hamsa.Payment.Books.{PWorld, authorized_invoice-Ends}
use hamsa.Payment.Callback.{is_pending}
use hamsa.Payment.Manual.{NoWrite}

abbrev with_payment : Payment → PaymentDb → PaymentDb
with_payment p db = record db { payments = db.payments ++ p ∷ [] }

-- The payment is pending, of a positive amount, and the last row of the payments.
abbrev Pending : LedgerInvoice → PaymentDb → Payment → PaymentDb → Type 0
Pending inv db p db' =
    (is_void inv.status ≡ false)
    × (leb_ℤ p.amount (pos 0) ≡ false)
    × (is_pending p ≡ true)
    × (p.invoice_id ≡ some inv.id)
    × (p.unit_id ≡ inv.unit_id)
    × (db' ≡ with_payment p db)

abbrev open_payment : Gateway → User → Option ℤ → LedgerInvoice → Pay Payment
open_payment gw u amount inv = do
  fail_if (is_void inv.status) (conflict invoice_cancelled)
  amt ← gateway_amount amount (clamp (sub64 (effective inv) inv.paid_amount))
  fail_if (leb_ℤ amt (pos 0)) (conflict invoice_no_debt)
  authority ← or_internal (gw.start amt)
  id ← new_id
  now ← time_now
  create_payment (gateway_payment id inv amt (now / 86400) authority u.id)
  pure (gateway_payment id inv amt (now / 86400) authority u.id)

abbrev with_amount : Gateway → User → LedgerInvoice → ℤ → Pay Payment
with_amount gw u inv amt = do
  fail_if (leb_ℤ amt (pos 0)) (conflict invoice_no_debt)
  authority ← or_internal (gw.start amt)
  id ← new_id
  now ← time_now
  create_payment (gateway_payment id inv amt (now / 86400) authority u.id)
  pure (gateway_payment id inv amt (now / 86400) authority u.id)

with_amount-Ends :
    (gw : Gateway) (u : User) (inv : LedgerInvoice) (amt : ℤ) (w : PWorld)
    → is_void inv.status ≡ false
    → Ends (λ p w'. Pending inv w.db p w'.db) (NoWrite w) (with_amount gw u inv amt w)
unfolding create_payment hamsa.Server.Monad.exec hamsa.Server.Monad.new_id
    hamsa.Server.Monad.time_now
with_amount-Ends gw u inv amt w v = go (gw.start amt)
  where
    go :
        (o : Option ℕ)
        → Ends
            (λ p w'. Pending inv w.db p w'.db)
            (NoWrite w)
            ((fail_if (leb_ℤ amt (pos 0)) (conflict invoice_no_debt)
                >> (or_internal o >>= λ authority. new_id >>= λ id. time_now >>= λ now.
                    create_payment (gateway_payment id inv amt (now / 86400) authority u.id)
                    >> pure (gateway_payment id inv amt (now / 86400) authority u.id)))
              w)
    go o = ground arith

from_requested :
    (gw : Gateway) (u : User) (inv : LedgerInvoice) (amount : Option ℤ) (outstanding : ℤ)
    (w : PWorld)
    → is_void inv.status ≡ false
    → Ends
        (λ p w'. Pending inv w.db p w'.db)
        (NoWrite w)
        ((gateway_amount amount outstanding >>= with_amount gw u inv) w)
from_requested gw u inv none outstanding w v = with_amount-Ends gw u inv outstanding w v
from_requested gw u inv (some a) outstanding w v = elim (Bool-cases (leb_ℤ a (pos 0))) [
  | inl e ↦ rw e refl
  | inr e ↦
      bind-Ends (λ p w'. Pending inv w.db p w'.db) (NoWrite w)
        (if leb_ℤ a (pos 0) then fail (bad_request amount_invalid) else pure a)
        (with_amount gw u inv) w (rw e (with_amount-Ends gw u inv a w v))
]

abbrev pub Started : ℕ → PWorld → Payment → PWorld → Type 0
Started id w p w' =
    (inv : LedgerInvoice) × (ledger_row id w.db ≡ some inv) × Pending inv w.db p w'.db

-- Whatever the gateway answers, starting a gateway payment does not panic. Where it succeeds, the stored invoice is
-- not cancelled, and the payment is for it, pending, of a positive amount, and the last row of the
-- payments, with nothing else changed. Otherwise the database is as it was.
pub start_gateway-Started :
    (gw : Gateway) (u : User) (id : ℕ) (amount : Option ℤ) (w : PWorld)
    → Ends (Started id w) (NoWrite w) (start_gateway gw u id amount w)
unfolding start_gateway
start_gateway-Started gw u id amount w =
    bind-Ends (Started id w) (NoWrite w) (authorized_invoice u id) (open_payment gw u amount) w (
      imp-Ends _ _ (λ inv w'. (ledger_row id w.db ≡ some inv) × (w'.db ≡ w.db) × (w'.now ≡ w.now))
        (λ _ w'. w'.db ≡ w.db) (authorized_invoice u id w) (authorized_invoice-Ends u id w)
        (λ inv w1 q.
          bind-Ends (Started id w) (NoWrite w)
            (fail_if (is_void inv.status) (conflict invoice_cancelled))
            (λ _.
              gateway_amount amount (clamp (sub64 (effective inv) inv.paid_amount))
              >>= with_amount gw u inv)
            w1
            (fail_if-Ends _ (NoWrite w) (is_void inv.status) (conflict invoice_cancelled) w1
              (λ v.
                imp-Ends _ _ (λ p w'. Pending inv w1.db p w'.db) (NoWrite w1) _
                  (from_requested gw u inv amount (clamp (sub64 (effective inv) inv.paid_amount)) w1
                    v)
                  (λ p w2 r. (inv, q.0, (r.0, r.1, r.2, r.3, r.4, r.5 ∙ ap (with_payment p) q.1)))
                  (λ _ _ e. e ∙ q.1))
              (λ _. q.1)))
        (λ _ _ e. e))
