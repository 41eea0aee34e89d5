-- ===== src/Payment/Apply.antt =====
-- How money is applied to an invoice (backend/internal/payment/service.go, lines 150-172).
use hamsa.Base.{◌↔◌, subst, sym, ◌≡◌, ◌⊎◌, arith}
use hamsa.Base.Int.{ℤ, pos, ◌≤ℤ◌, ◌+ℤ◌, ◌-ℤ◌}
use hamsa.Base.Int64.{add64, add64_lem, sub64_lem, InInt64}
use hamsa.Billing.Model.{paid}
use hamsa.Payment.Model.{LedgerInvoice, effective}
use hamsa.Payment.Balance.{clamp}
use hamsa.Payment.Service.{PaymentApplication, apply_to_invoice, derive_status, min_ℤ}

-- The amounts that the tables allow: none is negative, and nothing overflows.
pub record InRange (inv : LedgerInvoice) (amount : ℤ) : Type 0 where
  pub amount_nonneg : pos 0 ≤ℤ amount
  pub paid_nonneg : pos 0 ≤ℤ inv.paid_amount
  pub debt_fits : InInt64 (effective inv -ℤ inv.paid_amount)
  pub paid_fits : InInt64 (inv.paid_amount +ℤ amount)

min-clamp :
    (a z : ℤ)
    → pos 0 ≤ℤ a
    → (pos 0 ≤ℤ min_ℤ a (clamp z))
      × (min_ℤ a (clamp z) ≤ℤ a)
      × (min_ℤ a (clamp z) ≤ℤ clamp z)
      × ((min_ℤ a (clamp z) ≡ a) ⊎ (min_ℤ a (clamp z) ≡ clamp z))
min-clamp a z h = (ground arith, ground arith, ground arith, ground arith)

sum_fits : (p a b : ℤ) → pos 0 ≤ℤ p → pos 0 ≤ℤ b → b ≤ℤ a → InInt64 (p +ℤ a) → InInt64 (p +ℤ b)
unfolding ◌+ℤ◌
sum_fits p a b h k l r = ground arith

derive_status-paid : (n e : ℤ) → (derive_status n e ≡ paid) ↔ (e ≤ℤ n)
derive_status-paid n e = ground arith

abbrev pub outstanding : LedgerInvoice → ℤ
outstanding inv = clamp (effective inv -ℤ inv.paid_amount)

-- What a payment makes of an invoice: `applied` counts, and the status follows the new sum.
abbrev pub Applies : LedgerInvoice → ℤ → PaymentApplication → Type 0
Applies inv amount app =
    (pos 0 ≤ℤ app.applied)
    × (app.applied ≤ℤ amount)
    × (app.applied ≤ℤ outstanding inv)
    × ((app.applied ≡ amount) ⊎ (app.applied ≡ outstanding inv))
    × (add64 inv.paid_amount app.applied ≡ inv.paid_amount +ℤ app.applied)
    × ((app.status ≡ paid) ↔ (effective inv ≤ℤ inv.paid_amount +ℤ app.applied))

-- For amounts in range, the part of a payment that counts is the smaller of the payment and the
-- debt that is left (0 where the invoice is overpaid), so that an invoice is never paid beyond what it
-- asks for; the new sum of its payments does not overflow, and the invoice is paid exactly
-- when that sum reaches the effective amount.
pub apply_to_invoice_lem :
    (inv : LedgerInvoice) (amount : ℤ)
    → InRange inv amount
    → Applies inv amount (apply_to_invoice inv amount)
unfolding apply_to_invoice
apply_to_invoice_lem inv amount r =
    let d = sub64_lem (effective inv) inv.paid_amount r.debt_fits in
    let m = min-clamp amount (effective inv -ℤ inv.paid_amount) r.amount_nonneg in
    let s =
      add64_lem inv.paid_amount (min_ℤ amount (outstanding inv))
        (sum_fits inv.paid_amount amount _ r.paid_nonneg m.0 m.1 r.paid_fits) in
    rw d (
      m.0,
      m.1,
      m.2,
      m.3,
      s,
      subst
          (λ z.
            (derive_status z (effective inv) ≡ paid)
            ↔ (effective inv ≤ℤ inv.paid_amount +ℤ min_ℤ amount (outstanding inv)))
          (sym s)
          (derive_status-paid (inv.paid_amount +ℤ min_ℤ amount (outstanding inv)) (effective inv)),
    )
