-- ===== src/Payment/Statement.antt =====
-- What the parts of a balance are, as sums over the tables (backend/internal/payment/repository.go,
-- lines 256-320), apart from the order in which the code selects the rows.
use hamsa.Base.{
  arith, ◌≡◌, refl, Bool, true, false, ◌&&◌, ℕ, List, [], ◌∷◌, keep, exists, ◌==◌, if◌then◌else◌,
}
use hamsa.Base.Int.{ℤ, pos, ◌+ℤ◌, leb_ℤ, ◌≤ℤ◌}
use hamsa.Billing.Model.{
  Invoice, InvoiceAdjustment, InvoiceStatus, unpaid, partial, expired, cancelled, debit, credit,
  AdjustmentKind,
}
use hamsa.Payment.Model.{PaymentDb, Payment, PaymentStatus, verified}
use hamsa.Payment.Balance.{
  BalanceAggregates, balance_aggregates, sum_of, is_open, not_cancelled, is_verified, is_debit,
  is_credit, clamp,
}

-- f summed over the rows with the test.
abbrev total_if : {A : Type 0} → (A → Bool) → (A → ℤ) → List A → ℤ
total_if p f [] = pos 0
total_if p f (x ∷ xs) = if p x then f x +ℤ total_if p f xs else total_if p f xs

abbrev owes : InvoiceStatus → Bool
owes unpaid = true
owes partial = true
owes expired = true
owes _ = false

abbrev stands : InvoiceStatus → Bool
stands cancelled = false
stands _ = true

abbrev adds_debt : AdjustmentKind → Bool
adds_debt debit = true
adds_debt _ = false

abbrev takes_debt : AdjustmentKind → Bool
takes_debt credit = true
takes_debt _ = false

abbrev arrived : PaymentStatus → Bool
arrived verified = true
arrived _ = false

-- Over the open invoices of the unit.
abbrev pub open_total : ℕ → (Invoice → ℤ) → PaymentDb → ℤ
open_total u f db = total_if (λ i. i.unit_id == u && owes i.status) f db.invoices

-- Over the invoices of the unit that are not cancelled.
abbrev pub live_total : ℕ → (Invoice → ℤ) → PaymentDb → ℤ
live_total u f db = total_if (λ i. i.unit_id == u && stands i.status) f db.invoices

-- The adjustment belongs to an invoice of the unit that is not cancelled.
abbrev of_unit : ℕ → List Invoice → InvoiceAdjustment → Bool
of_unit u is a = exists (λ i. i.unit_id == u && stands i.status && i.id == a.invoice_id) is

abbrev pub debits : ℕ → PaymentDb → ℤ
debits u db =
    total_if (λ a. adds_debt a.kind && of_unit u db.invoices a) (λ a. a.amount) db.adjustments

abbrev pub credits : ℕ → PaymentDb → ℤ
credits u db =
    total_if (λ a. takes_debt a.kind && of_unit u db.invoices a) (λ a. a.amount) db.adjustments

-- The verified payments of the unit.
abbrev pub received : ℕ → PaymentDb → ℤ
received u db = total_if (λ p. p.unit_id == u && arrived p.status) (λ p. p.amount) db.payments

abbrev pub positive_part : ℤ → ℤ
positive_part z = if leb_ℤ (pos 0) z then z else pos 0

pub clamp-positive_part : (z : ℤ) → clamp z ≡ positive_part z
clamp-positive_part z = ground arith

pub positive_part-nonneg : (z : ℤ) → pos 0 ≤ℤ clamp z
positive_part-nonneg z = ground arith

module _ {A : Type 0} (p q : A → Bool) (f : A → ℤ) (same : (x : A) → p x ≡ q x) where
  sum_of-keep : (xs : List A) → sum_of f (keep p xs) ≡ total_if q f xs
  sum_of-keep [] = refl
  sum_of-keep (x ∷ xs) = ground (arith, same x, sum_of-keep xs)

-- The rows that are kept twice.
sum_of-keep-keep :
    {A : Type 0} (p q r : A → Bool) (f : A → ℤ)
    → ((x : A) → (p x && q x) ≡ r x)
    → (xs : List A) → sum_of f (keep q (keep p xs)) ≡ total_if r f xs
sum_of-keep-keep p q r f same [] = refl
sum_of-keep-keep p q r f same (x ∷ xs) = ground (arith, same x, sum_of-keep-keep p q r f same xs)

exists-live :
    (u id : ℕ) (is : List Invoice)
    → exists (λ i. i.id == id) (keep (λ i. i.unit_id == u && not_cancelled i.status) is)
      ≡ exists (λ i. i.unit_id == u && stands i.status && i.id == id) is
exists-live u id [] = refl
exists-live u id (i ∷ is) = ground (arith, exists-live u id is)

pub record Totals (u : ℕ) (db : PaymentDb) (agg : BalanceAggregates) : Type 0 where
  pub prior : agg.prior ≡ open_total u (λ i. i.prior_debt) db
  pub current : agg.current ≡ open_total u (λ i. i.base_amount) db
  pub late : agg.late ≡ open_total u (λ i. i.late_fee_amount) db
  pub paid : agg.paid ≡ open_total u (λ i. i.paid_amount) db
  pub credit : agg.credit ≡ open_total u (λ i. i.credit_amount) db
  pub debits : agg.debit_adj ≡ debits u db
  pub credits : agg.credit_adj ≡ credits u db
  pub received : agg.verified ≡ received u db
  pub absorbed_paid : agg.absorbed_paid ≡ live_total u (λ i. i.paid_amount) db
  pub absorbed_credit : agg.absorbed_credit ≡ live_total u (λ i. i.credit_amount) db

module _ (u : ℕ) (db : PaymentDb) where
  open_same :
      (i : Invoice)
      → ((i.unit_id == u && not_cancelled i.status) && is_open i.status)
        ≡ (i.unit_id == u && owes i.status)
  open_same i = ground arith

  live_same :
      (i : Invoice)
      → (i.unit_id == u && not_cancelled i.status) ≡ (i.unit_id == u && stands i.status)
  live_same i = ground arith

  open_sum :
      (f : Invoice → ℤ)
      → sum_of f (
          keep
            (λ i. is_open i.status)
            (keep (λ i. i.unit_id == u && not_cancelled i.status) db.invoices))
        ≡ open_total u f db
  open_sum f =
      sum_of-keep-keep (λ i. i.unit_id == u && not_cancelled i.status) (λ i. is_open i.status)
        (λ i. i.unit_id == u && owes i.status) f open_same db.invoices

  live_sum :
      (f : Invoice → ℤ)
      → sum_of f (keep (λ i. i.unit_id == u && not_cancelled i.status) db.invoices)
        ≡ live_total u f db
  live_sum f =
      sum_of-keep (λ i. i.unit_id == u && not_cancelled i.status)
        (λ i. i.unit_id == u && stands i.status) f live_same db.invoices

  debit_same :
      (a : InvoiceAdjustment)
      → (is_debit a.kind
          && exists
              (λ i. i.id == a.invoice_id)
              (keep (λ i. i.unit_id == u && not_cancelled i.status) db.invoices))
        ≡ (adds_debt a.kind && of_unit u db.invoices a)
  debit_same a = ground (arith, exists-live u a.invoice_id db.invoices)

  credit_same :
      (a : InvoiceAdjustment)
      → (is_credit a.kind
          && exists
              (λ i. i.id == a.invoice_id)
              (keep (λ i. i.unit_id == u && not_cancelled i.status) db.invoices))
        ≡ (takes_debt a.kind && of_unit u db.invoices a)
  credit_same a = ground (arith, exists-live u a.invoice_id db.invoices)

  paid_same :
      (p : Payment)
      → (p.unit_id == u && is_verified p.status) ≡ (p.unit_id == u && arrived p.status)
  paid_same p = ground arith

  pub balance_aggregates-Totals : Totals u db (balance_aggregates u db)
  unfolding balance_aggregates
  balance_aggregates-Totals = record {
    prior = open_sum (λ i. i.prior_debt);
    current = open_sum (λ i. i.base_amount);
    late = open_sum (λ i. i.late_fee_amount);
    paid = open_sum (λ i. i.paid_amount);
    credit = open_sum (λ i. i.credit_amount);
    debits = sum_of-keep _ _ (λ a. a.amount) debit_same db.adjustments;
    credits = sum_of-keep _ _ (λ a. a.amount) credit_same db.adjustments;
    received = sum_of-keep _ _ (λ p. p.amount) paid_same db.payments;
    absorbed_paid = live_sum (λ i. i.paid_amount);
    absorbed_credit = live_sum (λ i. i.credit_amount);
  }
