-- ===== src/Payment/Balance.antt =====
-- The unit balance, recomputed from invoices, adjustments and payments (backend/internal/payment/repository.go,
-- lines 237-349, and balance_service.go). Sums in SQL do not wrap around. The row
-- that is returned is stamped by time.Now and the stored one by now(); here both are the time of the request.
use hamsa.Base.{
  ℕ, Bool, true, false, ◌&&◌, List, [], ◌∷◌, Option, none, some, exists, keep, find, update_where,
  ◌==◌, if◌then◌else◌,
}
use hamsa.Base.Int.{ℤ, pos, ◌+ℤ◌, ltb_ℤ}
use hamsa.Base.Int64.{add64, sub64}
use hamsa.Server.{M, pure, ◌>>=◌, ◌>>◌, query, exec, first, transaction, time_now}
use hamsa.Billing.Model.{
  InvoiceStatus, unpaid, partial, expired, cancelled, AdjustmentKind, debit, credit, Invoice,
  InvoiceAdjustment,
}
use hamsa.Payment.Model.{PaymentStatus, verified, reversed, Payment, UnitBalance, PaymentDb}

abbrev pub Pay : Type 0 → Type 0
Pay = M PaymentDb

abbrev pub is_open : InvoiceStatus → Bool
is_open unpaid = true
is_open partial = true
is_open expired = true
is_open _ = false

abbrev pub not_cancelled : InvoiceStatus → Bool
not_cancelled cancelled = false
not_cancelled _ = true

abbrev pub is_verified : PaymentStatus → Bool
is_verified verified = true
is_verified _ = false

abbrev pub is_debit : AdjustmentKind → Bool
is_debit debit = true
is_debit _ = false

abbrev pub is_credit : AdjustmentKind → Bool
is_credit credit = true
is_credit _ = false

-- `COALESCE(SUM(f), 0)`
abbrev pub sum_of : {A : Type 0} → (A → ℤ) → List A → ℤ
sum_of f [] = pos 0
sum_of f (x ∷ xs) = f x +ℤ sum_of f xs

-- The unit's invoices that are not cancelled, and the open ones among them.
abbrev live_invoices : ℕ → PaymentDb → List Invoice
live_invoices unit_id db = keep (λ i. i.unit_id == unit_id && not_cancelled i.status) db.invoices

abbrev open_invoices : ℕ → PaymentDb → List Invoice
open_invoices unit_id db = keep (λ i. is_open i.status) (live_invoices unit_id db)

-- The adjustments of those invoices, of one kind.
abbrev adjustments_of : (AdjustmentKind → Bool) → List Invoice → PaymentDb → List InvoiceAdjustment
adjustments_of kind invs db =
    keep (λ a. kind a.kind && exists (λ i. i.id == a.invoice_id) invs) db.adjustments

abbrev verified_payments : ℕ → PaymentDb → List Payment
verified_payments unit_id db = keep (λ p. p.unit_id == unit_id && is_verified p.status) db.payments

pub record BalanceAggregates : Type 0 where
  pub prior : ℤ
  pub current : ℤ
  pub late : ℤ
  pub paid : ℤ
  pub credit : ℤ
  pub debit_adj : ℤ
  pub credit_adj : ℤ
  pub verified : ℤ
  pub absorbed_paid : ℤ
  pub absorbed_credit : ℤ

-- `balanceAggregatesQuery`
unfoldable pub balance_aggregates : ℕ → PaymentDb → BalanceAggregates
balance_aggregates unit_id db =
    let live = live_invoices unit_id db in
    let opened = open_invoices unit_id db in
    record {
      prior = sum_of (λ i. i.prior_debt) opened;
      current = sum_of (λ i. i.base_amount) opened;
      late = sum_of (λ i. i.late_fee_amount) opened;
      paid = sum_of (λ i. i.paid_amount) opened;
      credit = sum_of (λ i. i.credit_amount) opened;
      debit_adj = sum_of (λ a. a.amount) (adjustments_of is_debit live db);
      credit_adj = sum_of (λ a. a.amount) (adjustments_of is_credit live db);
      verified = sum_of (λ p. p.amount) (verified_payments unit_id db);
      absorbed_paid = sum_of (λ i. i.paid_amount) live;
      absorbed_credit = sum_of (λ i. i.credit_amount) live;
    }

-- `if x < 0 { x = 0 }`
abbrev pub clamp : ℤ → ℤ
clamp z = if ltb_ℤ z (pos 0) then pos 0 else z

-- The row from the aggregates.
unfoldable pub unit_balance : ℕ → BalanceAggregates → ℕ → UnitBalance
unit_balance unit_id agg now =
    let prior_debt = add64 agg.prior agg.debit_adj in
    let credit = add64 agg.credit agg.credit_adj in
    record {
      unit_id = unit_id;
      prior_debt = prior_debt;
      current_invoice_amount = agg.current;
      late_fee_total = agg.late;
      credit = credit;
      paid_total = agg.paid;
      credit_asset = clamp (sub64 agg.verified (add64 agg.absorbed_paid agg.absorbed_credit));
      balance =
          clamp (sub64 (sub64 (add64 (add64 prior_debt agg.current) agg.late) agg.paid) credit);
      updated_at = now;
    }

-- `INSERT ... ON CONFLICT (unit_id) DO UPDATE`
abbrev pub upsert : UnitBalance → List UnitBalance → List UnitBalance
upsert b [] = b ∷ []
upsert b (x ∷ xs) = if x.unit_id == b.unit_id then b ∷ xs else x ∷ upsert b xs

unfoldable pub recompute_balance : ℕ → Pay UnitBalance
unfolding balance_aggregates unit_balance
recompute_balance unit_id = do
  agg ← query (balance_aggregates unit_id)
  now ← time_now
  exec (λ db. record db { balances = upsert (unit_balance unit_id agg now) db.balances })
  pure (unit_balance unit_id agg now)

abbrev pub find_balance : ℕ → PaymentDb → Option UnitBalance
find_balance unit_id db = find (λ b. b.unit_id == unit_id) db.balances

abbrev balance_or_zero : Option UnitBalance → ℤ × ℤ
balance_or_zero none = (pos 0, pos 0)
balance_or_zero (some b) = (b.balance, b.credit_asset)

-- `Snapshot`: the outstanding balance and the credit; zeros without a history.
unfoldable pub snapshot : ℕ → Pay (ℤ × ℤ)
snapshot unit_id = query (λ db. balance_or_zero (find_balance unit_id db))

abbrev invoice_unit : ℕ → PaymentDb → Option ℕ
invoice_unit id db = elim (find (λ i. i.id == id) db.invoices) [
  | none ↦ none
  | some i ↦ some i.unit_id
]

abbrev recompute_found : Option ℕ → Pay (Unit {0})
recompute_found none = pure tt
recompute_found (some unit_id) = do b ← recompute_balance unit_id; pure tt

-- `RecomputeInvoice`: nothing to do where the invoice is gone.
unfoldable recompute_invoice : ℕ → Pay (Unit {0})
unfolding recompute_balance
recompute_invoice invoice_id = do unit_id ← query (invoice_unit invoice_id); recompute_found unit_id

abbrev pub put_payment : Payment → PaymentDb → PaymentDb
put_payment p db = record db { payments = update_where (λ q. q.id == p.id) (λ _. p) db.payments }

abbrev pub find_payment : ℕ → PaymentDb → Option Payment
find_payment id db = find (λ p. p.id == id) db.payments

unfoldable pub reverse_payment : ℕ → Pay Payment
unfolding recompute_balance
reverse_payment payment_id = transaction do
  p ← first (find_payment payment_id)
  exec (put_payment (record p { status = reversed }))
  b ← recompute_balance p.unit_id
  pure (record p { status = reversed })
