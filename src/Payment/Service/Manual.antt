-- ===== src/Payment/Service/Manual.antt =====
-- Manual payments (backend/internal/payment/service.go).
use hamsa.Base.{ℕ, ◌/◌, not, Option, none, some, if◌then◌else◌}
use hamsa.Base.Int.{ℤ, pos, leb_ℤ}
use hamsa.Server.{
  bad_request, forbidden, conflict, not_permitted, amount_invalid, date_invalid, invoice_cancelled,
  pure, fail, fail_if, ◌>>=◌, ◌>>◌, transaction, new_id, time_now,
}
use hamsa.Payment.Model.{manual, verified, Payment, LedgerInvoice}
use hamsa.Payment.Balance.{Pay}
use hamsa.Payment.Service.Access.{User, authorized_invoice, is_void}
use hamsa.Payment.Service.Ledger.{create_payment}
use hamsa.Payment.Service.Settling.{notify_recorded, settle_invoice}

-- The paid date of a request: none, a text that is no date, or a day.
pub data PaidAt : Type 0 where
  today bad_date : PaidAt
  on_day : ℕ → PaidAt

pub record ManualPaymentInput : Type 0 where
  pub amount : Option ℤ  -- what strconv.ParseInt makes of the text
  pub paid_at : PaidAt
  pub tracking_number : Option ℕ

abbrev pub parse_amount : Option ℤ → Pay ℤ
parse_amount none = fail (bad_request amount_invalid)
parse_amount (some a) = if leb_ℤ a (pos 0) then fail (bad_request amount_invalid) else pure a

abbrev pub parse_date : PaidAt → Pay ℕ
parse_date today = do now ← time_now; pure (now / 86400)
parse_date bad_date = fail (bad_request date_invalid)
parse_date (on_day d) = pure d

abbrev pub manual_payment : ℕ → LedgerInvoice → ℤ → ℕ → ManualPaymentInput → ℕ → Payment
manual_payment id inv amount day input user_id = record {
  id = id;
  building_id = inv.building_id;
  unit_id = inv.unit_id;
  invoice_id = some inv.id;
  method = manual;
  amount = amount;
  paid_at = day;
  tracking_number = input.tracking_number;
  authority = none;
  recorded_by = some user_id;
  status = verified;
}

unfoldable pub record_manual : User → ℕ → ManualPaymentInput → Pay Payment
unfolding authorized_invoice create_payment settle_invoice notify_recorded
record_manual u invoice_id input = do
  fail_if (not u.is_manager) (forbidden not_permitted)
  amount ← parse_amount input.amount
  day ← parse_date input.paid_at
  inv ← authorized_invoice u invoice_id
  fail_if (is_void inv.status) (conflict invoice_cancelled)
  id ← new_id
  let p = manual_payment id inv amount day input u.id
  transaction (create_payment p >> settle_invoice inv amount)
  notify_recorded p
  pure p
