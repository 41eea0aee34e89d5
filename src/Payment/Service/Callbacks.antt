-- ===== src/Payment/Service/Callbacks.antt =====
-- The start of a gateway payment and its callback (backend/internal/payment/service.go).
use hamsa.Base.{ℕ, ◌/◌, Bool, true, false, ◌&&◌, not, Option, none, some, find, ◌==◌, if◌then◌else◌}
use hamsa.Base.Int.{ℤ, pos, leb_ℤ}
use hamsa.Base.Int64.{sub64}
use hamsa.Server.{
  bad_request, not_found, conflict, internal, amount_invalid, invoice_cancelled, invoice_no_debt,
  gateway_failed, callback_unknown, callback_params, pure, fail, fail_if, ◌>>=◌, ◌>>◌, exec, first,
  transaction, map_error, new_id, time_now,
}
use hamsa.Payment.Model.{
  PaymentMethod, gateway, PaymentStatus, recorded, verified, failed, Payment, LedgerInvoice,
  effective,
}
use hamsa.Payment.Balance.{Pay, clamp, put_payment, find_payment}
use hamsa.Payment.Service.Access.{User, authorized_invoice, is_void}
use hamsa.Payment.Service.Ledger.{invoice_for_update, create_payment}
use hamsa.Payment.Service.Settling.{notify_recorded, settle_invoice}

-- The gateway.

pub record Gateway : Type 0 where
  pub start : ℤ → Option ℕ  -- an authority, or a failure
  pub verify : ℕ → ℤ → Option (Bool × ℕ)  -- whether it is paid, and the reference

abbrev pub gateway_amount : Option ℤ → ℤ → Pay ℤ
gateway_amount none outstanding = pure outstanding
gateway_amount (some a) outstanding =
    if leb_ℤ a (pos 0) then fail (bad_request amount_invalid) else pure a

abbrev pub or_internal : Option ℕ → Pay ℕ
or_internal none = fail (internal gateway_failed)
or_internal (some a) = pure a

abbrev pub gateway_payment : ℕ → LedgerInvoice → ℤ → ℕ → ℕ → ℕ → Payment
gateway_payment id inv amount day authority user_id = record {
  id = id;
  building_id = inv.building_id;
  unit_id = inv.unit_id;
  invoice_id = some inv.id;
  method = gateway;
  amount = amount;
  paid_at = day;
  tracking_number = none;
  authority = some authority;
  recorded_by = some user_id;
  status = recorded;
}

-- `uuid.Parse` of the parameter payment_id, or the parameter Authority.
pub data CallbackParams : Type 0 where
  by_payment_id : Option ℕ → CallbackParams
  by_authority : ℕ → CallbackParams
  missing : CallbackParams

abbrev pub is_recorded : PaymentStatus → Bool
is_recorded recorded = true
is_recorded _ = false

abbrev pub is_gateway : PaymentMethod → Bool
is_gateway gateway = true
is_gateway _ = false

abbrev pub has_authority : ℕ → Option ℕ → Bool
has_authority a none = false
has_authority a (some b) = b == a

-- Every error of the lookup leaves p nil, and so is a 404.
unfoldable pub callback_payment : CallbackParams → Pay Payment
callback_payment (by_payment_id none) = fail (not_found callback_unknown)
callback_payment (by_payment_id (some id)) =
    map_error (λ _. not_found callback_unknown) (first (find_payment id))
callback_payment (by_authority a) =
    map_error (λ _. not_found callback_unknown)
      (first (λ db. find (λ p. has_authority a p.authority && is_recorded p.status) db.payments))
callback_payment missing = fail (bad_request callback_params)

-- The transaction of a verified payment.
abbrev pub settle_payment : Payment → Option ℕ → Pay (Unit {0})
settle_payment p none = pure tt
settle_payment p (some invoice_id) = do
  inv ← invoice_for_update invoice_id
  settle_invoice inv p.amount

abbrev pub finish_callback : Payment → Option (Bool × ℕ) → Pay Payment
finish_callback p (some (true, ref)) = do
  let p' = record p { status = verified; tracking_number = some ref }
  transaction (exec (put_payment p') >> settle_payment p' p'.invoice_id)
  notify_recorded p'
  pure p'
finish_callback p _ = do
  exec (put_payment (record p { status = failed }))
  pure (record p { status = failed })

module _ (gw : Gateway) where
  unfoldable pub start_gateway : User → ℕ → Option ℤ → Pay Payment
  unfolding authorized_invoice effective create_payment
  start_gateway u invoice_id amount = do
    inv ← authorized_invoice u invoice_id
    fail_if (is_void inv.status) (conflict invoice_cancelled)
    amt ← gateway_amount amount (clamp (sub64 (effective inv) inv.paid_amount))
    fail_if (leb_ℤ amt (pos 0)) (conflict invoice_no_debt)
    authority ← or_internal (gw.start amt)
    id ← new_id
    now ← time_now
    create_payment (gateway_payment id inv amt (now / 86400) authority u.id)
    pure (gateway_payment id inv amt (now / 86400) authority u.id)

  -- The gateway is asked about the amount of our row; a row that is not pending is returned as is.
  abbrev pub verify_payment : Payment → Option ℕ → Pay Payment
  verify_payment p none = pure p
  verify_payment p (some authority) =
      if not (is_recorded p.status && is_gateway p.method)
      then pure p
      else finish_callback p (gw.verify authority p.amount)

  unfoldable pub handle_callback : CallbackParams → Pay Payment
  unfolding callback_payment invoice_for_update settle_invoice notify_recorded
  handle_callback params = do p ← callback_payment params; verify_payment p p.authority
