-- ===== src/Payment/Service.antt =====
-- The payment service (backend/internal/payment/service.go): manual payments, the start of a gateway
-- payment and its callback. The gateway is a parameter.
mod Access
mod Ledger
mod Settling
mod Manual
mod Callbacks
unfoldable pub use Access.{resident_unit_ids, can_access_unit, authorized_invoice}
pub use Access.{User, is_void}
unfoldable pub use Ledger.{invoice_for_update, apply_invoice_paid, create_payment, apply_to_invoice}
pub use Ledger.{ledger_row, set_paid, PaymentApplication, derive_status, min_ℤ}
unfoldable pub use Settling.{notify_user, notify_recorded, settle_invoice}
pub use Settling.{distinct_users}
unfoldable pub use Manual.{record_manual}
pub use Manual.{
  PaidAt, today, bad_date, on_day, ManualPaymentInput, parse_amount, parse_date, manual_payment,
}
unfoldable pub use Callbacks.{callback_payment, start_gateway, handle_callback}
pub use Callbacks.{
  Gateway, gateway_amount, or_internal, gateway_payment, CallbackParams, by_payment_id,
  by_authority, missing, is_recorded, is_gateway, has_authority, settle_payment, finish_callback,
  verify_payment,
}
