-- ===== src/Billing/Periods.antt =====
-- The period service (backend/internal/billing/period_service.go): the life of a period, its cost
-- items, issuance, and the corrections of invoices.
mod Life
mod CostItems
mod Corrections
mod Access
unfoldable pub use Life.{apply_period_input, create, update, close}
pub use Life.{PeriodInput, is_valid_fee}
unfoldable pub use CostItems.{validate_method, validate_cost_item, add_cost_item}
pub use CostItems.{CostItemInput, with_input, empty_item}
unfoldable pub use Corrections.{
  append_audit, authorized_invoice, recompute_balances, cancel_invoice,
}
pub use Corrections.{is_cancellable}
unfoldable pub use Access.{authorize_building, get_authorized_period}
