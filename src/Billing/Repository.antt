-- ===== src/Billing/Repository.antt =====
-- The billing repository (backend/internal/billing/repository.go). A table is the list of its rows
-- in the order of their creation, and units stand in the order of their numbers. The triggers of
-- migration 0004 are part of the statements that fire them; any other refusal of the database is
-- a fault of the oracle.
mod PeriodRows
mod CostItemRows
mod Inputs
mod Outputs
mod InvoiceRows
unfoldable pub use PeriodRows.{create_period, get_period, list_periods, save_period}
pub use PeriodRows.{Billing, is_draft, is_calculated, is_issued, find_period, put_period}
unfoldable pub use CostItemRows.{
  get_cost_item, list_cost_items, is_manager_of, create_cost_item, save_cost_item, delete_cost_item,
}
unfoldable pub use Inputs.{units_for_building, occupant_count_as_of, occupant_user_ids}
unfoldable pub use Outputs.{
  delete_shares, delete_invoices, insert_share, insert_invoice, insert_item,
  insert_invoice_with_items, replace_calculation, discard_calculation, list_shares_for_period,
}
pub use Outputs.{InvoiceWithItems, period_is_frozen, is_cost_method}
unfoldable pub use InvoiceRows.{
  get_invoice, number_all, issue_invoices, set_invoice_status, create_adjustment,
}
pub use InvoiceRows.{
  InvoiceDetails, find_invoice, numbered, sort_by_unit, stamp, number_invoice, mark_issued,
}
