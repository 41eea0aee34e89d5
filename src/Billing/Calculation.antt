-- ===== src/Billing/Calculation.antt =====
-- The calculation service (backend/internal/billing/calc_service.go): it snapshots the inputs of
-- the engine, runs it on every cost item, and stores shares and draft invoices.
mod Snapshots
mod Lines
mod Run
mod Previewing
unfoldable pub use Snapshots.{engine_item}
pub use Snapshots.{from_engine, engine_fee}
unfoldable pub use Lines.{base_amount, charge_items, fee_items, final_amount}
pub use Lines.{ChargeLine}
unfoldable pub use Run.{make_invoice}
