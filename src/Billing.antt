-- ===== src/Billing.antt =====
-- Billing periods, cost items, calculations and invoices, backend/internal/billing.
pub mod Model
pub mod Repository
pub mod Periods
pub mod Calculation
pub mod Lifecycle
pub mod Numbering
pub mod Issuance
pub mod Replacement
pub mod Invoicing
mod Tests
pub mod Items
pub mod Cancellation
