-- ===== src/Expense.antt =====
-- The expenses of a building and its financial report (backend/internal/expense).
pub mod Month
pub mod Calendar
pub mod Model
pub mod Service
pub mod Listing
pub mod Report
pub mod Recording
pub mod Effect
mod Tests
