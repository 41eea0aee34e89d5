-- ===== src/Payment.antt =====
-- Payments and unit balances, backend/internal/payment.
pub mod Model
pub mod Balance
pub mod Service
pub mod Apply
pub mod Books
pub mod Manual
pub mod Callback
pub mod Revival
pub mod Statement
pub mod Position
mod Tests
pub mod Start
pub mod Reversal
