-- ===== src/Engine.antt =====
-- The pure charge engine, backend/internal/billing/engine/engine.go.
pub mod Rat
pub mod Model
pub mod Rounding
pub mod Methods
pub mod Combined
mod Tests
pub mod Fees
