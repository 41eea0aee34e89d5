-- ===== src/Maintenance.antt =====
-- Maintenance requests, backend/internal/maintenance.
pub mod Model
pub mod Service
pub mod Workflow
pub mod Submission
pub mod Lifecycle
mod Tests
