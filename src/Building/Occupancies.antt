-- ===== src/Building/Occupancies.antt =====
-- The occupancies of the units (backend/internal/building/occupancy_service.go).
pub mod Service
pub mod Running
pub mod Adding
pub mod Ending
pub mod History
pub mod Counts
