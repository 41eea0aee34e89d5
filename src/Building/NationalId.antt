-- ===== src/Building/NationalId.antt =====
-- The national ID of a person (backend/internal/building/occupancy_service.go).
pub mod Checksum
pub mod Detects
