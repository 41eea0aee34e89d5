-- ===== src/Building.antt =====
-- The buildings, their units and managers, the persons and their occupancies
-- (backend/internal/building).
pub mod Model
pub mod Repository
pub mod Registry
pub mod Managers
pub mod Scope
pub mod Removal
pub mod Handover
pub mod NationalId
pub mod People
pub mod Occupancies
pub mod Numbering
pub mod Granting
mod Tests
