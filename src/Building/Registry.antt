-- ===== src/Building/Registry.antt =====
-- The registry of buildings and units (backend/internal/building/service.go): a payload is
-- validated and copied onto the row, and the caller must be a manager of the building.
mod Buildings
mod Units
unfoldable pub use Buildings.{authorized_building, delete_building}
pub use Buildings.{bad_phone, blank_building}
unfoldable pub use Units.{choose_status, apply_unit_input, authorized_unit, add_unit}
pub use Units.{UnitInput, blank_unit, number_error}
