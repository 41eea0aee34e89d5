-- ===== src/Maintenance/Service.antt =====
-- The maintenance service (backend/internal/maintenance/service.go), with the repository calls that
-- it makes (repository.go).
mod Rows
mod Submitting
mod Patching
mod Reads
unfoldable pub use Rows.{get, is_manager_of, insert, save, person_exists, resolve_resident_unit}
pub use Rows.{Maintain, or_fail, find_request, put}
unfoldable pub use Submitting.{photo_path, notify, append_audit, submit}
pub use Submitting.{User, SubmitInput, is_too_long, priority_text}
unfoldable pub use Patching.{move_to, patch_status, patch_assignee, patch_cost, announce, update}
pub use Patching.{CostInput, UpdateInput, close_at, patch_notes}
unfoldable pub use Reads.{get_for_manager}
