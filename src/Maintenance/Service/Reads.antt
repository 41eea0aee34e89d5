-- ===== src/Maintenance/Service/Reads.antt =====
-- Who may read a request (backend/internal/maintenance/service.go).
use hamsa.Base.{ℕ, not, ◌==◌}
use hamsa.Server.{
  ApiError, forbidden, not_found, request_not_found, no_access, no_building_access,
  record_not_found, pure, fail_if, ◌>>=◌, ◌>>◌, map_error,
}
use hamsa.Maintenance.Model.{MaintenanceRequest}
use hamsa.Maintenance.Service.Rows.{Maintain, get, is_manager_of}
use hamsa.Maintenance.Service.Submitting.{User}

-- Reads.

abbrev or_request_not_found : ApiError → ApiError
or_request_not_found record_not_found = not_found request_not_found
or_request_not_found e = e

unfoldable get_for_resident : User → ℕ → Maintain MaintenanceRequest
unfolding get
get_for_resident user id = do
  m ← map_error or_request_not_found (get id)
  fail_if (not (m.submitted_by == user.id)) (forbidden no_access)
  pure m

unfoldable pub get_for_manager : User → ℕ → Maintain MaintenanceRequest
unfolding get is_manager_of
get_for_manager manager id = do
  m ← map_error or_request_not_found (get id)
  allowed ← is_manager_of manager.id m.building_id
  fail_if (not allowed) (forbidden no_building_access)
  pure m
