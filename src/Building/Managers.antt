-- ===== src/Building/Managers.antt =====
-- The managers of a building (backend/internal/building/service.go, lines 130-219).
use hamsa.Base.{ℕ, Bool, true, false, not, leb, ◌==◌}
use hamsa.Base.Text.{Text}
use hamsa.Server.{
  ApiError, bad_request, not_found, conflict, manager_already_granted, phone_invalid,
  user_not_found, superadmin_target, already_manager, last_manager, self_revoke, grant_not_found,
  pure, fail, fail_if, ◌>>=◌, ◌>>◌, map_error, or_not_found,
}
use hamsa.Auth.Invites.{is_iranian_mobile}
use hamsa.Building.Model.{Build, User, BuildingManager, Role, role_super_admin}
use hamsa.Building.Repository.{
  can_manager_access, find_active_user_by_phone, count_building_managers, insert_manager_grant,
  manager_grant_row, revoke_manager_guarded, is_resident, promote_resident_to_manager,
}
use hamsa.Building.Registry.{authorized_building}

abbrev pub is_super_admin : Role → Bool
is_super_admin role_super_admin = true
is_super_admin _ = false

abbrev pub grant_error : ApiError → ApiError
grant_error manager_already_granted = conflict already_manager
grant_error e = e

abbrev pub promote_if : Bool → ℕ → Build (Unit {0})
promote_if true id = promote_resident_to_manager id
promote_if false id = pure tt

unfoldable pub grant_manager_by_phone : User → ℕ → Text → Build BuildingManager
unfolding authorized_building find_active_user_by_phone insert_manager_grant
    promote_resident_to_manager manager_grant_row
grant_manager_by_phone caller building_id phone = do
  authorized_building caller building_id
  fail_if (not (is_iranian_mobile phone)) (bad_request phone_invalid)
  target ← map_error (or_not_found user_not_found) (find_active_user_by_phone phone)
  fail_if (is_super_admin target.role) (bad_request superadmin_target)
  map_error grant_error (insert_manager_grant target.id building_id)
  promote_if (is_resident target.role) target.id
  manager_grant_row target.id building_id

-- What the guarded delete reports.
abbrev pub report_revoke : Bool × Bool → Build (Unit {0})
report_revoke (true, still) = pure tt
report_revoke (false, true) = fail (conflict last_manager)
report_revoke (false, false) = fail (not_found grant_not_found)

unfoldable pub revoke_manager : User → ℕ → ℕ → Build (Unit {0})
unfolding authorized_building can_manager_access count_building_managers revoke_manager_guarded
revoke_manager caller building_id user_id = do
  authorized_building caller building_id
  granted ← can_manager_access user_id building_id
  fail_if (not granted) (not_found grant_not_found)
  count ← count_building_managers building_id
  fail_if (leb count 1) (conflict last_manager)
  fail_if (user_id == caller.id) (bad_request self_revoke)
  outcome ← revoke_manager_guarded user_id building_id
  report_revoke outcome
