-- ===== src/Building/Registry/Units.antt =====
-- Units: the payload, and who may read and change them (backend/internal/building/service.go).
use hamsa.Base.{ℕ, Bool, ◌||◌, not, [], Option, none, some, is_empty}
use hamsa.Base.Int.{ℤ, pos, leb_ℤ, eqb_ℤ}
use hamsa.Base.Text.{Text, trim_space}
use hamsa.Server.{
  ApiError, bad_request, forbidden, conflict, duplicate_unit_number, count_negative, not_permitted,
  number_required, area_positive, unit_status_invalid, floor_negative, duplicate_number,
  unit_not_found, pure, fail, fail_if, ◌>>=◌, ◌>>◌, map_error, or_not_found, new_id,
}
use hamsa.Building.Model.{Build, BuildingUnit, User, no_status, UnitStatus, parse_unit_status}
use hamsa.Building.Repository.{
  can_manager_access, find_unit, create_unit_row, update_unit_row, delete_unit_row,
}
use hamsa.Building.Registry.Buildings.{is_negative, given_or, authorized_building}

pub record UnitInput : Type 0 where
  pub number : Text
  pub block : Option Text
  pub floor : Option ℤ
  pub area_m2 : Option ℤ
  pub parking_count : Option ℤ
  pub parking_numbers : Option Text
  pub storage_count : Option ℤ
  pub storage_numbers : Option Text
  pub status : Option Text
  pub notes : Option Text

-- Units.

abbrev bad_area : ℤ → Option ℤ → Bool
bad_area old none = eqb_ℤ old (pos 0)
bad_area old (some z) = leb_ℤ z (pos 0)

unfoldable pub choose_status : UnitStatus → Option Text → Build UnitStatus
choose_status old none = pure old
choose_status old (some s) = elim (parse_unit_status s) [
  | none ↦ fail (bad_request unit_status_invalid)
  | some st ↦ pure st
]

unfoldable pub apply_unit_input : BuildingUnit → UnitInput → Build BuildingUnit
unfolding choose_status
apply_unit_input u input = do
  let number = trim_space input.number
  fail_if (is_empty number) (bad_request number_required)
  fail_if (bad_area u.area_m2 input.area_m2) (bad_request area_positive)
  fail_if (is_negative input.floor) (bad_request floor_negative)
  status ← choose_status u.status input.status
  fail_if (is_negative input.parking_count || is_negative input.storage_count)
      (bad_request count_negative)
  pure (record u {
    number = number;
    block = input.block;
    floor = given_or u.floor input.floor;
    area_m2 = given_or u.area_m2 input.area_m2;
    parking_count = given_or u.parking_count input.parking_count;
    parking_numbers = input.parking_numbers;
    storage_count = given_or u.storage_count input.storage_count;
    storage_numbers = input.storage_numbers;
    status = status;
    notes = input.notes;
  })

unfoldable pub authorized_unit : User → ℕ → Build BuildingUnit
unfolding find_unit can_manager_access
authorized_unit caller id = do
  u ← map_error (or_not_found unit_not_found) (find_unit id)
  allowed ← can_manager_access caller.id u.building_id
  fail_if (not allowed) (forbidden not_permitted)
  pure u

abbrev pub blank_unit : ℕ → ℕ → BuildingUnit
blank_unit id building_id = record {
  id = id;
  building_id = building_id;
  number = [];
  block = none;
  floor = pos 0;
  area_m2 = pos 0;
  parking_count = pos 0;
  parking_numbers = none;
  storage_count = pos 0;
  storage_numbers = none;
  status = no_status;
  notes = none;
  created_at = 0;
  updated_at = 0;
  deleted_at = none;
}

abbrev pub number_error : ApiError → ApiError
number_error duplicate_unit_number = conflict duplicate_number
number_error e = e

unfoldable pub add_unit : User → ℕ → UnitInput → Build BuildingUnit
unfolding authorized_building apply_unit_input create_unit_row
add_unit caller building_id input = do
  authorized_building caller building_id
  id ← new_id
  u ← apply_unit_input (blank_unit id building_id) input
  map_error number_error (create_unit_row u)

unfoldable edit_unit : User → ℕ → UnitInput → Build (BuildingUnit × BuildingUnit)
unfolding authorized_unit apply_unit_input update_unit_row
edit_unit caller id input = do
  before ← authorized_unit caller id
  u ← apply_unit_input before input
  row ← map_error number_error (update_unit_row u)
  pure (row, before)

unfoldable delete_unit : User → ℕ → Build (Unit {0})
unfolding authorized_unit delete_unit_row
delete_unit caller id = authorized_unit caller id >> delete_unit_row id
