-- ===== src/Building/Registry/Buildings.antt =====
-- Buildings: the payload, and who may read and change them (backend/internal/building/service.go).
use hamsa.Base.{ℕ, Bool, false, ◌&&◌, ◌||◌, not, [], Option, none, some, is_empty}
use hamsa.Base.Int.{ℤ, pos, ltb_ℤ}
use hamsa.Base.Text.{Text, trim_space}
use hamsa.Server.{
  bad_request, forbidden, building_name_required, phone_invalid, count_negative, built_year_invalid,
  building_not_found, not_permitted, pure, fail_if, ◌>>=◌, ◌>>◌, map_error, or_not_found, new_id,
}
use hamsa.Auth.Invites.{is_iranian_mobile}
use hamsa.Building.Model.{Build, Building, User}
use hamsa.Building.Repository.{
  find_building, create_building, update_building, delete_building_row, can_manager_access,
  grant_manager,
}

-- The payloads.

pub record BuildingInput : Type 0 where
  pub name : Text
  pub address : Option Text
  pub block_count : Option ℤ
  pub floor_count : Option ℤ
  pub unit_count : Option ℤ
  pub built_year : Option ℤ
  pub manager_phone : Option Text
  pub emergency_phone : Option Text
  pub notes : Option Text

-- A phone that is given and not empty has the mobile format.
abbrev pub bad_phone : Option Text → Bool
bad_phone none = false
bad_phone (some s) = not (is_empty s) && not (is_iranian_mobile s)

abbrev pub is_negative : Option ℤ → Bool
is_negative none = false
is_negative (some z) = ltb_ℤ z (pos 0)

abbrev bad_year : Option ℤ → Bool
bad_year none = false
bad_year (some y) = ltb_ℤ y (pos 1250) || ltb_ℤ (pos 1500) y

-- `if in.X != nil { b.X = *in.X }`
abbrev pub given_or : {A : Type 0} → A → Option A → A
given_or a none = a
given_or a (some b) = b

unfoldable apply_building_input : Building → BuildingInput → Build Building
apply_building_input b input = do
  let name = trim_space input.name
  fail_if (is_empty name) (bad_request building_name_required)
  fail_if (bad_phone input.manager_phone) (bad_request phone_invalid)
  fail_if (bad_phone input.emergency_phone) (bad_request phone_invalid)
  fail_if
      (is_negative input.block_count
        || is_negative input.floor_count
        || is_negative input.unit_count)
      (bad_request count_negative)
  fail_if (bad_year input.built_year) (bad_request built_year_invalid)
  pure (record b {
    name = name;
    address = input.address;
    block_count = given_or b.block_count input.block_count;
    floor_count = given_or b.floor_count input.floor_count;
    unit_count = given_or b.unit_count input.unit_count;
    built_year = input.built_year;
    manager_phone = input.manager_phone;
    emergency_phone = input.emergency_phone;
    notes = input.notes;
  })

-- The caller is a user of the middleware, so that the code's branch for a missing one is left out.
unfoldable pub authorized_building : User → ℕ → Build Building
unfolding find_building can_manager_access
authorized_building caller id = do
  b ← map_error (or_not_found building_not_found) (find_building id)
  allowed ← can_manager_access caller.id b.id
  fail_if (not allowed) (forbidden not_permitted)
  pure b

abbrev pub blank_building : ℕ → Building
blank_building id = record {
  id = id;
  name = [];
  address = none;
  block_count = pos 0;
  floor_count = pos 0;
  unit_count = pos 0;
  built_year = none;
  manager_phone = none;
  emergency_phone = none;
  notes = none;
  created_at = 0;
  updated_at = 0;
  deleted_at = none;
}

unfoldable register_building : User → BuildingInput → Build Building
unfolding apply_building_input create_building grant_manager
register_building caller input = do
  id ← new_id
  b ← apply_building_input (blank_building id) input
  row ← create_building b
  grant_manager caller.id row.id
  pure row

-- The row after and before.
unfoldable edit_building : User → ℕ → BuildingInput → Build (Building × Building)
unfolding authorized_building apply_building_input update_building
edit_building caller id input = do
  before ← authorized_building caller id
  changed ← apply_building_input before input
  row ← update_building changed
  pure (row, before)

unfoldable pub delete_building : User → ℕ → Build (Unit {0})
unfolding authorized_building delete_building_row
delete_building caller id = authorized_building caller id >> delete_building_row id
