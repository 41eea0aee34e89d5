-- ===== src/Building/People.antt =====
-- The persons of a building (backend/internal/building/occupancy_service.go and
-- occupancy_repository.go, with the columns of migration 0003).
use hamsa.Base.{
  ℕ, Bool, false, ◌&&◌, ◌||◌, not, [], ◌∷◌, ◌++◌, Option, none, some, exists, find, keep,
  update_where, length, is_empty, leb, ◌==◌, if◌then◌else◌,
}
use hamsa.Base.Text.{Text, trim_space}
use hamsa.Server.{
  bad_request, forbidden, phone_invalid, not_permitted, person_name_required, national_id_invalid,
  person_not_found, pure, fail_if, ◌>>=◌, ◌>>◌, exec?, first, map_error, or_not_found, new_id,
  time_now,
}
use hamsa.Building.Model.{Build, BuildingDb, User, Person}
use hamsa.Building.Repository.{can_manager_access, fits_text, listed}
use hamsa.Building.Registry.{authorized_building, bad_phone}
use hamsa.Building.NationalId.Checksum.{national_id_valid}

-- Persons.

pub record PersonInput : Type 0 where
  pub full_name : Text
  pub phone : Option Text
  pub national_id : Option Text

abbrev bad_national_id : Option Text → Bool
bad_national_id none = false
bad_national_id (some s) = let id = trim_space s in not (is_empty id) && not (national_id_valid id)

abbrev trim_id : Option Text → Option Text
trim_id none = none
trim_id (some s) = let id = trim_space s in if is_empty id then none else some id

unfoldable apply_person_input : Person → PersonInput → Build Person
apply_person_input p input = do
  let name = trim_space input.full_name
  fail_if (is_empty name) (bad_request person_name_required)
  fail_if (bad_phone input.phone) (bad_request phone_invalid)
  fail_if (bad_national_id input.national_id) (bad_request national_id_invalid)
  pure (record p { full_name = name; phone = input.phone; national_id = trim_id input.national_id })

abbrev storable_person : Person → Bool
storable_person p =
    leb (length p.full_name) 150 && fits_text 11 p.phone && fits_text 10 p.national_id

abbrev add_person : Person → BuildingDb → Option BuildingDb
add_person p db =
    if storable_person p then some (record db { persons = db.persons ++ p ∷ [] }) else none

unfoldable create_person_row : Person → Build Person
create_person_row p = do
  now ← time_now
  let row = record p { created_at = now; updated_at = now }
  exec? (add_person row)
  pure row

abbrev put_person : Person → BuildingDb → Option BuildingDb
put_person p db =
    if storable_person p
    then some (record db { persons = update_where (λ q. q.id == p.id) (λ _. p) db.persons })
    else none

unfoldable update_person_row : Person → Build Person
update_person_row p = do
  now ← time_now
  let row = record p { updated_at = now }
  exec? (put_person row)
  pure row

abbrev person_in_use : ℕ → BuildingDb → Bool
person_in_use id db = exists (λ o. o.person_id == id) db.occupancies || listed id db.referenced

abbrev drop_person : ℕ → BuildingDb → Option BuildingDb
drop_person id db =
    if person_in_use id db
    then none
    else some (record db { persons = keep (λ p. not (p.id == id)) db.persons })

unfoldable delete_person_row : ℕ → Build (Unit {0})
delete_person_row id = exec? (drop_person id)

unfoldable pub find_person : ℕ → Build Person
find_person id = first (λ db. find (λ p. p.id == id) db.persons)

unfoldable pub authorized_person : User → ℕ → Build Person
unfolding find_person can_manager_access
authorized_person caller id = do
  p ← map_error (or_not_found person_not_found) (find_person id)
  allowed ← can_manager_access caller.id p.building_id
  fail_if (not allowed) (forbidden not_permitted)
  pure p

abbrev blank_person : ℕ → ℕ → Person
blank_person id building_id = record {
  id = id;
  building_id = building_id;
  full_name = [];
  phone = none;
  national_id = none;
  created_at = 0;
  updated_at = 0;
  deleted_at = none;
}

unfoldable create_person : User → ℕ → PersonInput → Build Person
unfolding authorized_building apply_person_input create_person_row
create_person caller building_id input = do
  authorized_building caller building_id
  id ← new_id
  p ← apply_person_input (blank_person id building_id) input
  create_person_row p

-- The row after and before.
unfoldable update_person : User → ℕ → PersonInput → Build (Person × Person)
unfolding authorized_person apply_person_input update_person_row
update_person caller id input = do
  before ← authorized_person caller id
  p ← apply_person_input before input
  row ← update_person_row p
  pure (row, before)

unfoldable delete_person : User → ℕ → Build (Unit {0})
unfolding authorized_person delete_person_row
delete_person caller id = authorized_person caller id >> delete_person_row id
