-- ===== src/Building/Repository/BuildingRows.antt =====
-- The rows of buildings (backend/internal/building/repository.go).
use hamsa.Base.{
  ℕ, Bool, ◌||◌, not, [], ◌∷◌, ◌++◌, Option, none, some, exists, find, keep, update_where, ◌==◌,
  if◌then◌else◌,
}
use hamsa.Server.{pure, ◌>>=◌, ◌>>◌, exec?, first, time_now}
use hamsa.Building.Model.{Build, BuildingDb, Building}
use hamsa.Building.Repository.Columns.{storable_building, listed}

-- Buildings.

abbrev pub find_building_row : ℕ → BuildingDb → Option Building
find_building_row id db = find (λ b. b.id == id) db.buildings

unfoldable pub find_building : ℕ → Build Building
find_building id = first (find_building_row id)

abbrev add_building : Building → BuildingDb → Option BuildingDb
add_building b db =
    if storable_building b then some (record db { buildings = db.buildings ++ b ∷ [] }) else none

unfoldable pub create_building : Building → Build Building
create_building b = do
  now ← time_now
  let row = record b { created_at = now; updated_at = now }
  exec? (add_building row)
  pure row

abbrev put_building : Building → BuildingDb → Option BuildingDb
put_building b db =
    if storable_building b
    then some (record db { buildings = update_where (λ c. c.id == b.id) (λ _. b) db.buildings })
    else none

unfoldable pub update_building : Building → Build Building
update_building b = do
  now ← time_now
  let row = record b { updated_at = now }
  exec? (put_building row)
  pure row

-- A unit, a grant, a person or a row of another table refers to the building.
abbrev pub building_in_use : ℕ → BuildingDb → Bool
building_in_use id db =
    exists (λ g. g.building_id == id) db.grants
    || exists (λ u. u.building_id == id) db.units
    || exists (λ p. p.building_id == id) db.persons
    || listed id db.referenced

abbrev pub drop_building : ℕ → BuildingDb → Option BuildingDb
drop_building id db =
    if building_in_use id db
    then none
    else some (record db { buildings = keep (λ b. not (b.id == id)) db.buildings })

unfoldable pub delete_building_row : ℕ → Build (Unit {0})
delete_building_row id = exec? (drop_building id)
