-- ===== src/Building/Repository/UnitRows.antt =====
-- The rows of units (backend/internal/building/repository.go).
use hamsa.Base.{
  ℕ, Bool, ◌||◌, not, [], ◌∷◌, ◌++◌, Option, none, some, exists, find, keep, update_where, ◌==◌,
  if◌then◌else◌,
}
use hamsa.Server.{duplicate_unit_number, pure, ◌>>=◌, ◌>>◌, exec?, exec_unique, first, time_now}
use hamsa.Building.Model.{Build, BuildingDb, BuildingUnit}
use hamsa.Building.Repository.Columns.{storable_unit, number_taken, listed}

-- Units.

unfoldable pub find_unit : ℕ → Build BuildingUnit
find_unit id = first (λ db. find (λ u. u.id == id) db.units)

abbrev add_unit : BuildingUnit → BuildingDb → Option BuildingDb
add_unit u db = if storable_unit u then some (record db { units = db.units ++ u ∷ [] }) else none

-- The primary key, or the index on numbers: `mapDup` reads the code of the error, not the index.
abbrev pub not_unique : BuildingUnit → BuildingDb → Bool
not_unique u db = exists (λ v. v.id == u.id) db.units || number_taken u db

unfoldable pub create_unit_row : BuildingUnit → Build BuildingUnit
create_unit_row u = do
  now ← time_now
  let row = record u { created_at = now; updated_at = now }
  exec_unique (not_unique row) duplicate_unit_number (add_unit row)
  pure row

abbrev put_unit : BuildingUnit → BuildingDb → Option BuildingDb
put_unit u db =
    if storable_unit u
    then some (record db { units = update_where (λ v. v.id == u.id) (λ _. u) db.units })
    else none

unfoldable pub update_unit_row : BuildingUnit → Build BuildingUnit
update_unit_row u = do
  now ← time_now
  let row = record u { updated_at = now }
  exec_unique (number_taken row) duplicate_unit_number (put_unit row)
  pure row

abbrev unit_in_use : ℕ → BuildingDb → Bool
unit_in_use id db =
    exists (λ o. o.unit_id == id) db.occupancies
    || exists (λ c. c.unit_id == id) db.counts
    || listed id db.referenced

abbrev drop_unit : ℕ → BuildingDb → Option BuildingDb
drop_unit id db =
    if unit_in_use id db
    then none
    else some (record db { units = keep (λ u. not (u.id == id)) db.units })

unfoldable pub delete_unit_row : ℕ → Build (Unit {0})
delete_unit_row id = exec? (drop_unit id)
