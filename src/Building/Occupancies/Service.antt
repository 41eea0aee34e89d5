-- ===== src/Building/Occupancies/Service.antt =====
-- The occupancies of a unit (backend/internal/building/occupancy_service.go and
-- occupancy_repository.go, with the checks and the unique index of migration 0003).
use hamsa.Base.{
  ℕ, ◌-◌, Bool, true, false, ◌&&◌, ◌||◌, not, List, [], ◌∷◌, ◌++◌, Option, none, some, exists, find,
  update_where, leb, ltb, ◌==◌, if◌then◌else◌,
}
use hamsa.Base.Int.{ℤ, pos, ltb_ℤ}
use hamsa.Base.Text.{Text}
use hamsa.Server.{
  ApiError, bad_request, conflict, occupancy_conflict, relationship_invalid,
  occupancy_dates_invalid, date_required, occupancy_not_found, occupancy_already_ended,
  occupancy_clash, occupant_count_invalid, pure, fail, fail_if, ◌>>=◌, ◌>>◌, query, exec, exec?,
  exec_unique, first, map_error, or_not_found, new_id, time_now, transaction,
}
use hamsa.Building.Model.{
  Build, BuildingDb, User, Occupancy, OccupantCount, Relationship, tenant, parse_relationship,
  same_relationship, zero_date,
}
use hamsa.Building.Repository.{fits_count}
use hamsa.Building.Registry.{authorized_unit}
use hamsa.Building.People.{authorized_person}

pub record OccupancyInput : Type 0 where
  pub person_id : ℕ
  pub relationship : Text
  pub start_date : ℕ
  pub end_date : Option ℕ

abbrev pub is_open : Option ℕ → Bool
is_open none = true
is_open (some _) = false

-- An occupancy of the unit with the relationship that has no end date.
abbrev pub runs : ℕ → Relationship → Occupancy → Bool
runs unit_id rel o =
    o.unit_id == unit_id && same_relationship o.relationship rel && is_open o.end_date

abbrev later : ℕ → ℕ → ℕ
later a b = if leb a b then b else a

-- `GREATEST(start_date, ?::date - 1)`
abbrev pub close : ℕ → Occupancy → Occupancy
close start o = record o { end_date = some (later o.start_date (start - 1)); is_active = false }

abbrev pub close_running : Occupancy → BuildingDb → BuildingDb
close_running o db = record db {
  occupancies = update_where (runs o.unit_id o.relationship) (close o.start_date) db.occupancies;
}

abbrev pub id_taken : Occupancy → BuildingDb → Bool
id_taken o db = exists (λ p. p.id == o.id) db.occupancies

-- The primary key, and `uq_occupancies_active_tenant`.
abbrev not_unique : Occupancy → BuildingDb → Bool
not_unique o db =
    id_taken o db
    || (same_relationship o.relationship tenant
        && is_open o.end_date
        && exists (runs o.unit_id tenant) db.occupancies)

abbrev pub ends_before : ℕ → Option ℕ → Bool
ends_before start none = false
ends_before start (some e) = ltb e start

-- The CHECK on the two dates.
abbrev add_occupancy_row : Occupancy → BuildingDb → Option BuildingDb
add_occupancy_row o db =
    if ends_before o.start_date o.end_date
    then none
    else some (record db { occupancies = db.occupancies ++ o ∷ [] })

unfoldable pub create_occupancy : Occupancy → Build Occupancy
create_occupancy o = transaction (do
  exec (close_running o)
  now ← time_now
  let row = record o { created_at = now }
  exec_unique (not_unique row) occupancy_conflict (add_occupancy_row row)
  pure row)

abbrev pub clash_error : ApiError → ApiError
clash_error occupancy_conflict = conflict occupancy_clash
clash_error e = e

abbrev pub named_relationship : Option Relationship → Build Relationship
named_relationship none = fail (bad_request relationship_invalid)
named_relationship (some r) = pure r

unfoldable pub add_occupancy : User → ℕ → OccupancyInput → Build Occupancy
unfolding authorized_unit authorized_person create_occupancy
add_occupancy caller unit_id input = do
  u ← authorized_unit caller unit_id
  rel ← named_relationship (parse_relationship input.relationship)
  fail_if (input.start_date == zero_date) (bad_request date_required)
  fail_if (ends_before input.start_date input.end_date) (bad_request occupancy_dates_invalid)
  p ← authorized_person caller input.person_id
  fail_if (not (p.building_id == u.building_id)) (bad_request relationship_invalid)
  id ← new_id
  map_error clash_error (
      create_occupancy (record {
        id = id;
        unit_id = unit_id;
        person_id = input.person_id;
        relationship = rel;
        start_date = input.start_date;
        end_date = input.end_date;
        is_active = true;
        created_at = 0;
      }))

unfoldable pub find_occupancy : ℕ → Build Occupancy
find_occupancy id = first (λ db. find (λ o. o.id == id) db.occupancies)

abbrev pub end_at : ℕ → Occupancy → Occupancy
end_at e o = record o { end_date = some e; is_active = false }

abbrev pub end_row : ℕ → ℕ → BuildingDb → BuildingDb
end_row id e db = record db {
  occupancies = update_where (λ o. o.id == id) (end_at e) db.occupancies;
}

unfoldable pub end_occupancy_row : ℕ → ℕ → Build (Unit {0})
end_occupancy_row id e = exec (end_row id e)

unfoldable pub end_occupancy : User → ℕ → ℕ → Build Occupancy
unfolding find_occupancy authorized_unit end_occupancy_row
end_occupancy caller id end_date = do
  o ← map_error (or_not_found occupancy_not_found) (find_occupancy id)
  authorized_unit caller o.unit_id
  fail_if (not (is_open o.end_date)) (conflict occupancy_already_ended)
  fail_if (end_date == zero_date) (bad_request date_required)
  fail_if (ltb end_date o.start_date) (bad_request occupancy_dates_invalid)
  end_occupancy_row id end_date
  pure (end_at end_date o)

-- The number of occupants, recorded apart from the occupancies.

abbrev add_count : OccupantCount → BuildingDb → Option BuildingDb
add_count c db =
    if fits_count c.occupant_count then some (record db { counts = db.counts ++ c ∷ [] }) else none

unfoldable pub record_occupant_count : User → ℕ → ℤ → ℕ → Build OccupantCount
unfolding authorized_unit
record_occupant_count caller unit_id count effective_from = do
  authorized_unit caller unit_id
  fail_if (ltb_ℤ count (pos 0)) (bad_request occupant_count_invalid)
  fail_if (effective_from == zero_date) (bad_request date_required)
  id ← new_id
  now ← time_now
  let row : OccupantCount = record {
    id = id;
    unit_id = unit_id;
    occupant_count = count;
    effective_from = effective_from;
    created_at = now;
  }
  exec? (add_count row)
  pure row

-- `ORDER BY effective_from DESC, created_at DESC LIMIT 1` among the rows up to the day; of rows
-- that agree in both, the later one.
abbrev pub supersedes : OccupantCount → OccupantCount → Bool
supersedes c best =
    ltb best.effective_from c.effective_from
    || (best.effective_from == c.effective_from && leb best.created_at c.created_at)

abbrev better : OccupantCount → Option OccupantCount → Option OccupantCount
better c none = some c
better c (some best) = if supersedes c best then some c else some best

abbrev pub latest_count : ℕ → ℕ → Option OccupantCount → List OccupantCount → Option OccupantCount
latest_count unit_id ref best [] = best
latest_count unit_id ref best (c ∷ cs) =
    latest_count unit_id ref
      (if c.unit_id == unit_id && leb c.effective_from ref then better c best else best) cs

abbrev pub count_or_zero : Option OccupantCount → ℤ
count_or_zero none = pos 0
count_or_zero (some c) = c.occupant_count

unfoldable pub occupant_count_as_of : ℕ → ℕ → Build ℤ
occupant_count_as_of unit_id ref =
    query (λ db. count_or_zero (latest_count unit_id ref none db.counts))
