-- ===== src/Building/Occupancies/Adding.antt =====
-- Adding an occupancy (backend/internal/building/occupancy_service.go, AddOccupancy).
use hamsa.Base.{
  ℕ, ◌+◌, subst, ◌≡◌, refl, sym, ap, ◌∙◌, true, false, not, Option, none, some, arith, ◌==◌,
}
use hamsa.Server.{
  World, ApiError, bad_request, date_required, occupancy_dates_invalid, relationship_invalid, pure,
  fail_if, ◌>>=◌, ◌>>◌, map_error, new_id,
}
use hamsa.Server.Rules.{Ends, bind-Ends, imp-Ends, map_error-Ends, fail_if-Ends}
use hamsa.Building.Model.{
  Build, BuildingDb, BuildingUnit, Person, Occupancy, Relationship, User, parse_relationship,
  zero_date,
}
use hamsa.Building.Registry.{authorized_unit}
use hamsa.Building.People.{authorized_person}
use hamsa.Building.Scope.{Same, Manages, authorized_unit-Manages}
use hamsa.Building.Occupancies.Service.{
  OccupancyInput, ends_before, create_occupancy, clash_error, named_relationship, add_occupancy,
}
use hamsa.Building.Occupancies.Running.{
  Moved, Created, create_occupancy-Created, RunsAlone, Moved-RunsAlone,
}

-- The new row is the input's; the rows of its kind that ran are closed, and it stands behind them.
abbrev pub Added : ℕ → OccupancyInput → BuildingDb → Occupancy → World BuildingDb → Type 0
Added unit_id input db o w' =
    (o.unit_id ≡ unit_id)
    × (o.person_id ≡ input.person_id)
    × (parse_relationship input.relationship ≡ some o.relationship)
    × (o.start_date ≡ input.start_date)
    × (o.end_date ≡ input.end_date)
    × (ends_before o.start_date o.end_date ≡ false)
    × (o.is_active ≡ true)
    × Moved db o w'.db

module _ (caller : User) (unit_id : ℕ) (input : OccupancyInput) (w : World BuildingDb) where
  authorized_person-Same :
      (id : ℕ) (w1 : World BuildingDb)
      → w1.db ≡ w.db
      → Ends (λ _ w'. w'.db ≡ w.db) (Same w) (authorized_person caller id w1)
  unfolding authorized_person hamsa.Building.People.find_person
      hamsa.Building.Repository.can_manager_access hamsa.Server.Monad.first hamsa.Server.Monad.query
  authorized_person-Same id w1 d = ground arith

  abbrev blank_row : Relationship → ℕ → Occupancy
  blank_row rel id = record {
    id = id;
    unit_id = unit_id;
    person_id = input.person_id;
    relationship = rel;
    start_date = input.start_date;
    end_date = input.end_date;
    is_active = true;
    created_at = 0;
  }

  abbrev Placed : Occupancy → World BuildingDb → Type 0
  Placed = Added unit_id input w.db

  abbrev store : Relationship → ℕ → Build Occupancy
  store rel id = map_error clash_error (create_occupancy (blank_row rel id))

  store-Placed :
      (rel : Relationship) (id : ℕ) (w1 : World BuildingDb)
      → parse_relationship input.relationship ≡ some rel
      → w1.db ≡ w.db
      → Ends Placed (Same w) (store rel id w1)
  store-Placed rel id w1 p d =
      map_error-Ends Placed (Same w) clash_error (create_occupancy (blank_row rel id)) w1 (
        imp-Ends _ _ (Created (blank_row rel id) w1) (Same w1)
          (create_occupancy (blank_row rel id) w1) (create_occupancy-Created (blank_row rel id) w1)
          (λ o w' q. (
            ap (λ o. o.unit_id) q.0,
            ap (λ o. o.person_id) q.0,
            p ∙ ap (λ o. some o.relationship) (sym q.0),
            ap (λ o. o.start_date) q.0,
            ap (λ o. o.end_date) q.0,
            ap (λ o. ends_before o.start_date o.end_date) q.0 ∙ q.1,
            ap (λ o. o.is_active) q.0,
            subst (λ db. Moved db o w'.db) d q.2,
          ))
          (λ _ _ e. e ∙ d))

  abbrev place : BuildingUnit → Relationship → Person → Build Occupancy
  place u rel p =
      fail_if (not (p.building_id == u.building_id)) (bad_request relationship_invalid)
      >> (new_id >>= store rel)

  place-Placed :
      (u : BuildingUnit) (rel : Relationship) (p : Person) (w1 : World BuildingDb)
      → parse_relationship input.relationship ≡ some rel
      → w1.db ≡ w.db
      → Ends Placed (Same w) (place u rel p w1)
  unfolding hamsa.Server.Monad.new_id
  place-Placed u rel p w1 h d =
      bind-Ends Placed (Same w)
        (fail_if (not (p.building_id == u.building_id)) (bad_request relationship_invalid))
        (λ _. new_id >>= store rel) w1
        (fail_if-Ends _ (Same w) (not (p.building_id == u.building_id))
          (bad_request relationship_invalid) w1
          (λ _. store-Placed rel (w1.uuid w1.drawn) (record w1 { drawn = w1.drawn + 1 }) h d)
          (λ _. d))

  abbrev admit : BuildingUnit → Relationship → Build Occupancy
  admit u rel = authorized_person caller input.person_id >>= place u rel

  admit-Placed :
      (u : BuildingUnit) (rel : Relationship) (w1 : World BuildingDb)
      → parse_relationship input.relationship ≡ some rel
      → w1.db ≡ w.db
      → Ends Placed (Same w) (admit u rel w1)
  admit-Placed u rel w1 h d =
      bind-Ends Placed (Same w) (authorized_person caller input.person_id) (place u rel) w1 (
        imp-Ends _ _ (λ _ w'. w'.db ≡ w.db) (Same w) (authorized_person caller input.person_id w1)
          (authorized_person-Same input.person_id w1 d) (λ p w2 e. place-Placed u rel p w2 h e)
          (λ _ _ e. e))

  abbrev check_dates : BuildingUnit → Relationship → Build Occupancy
  check_dates u rel =
      fail_if (input.start_date == zero_date) (bad_request date_required)
      >> (fail_if (ends_before input.start_date input.end_date)
            (bad_request occupancy_dates_invalid)
          >> admit u rel)

  check_dates-Placed :
      (u : BuildingUnit) (rel : Relationship) (w1 : World BuildingDb)
      → parse_relationship input.relationship ≡ some rel
      → w1.db ≡ w.db
      → Ends Placed (Same w) (check_dates u rel w1)
  check_dates-Placed u rel w1 h d =
      bind-Ends Placed (Same w)
        (fail_if (input.start_date == zero_date) (bad_request date_required))
        (λ _.
          fail_if (ends_before input.start_date input.end_date)
            (bad_request occupancy_dates_invalid)
          >> admit u rel)
        w1
        (fail_if-Ends _ (Same w) (input.start_date == zero_date) (bad_request date_required) w1
          (λ _.
            bind-Ends Placed (Same w)
              (fail_if (ends_before input.start_date input.end_date)
                (bad_request occupancy_dates_invalid))
              (λ _. admit u rel) w1
              (fail_if-Ends _ (Same w) (ends_before input.start_date input.end_date)
                (bad_request occupancy_dates_invalid) w1 (λ _. admit-Placed u rel w1 h d) (λ _. d)))
          (λ _. d))

  name_relationship :
      (u : BuildingUnit) (r : Option Relationship) (w1 : World BuildingDb)
      → parse_relationship input.relationship ≡ r
      → w1.db ≡ w.db
      → Ends Placed (Same w) ((named_relationship r >>= check_dates u) w1)
  name_relationship u none w1 h d = d
  name_relationship u (some rel) w1 h d = check_dates-Placed u rel w1 h d

pub add_occupancy-Added :
    (caller : User) (unit_id : ℕ) (input : OccupancyInput) (w : World BuildingDb)
    → Ends (Added unit_id input w.db) (Same w) (add_occupancy caller unit_id input w)
unfolding add_occupancy
add_occupancy-Added caller unit_id input w =
    bind-Ends (Added unit_id input w.db) (Same w) (authorized_unit caller unit_id)
      (λ u.
        named_relationship (parse_relationship input.relationship)
        >>= check_dates caller unit_id input w u)
      w
      (imp-Ends _ _ (Manages caller unit_id w) (Same w) (authorized_unit caller unit_id w)
        (authorized_unit-Manages caller unit_id w)
        (λ u w1 h. name_relationship caller unit_id input w u _ w1 refl h.0) (λ _ _ e. e))

abbrev pub Replaces : ℕ → OccupancyInput → BuildingDb → Occupancy → World BuildingDb → Type 0
Replaces unit_id input db o w' =
    (o.unit_id ≡ unit_id)
    × (parse_relationship input.relationship ≡ some o.relationship)
    × (o.end_date ≡ input.end_date)
    × RunsAlone db o w'.db

-- AddOccupancy does not panic. Where it succeeds, the new occupancy is of the given unit, relationship and end date; if it has no end
-- date, it is the one occupancy without an end date of its unit and relationship, and if it has one, there is no such
-- occupancy: the one that was there is closed also then, and an owner's as a tenant's. The occupancies without an end date of every other unit or
-- relationship are as before. Where the call fails, the database is as it was.
pub add_occupancy-Replaces :
    (caller : User) (unit_id : ℕ) (input : OccupancyInput) (w : World BuildingDb)
    → Ends (Replaces unit_id input w.db) (Same w) (add_occupancy caller unit_id input w)
add_occupancy-Replaces caller unit_id input w =
    imp-Ends _ _ (Added unit_id input w.db) (Same w) (add_occupancy caller unit_id input w)
      (add_occupancy-Added caller unit_id input w)
      (λ o w' q. (q.0, q.2, q.4, Moved-RunsAlone w.db o w'.db q.7)) (λ _ _ e. e)
