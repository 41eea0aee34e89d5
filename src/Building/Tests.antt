-- ===== src/Building/Tests.antt =====
-- Examples for backend/internal/building: a building with two managers, a unit, a tenant, and a
-- resident who may become a manager.
use hamsa.Base.{
  ℕ, ◌+◌, ◌≡◌, refl, Bool, true, false, List, [], ◌∷◌, ◌++◌, Option, none, some, ◌⊎◌, leb, arith,
}
use hamsa.Base.Int.{pos}
use hamsa.Base.Text.{Text, codes}
use hamsa.Base.Results.{is_ok}
use hamsa.Server.{World, database}
use hamsa.Server.Rules.{Ends}
use hamsa.Building.Model.{
  BuildingDb, Building, BuildingUnit, UserBuilding, User, role_manager, role_resident, Person,
  Occupancy, tenant, active, OccupantCount,
}
use hamsa.Building.Registry.{UnitInput, blank_building, blank_unit, delete_building, add_unit}
use hamsa.Building.Managers.{grant_manager_by_phone, revoke_manager}
use hamsa.Building.NationalId.Checksum.{national_id_valid}
use hamsa.Building.NationalId.Detects.{last, national_id_valid-detects}
use hamsa.Building.Scope.{Same}
use hamsa.Building.Removal.{delete_building-Refused}
use hamsa.Building.Handover.{Revoked, revoke_manager-Revoked}
use hamsa.Building.Granting.{Granted, Ungranted, grant_manager_by_phone-Granted}
use hamsa.Building.Numbering.{Registered, Unregistered, add_unit-Registered}
use hamsa.Building.Occupancies.Service.{
  OccupancyInput, add_occupancy, end_occupancy, record_occupant_count, occupant_count_as_of,
}
use hamsa.Building.Occupancies.Adding.{Replaces, add_occupancy-Replaces}
use hamsa.Building.Occupancies.Ending.{Ended, end_occupancy-Ended}
use hamsa.Building.Occupancies.History.{Tidy, adds, ends, run, run-Tidy}
use hamsa.Building.Occupancies.Counts.{record_occupant_count-read}

abbrev first_manager : User
first_manager = record {
  id = 9;
  phone = codes "09120000001";
  name = codes "a";
  role = role_manager;
  is_active = true;
  deleted_at = none;
}

abbrev neighbour : User
neighbour = record {
  id = 7;
  phone = codes "09120000002";
  name = codes "b";
  role = role_resident;
  is_active = true;
  deleted_at = none;
}

abbrev old_tenancy : Occupancy
old_tenancy = record {
  id = 50;
  unit_id = 2;
  person_id = 4;
  relationship = tenant;
  start_date = 1000;
  end_date = none;
  is_active = true;
  created_at = 5;
}

abbrev flat : BuildingUnit
flat = record (blank_unit 2 1) { number = codes "1"; area_m2 = pos 80; status = active }

abbrev lodger : Person
lodger = record {
  id = 4;
  building_id = 1;
  full_name = codes "c";
  phone = none;
  national_id = none;
  created_at = 1;
  updated_at = 1;
  deleted_at = none;
}

abbrev world : World BuildingDb
world = record {
  db = record {
    buildings = record (blank_building 1) { name = codes "x" } ∷ [];
    units = flat ∷ [];
    grants =
        record { user_id = 9; building_id = 1; granted_at = 1 }
        ∷ record { user_id = 8; building_id = 1; granted_at = 2 }
        ∷ [];
    users = first_manager ∷ neighbour ∷ [];
    persons = lodger ∷ [];
    occupancies = old_tenancy ∷ [];
    counts = [];
    referenced = [];
  };
  faults = λ _. false;
  calls = 0;
  uuid = λ k. 100 + k;
  drawn = 0;
  now = 20;
}

delete_building_fails : is_ok (delete_building first_manager 1 world).0 ≡ false
unfolding delete_building hamsa.Building.Registry.authorized_building
    hamsa.Building.Repository.find_building hamsa.Building.Repository.can_manager_access
    hamsa.Building.Repository.delete_building_row hamsa.Server.Monad.first hamsa.Server.Monad.query
    hamsa.Server.Monad.exec?
delete_building_fails = refl

delete_building-Refused_example :
    Ends (λ _ _. ⊥) (Same world) (delete_building first_manager 1 world)
delete_building-Refused_example = delete_building-Refused first_manager 1 world

revoke_runs : is_ok (revoke_manager first_manager 1 8 world).0 ≡ true
unfolding revoke_manager hamsa.Building.Registry.authorized_building
    hamsa.Building.Repository.find_building hamsa.Building.Repository.can_manager_access
    hamsa.Building.Repository.count_building_managers
    hamsa.Building.Repository.revoke_manager_guarded hamsa.Server.Monad.first
    hamsa.Server.Monad.query hamsa.Server.Monad.exec
revoke_runs = refl

revoke_manager-Revoked_example :
    Ends (Revoked first_manager 1 8 world) (Same world) (revoke_manager first_manager 1 8 world)
revoke_manager-Revoked_example = revoke_manager-Revoked first_manager 1 8 world

grant_runs : is_ok (grant_manager_by_phone first_manager 1 (codes "09120000002") world).0 ≡ true
unfolding grant_manager_by_phone hamsa.Building.Registry.authorized_building
    hamsa.Building.Repository.find_building hamsa.Building.Repository.can_manager_access
    hamsa.Building.Repository.find_active_user_by_phone
    hamsa.Building.Repository.insert_manager_grant
    hamsa.Building.Repository.promote_resident_to_manager
    hamsa.Building.Repository.manager_grant_row hamsa.Auth.Invites.is_iranian_mobile
    hamsa.Server.Monad.first hamsa.Server.Monad.query hamsa.Server.Monad.exec
    hamsa.Server.Monad.exec_unique hamsa.Server.Monad.time_now
grant_runs = refl

grant_manager_by_phone-Granted_example :
    Ends
      (Granted 1 world)
      (Ungranted 1 world)
      (grant_manager_by_phone first_manager 1 (codes "09120000002") world)
grant_manager_by_phone-Granted_example =
    grant_manager_by_phone-Granted first_manager 1 (codes "09120000002") world

valid_id : national_id_valid (codes "0123456061") ≡ true
unfolding national_id_valid
valid_id = refl

-- Another first digit, and the checksum does not see it: both end in 1.
valid_id_changed : national_id_valid (codes "9123456061") ≡ true
unfolding national_id_valid
valid_id_changed = refl

national_id_valid-detects_example :
    (◌≡◌ {A = ℕ} b'0' b'9') ⊎ (last (codes "0123456061") ≡ some b'1')
national_id_valid-detects_example =
    national_id_valid-detects [] (codes "123456061") b'0' b'9' valid_id valid_id_changed

abbrev second_flat : UnitInput
second_flat = record {
  number = codes " 2 ";
  block = none;
  floor = some (pos 1);
  area_m2 = some (pos 90);
  parking_count = none;
  parking_numbers = none;
  storage_count = none;
  storage_numbers = none;
  status = some (codes "active");
  notes = none;
}

add_unit_runs : is_ok (add_unit first_manager 1 second_flat world).0 ≡ true
unfolding add_unit hamsa.Building.Registry.authorized_building
    hamsa.Building.Registry.apply_unit_input hamsa.Building.Registry.choose_status
    hamsa.Building.Model.parse_unit_status hamsa.Building.Repository.find_building
    hamsa.Building.Repository.can_manager_access hamsa.Building.Repository.create_unit_row
    hamsa.Base.Text.trim_space hamsa.Server.Monad.first hamsa.Server.Monad.query
    hamsa.Server.Monad.exec_unique hamsa.Server.Monad.new_id hamsa.Server.Monad.time_now
add_unit_runs = refl

-- Without a status the row is refused.
add_unit_no_status :
    is_ok (add_unit first_manager 1 (record second_flat { status = none }) world).0 ≡ false
unfolding add_unit hamsa.Building.Registry.authorized_building
    hamsa.Building.Registry.apply_unit_input hamsa.Building.Registry.choose_status
    hamsa.Building.Repository.find_building hamsa.Building.Repository.can_manager_access
    hamsa.Building.Repository.create_unit_row hamsa.Base.Text.trim_space hamsa.Server.Monad.first
    hamsa.Server.Monad.query hamsa.Server.Monad.exec_unique hamsa.Server.Monad.new_id
    hamsa.Server.Monad.time_now
add_unit_no_status = refl

add_unit-Registered_example :
    Ends
      (Registered 1 second_flat world.db)
      (Unregistered 1 second_flat (world.uuid world.drawn) world.db)
      (add_unit first_manager 1 second_flat world)
add_unit-Registered_example = add_unit-Registered first_manager 1 second_flat world

abbrev past_tenancy : OccupancyInput
past_tenancy = record {
  person_id = 4;
  relationship = codes "tenant";
  start_date = 500;
  end_date = some 600;
}

add_occupancy_runs : is_ok (add_occupancy first_manager 2 past_tenancy world).0 ≡ true
unfolding add_occupancy hamsa.Building.Registry.authorized_unit
    hamsa.Building.People.authorized_person hamsa.Building.People.find_person
    hamsa.Building.Model.parse_relationship hamsa.Building.Repository.find_unit
    hamsa.Building.Repository.can_manager_access hamsa.Building.Occupancies.Service.create_occupancy
    hamsa.Server.Monad.transaction hamsa.Server.Monad.first hamsa.Server.Monad.query
    hamsa.Server.Monad.exec hamsa.Server.Monad.exec_unique hamsa.Server.Monad.new_id
    hamsa.Server.Monad.time_now
add_occupancy_runs = refl

add_occupancy-Replaces_example :
    Ends
      (Replaces 2 past_tenancy world.db)
      (Same world)
      (add_occupancy first_manager 2 past_tenancy world)
add_occupancy-Replaces_example = add_occupancy-Replaces first_manager 2 past_tenancy world

end_occupancy_runs : is_ok (end_occupancy first_manager 50 1200 world).0 ≡ true
unfolding end_occupancy hamsa.Building.Registry.authorized_unit hamsa.Building.Repository.find_unit
    hamsa.Building.Repository.can_manager_access hamsa.Building.Occupancies.Service.find_occupancy
    hamsa.Building.Occupancies.Service.end_occupancy_row hamsa.Server.Monad.first
    hamsa.Server.Monad.query hamsa.Server.Monad.exec
end_occupancy_runs = refl

end_occupancy-Ended_example :
    Ends (Ended 50 1200 world.db) (Same world) (end_occupancy first_manager 50 1200 world)
end_occupancy-Ended_example = end_occupancy-Ended first_manager 50 1200 world

world-Tidy : Tidy world.db
world-Tidy = (λ u r. ground arith, (refl, tt), (refl, tt))

run-Tidy_example :
    Tidy (run (adds first_manager 2 past_tenancy ∷ ends first_manager 50 1200 ∷ []) world).db
run-Tidy_example =
    run-Tidy (adds first_manager 2 past_tenancy ∷ ends first_manager 50 1200 ∷ []) world world-Tidy

record_runs : is_ok (record_occupant_count first_manager 2 (pos 3) 1000 world).0 ≡ true
unfolding record_occupant_count hamsa.Building.Registry.authorized_unit
    hamsa.Building.Repository.find_unit hamsa.Building.Repository.can_manager_access
    hamsa.Server.Monad.first hamsa.Server.Monad.query hamsa.Server.Monad.exec?
    hamsa.Server.Monad.new_id hamsa.Server.Monad.time_now
record_runs = refl

record_occupant_count-read_example :
    Ends
      (λ _ w1. Ends (λ z _. z ≡ pos 3) (λ e _. e ≡ database) (occupant_count_as_of 2 1100 w1))
      (Same world)
      (record_occupant_count first_manager 2 (pos 3) 1000 world)
record_occupant_count-read_example =
    record_occupant_count-read first_manager 2 (pos 3) 1000 1100 world refl refl
