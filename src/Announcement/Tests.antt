-- ===== src/Announcement/Tests.antt =====
-- Examples for backend/internal/announcement: a building with a manager, a unit on the third floor
-- and its resident.
use hamsa.Base.{
  ℕ, ◌+◌, ◌≡◌, refl, Bool, true, false, ◌&&◌, List, [], ◌∷◌, Option, none, some, arith,
}
use hamsa.Base.Int.{pos}
use hamsa.Base.Decimal.{scan_int}
use hamsa.Base.Text.{Text, codes}
use hamsa.Base.Results.{is_ok}
use hamsa.Server.{World}
use hamsa.Server.Rules.{Ends}
use hamsa.Building.Model.{
  BuildingUnit, User, role_manager, role_resident, Person, Occupancy, tenant, active,
}
use hamsa.Building.Repository.{is_live}
use hamsa.Building.Registry.{blank_unit}
use hamsa.Announcement.Model.{AnnouncementDb, Announcement, UnitInfo, audience_all, audience_floor}
use hamsa.Announcement.Repository.{units_of_phone, sees, in_window, is_visible}
use hamsa.Announcement.Reads.{is_target}
use hamsa.Announcement.Input.{Input, instant, check_value}
use hamsa.Announcement.Service.{create, mark_read}
use hamsa.Announcement.Targets.{is_target-sees}
use hamsa.Announcement.Marking.{Marked, Untouched, mark_read-Marked}
use hamsa.Announcement.Floors.{on_floor, shown, floor_audience-sees}
use hamsa.Announcement.Board.Rows.{AllValid}
use hamsa.Announcement.Board.Sequence.{creates, edits, marks, removes, run, run-AllValid}

abbrev no_uuid : Text → Option ℕ
no_uuid s = none

abbrev chief : User
chief = record {
  id = 9;
  phone = codes "09120000001";
  name = codes "a";
  role = role_manager;
  is_active = true;
  deleted_at = none;
}

abbrev dweller : User
dweller = record {
  id = 7;
  phone = codes "09120000002";
  name = codes "b";
  role = role_resident;
  is_active = true;
  deleted_at = none;
}

abbrev flat : BuildingUnit
flat = record (blank_unit 2 1) {
  number = codes "1";
  area_m2 = pos 80;
  status = active;
  floor = pos 3;
}

abbrev dweller_person : Person
dweller_person = record {
  id = 4;
  building_id = 1;
  full_name = codes "b";
  phone = some (codes "09120000002");
  national_id = none;
  created_at = 1;
  updated_at = 1;
  deleted_at = none;
}

abbrev tenancy : Occupancy
tenancy = record {
  id = 50;
  unit_id = 2;
  person_id = 4;
  relationship = tenant;
  start_date = 1000;
  end_date = none;
  is_active = true;
  created_at = 5;
}

abbrev lift_works : Announcement
lift_works = record {
  id = 30;
  building_id = 1;
  title = codes "lift";
  body = codes "works";
  audience_type = audience_floor;
  audience_value = some (codes "3");
  publish_at = some 10;
  expire_at = some 90;
  attachment_file = none;
  created_by = 9;
  created_at = 5;
  updated_at = 5;
}

abbrev world : World AnnouncementDb
world = record {
  db = record {
    announcements = lift_works ∷ [];
    reads = [];
    grants = record { user_id = 9; building_id = 1; granted_at = 1 } ∷ [];
    users = chief ∷ dweller ∷ [];
    units = flat ∷ [];
    persons = dweller_person ∷ [];
    occupancies = tenancy ∷ [];
    files = [];
    notices = [];
    audit_log = [];
  };
  faults = λ _. false;
  calls = 0;
  uuid = λ k. 100 + k;
  drawn = 0;
  now = 20;
}

lift_works-window : in_window lift_works 20 ≡ true
unfolding in_window
lift_works-window = refl

dweller_targeted : is_target no_uuid lift_works world.db dweller ≡ true
unfolding is_target hamsa.Base.Decimal.print_int
dweller_targeted = refl

is_target-sees_example : is_target no_uuid lift_works world.db dweller ≡ (
    is_live dweller.deleted_at
    && dweller.is_active
    && sees no_uuid (units_of_phone dweller.phone world.db) 20 lift_works)
is_target-sees_example = is_target-sees no_uuid lift_works world.db dweller 20 tt lift_works-window

mark_read_runs : is_ok (mark_read no_uuid dweller 30 world).0 ≡ true
unfolding mark_read hamsa.Announcement.Service.visible_row hamsa.Announcement.Repository.get_row
    hamsa.Announcement.Repository.resident_units hamsa.Announcement.Repository.is_visible_id
    hamsa.Announcement.Repository.is_visible in_window sees hamsa.Base.Decimal.print_int
    hamsa.Announcement.Reads.insert_mark hamsa.Server.Monad.first hamsa.Server.Monad.query
    hamsa.Server.Monad.exec hamsa.Server.Monad.time_now
mark_read_runs = refl

mark_read-Marked_example :
    Ends (Marked no_uuid dweller 30 world) (Untouched world) (mark_read no_uuid dweller 30 world)
mark_read-Marked_example = mark_read-Marked no_uuid dweller 30 world

abbrev upstairs : UnitInfo
upstairs = record { id = 2; building_id = 1; block = none; floor = pos 3 }

third_floor : scan_int (codes "+03rd") ≡ some (pos 3)
unfolding scan_int
third_floor = refl

floor_audience-sees_example :
    Ends
      (λ t w'.
        (w' ≡ world)
        × (sees no_uuid
              (upstairs ∷ [])
              20
              (record lift_works { audience_type = audience_floor; audience_value = some t })
            ≡ (shown lift_works.publish_at lift_works.expire_at 20
                && on_floor 1 (pos 3) (upstairs ∷ []))))
      (λ _ _. ⊥)
      (check_value no_uuid audience_floor 1 (codes "+03rd") world)
floor_audience-sees_example =
    floor_audience-sees no_uuid lift_works (codes "+03rd") (pos 3) (upstairs ∷ []) 20 world
      third_floor (omega arith, tt)

abbrev news : Input
news = record {
  title = codes " water ";
  body = codes "off";
  audience_type = codes "all";
  audience_value = none;
  publish_at = some (instant 15);
  expire_at = none;
  attachment_file_id = none;
}

create_runs : is_ok (create no_uuid chief 1 news world).0 ≡ true
unfolding create hamsa.Announcement.Service.managed hamsa.Announcement.Repository.is_manager_of
    hamsa.Announcement.Input.apply_input hamsa.Announcement.Input.apply_title
    hamsa.Announcement.Input.apply_body hamsa.Announcement.Input.apply_audience
    hamsa.Announcement.Input.audience_value_of hamsa.Announcement.Input.apply_time
    hamsa.Announcement.Input.apply_attachment hamsa.Announcement.Model.parse_audience
    hamsa.Announcement.Repository.create_row hamsa.Announcement.Service.notify_if
    hamsa.Announcement.Service.notify_targets hamsa.Announcement.Service.notify_one
    hamsa.Announcement.Reads.target_user_ids is_target in_window hamsa.Base.Text.trim_space
    hamsa.Server.Monad.query hamsa.Server.Monad.exec hamsa.Server.Monad.new_id
    hamsa.Server.Monad.time_now hamsa.Server.Monad.best_effort
create_runs = refl

world-AllValid : AllValid world.db
unfolding hamsa.Base.Text.trim_space
world-AllValid = (((refl, refl), refl, refl, refl), tt)

run-AllValid_example :
    AllValid
      (run no_uuid
        (creates chief 1 news ∷ edits chief 30 news ∷ marks dweller 30 ∷ removes chief 30 ∷ [])
        world).db
run-AllValid_example =
    run-AllValid no_uuid
      (creates chief 1 news ∷ edits chief 30 news ∷ marks dweller 30 ∷ removes chief 30 ∷ []) world
      world-AllValid
