-- ===== src/Maintenance/Tests.antt =====
-- Examples for backend/internal/maintenance: a building with one resident and one manager.
use hamsa.Base.{ℕ, ◌≡◌, refl, Bool, true, false, List, [], ◌∷◌, Option, none, some, ◌≤◌, ◌+◌}
use hamsa.Base.Text.{codes}
use hamsa.Base.Results.{is_ok}
use hamsa.Server.{World}
use hamsa.Server.Rules.{Ends}
use hamsa.Maintenance.Model.{
  elevator, normal, new, under_review, closed, MaintenanceRequest, MaintenanceDb, Grant, Residence,
}
use hamsa.Maintenance.Service.{User, SubmitInput, UpdateInput, submit, update}
use hamsa.Maintenance.Workflow.{Updated, update-Updated}
use hamsa.Maintenance.Workflow.Steps.{Untouched}
use hamsa.Maintenance.Submission.{Submitted, NotStored, submit-Submitted}
use hamsa.Maintenance.Lifecycle.{Reaches, stay, move, rank, Reaches-rank}

abbrev request : MaintenanceRequest
request = record {
  id = 5;
  building_id = 1;
  unit_id = some 2;
  submitted_by = 7;
  title = codes "lift";
  category = elevator;
  description = none;
  location = none;
  photo_file = none;
  priority = normal;
  status = new;
  assignee_person_id = none;
  recorded_cost = none;
  notes = none;
  created_at = 10;
  updated_at = 10;
  closed_at = none;
}

abbrev world : World MaintenanceDb
world = record {
  db = record {
    requests = request ∷ [];
    grants = record { user_id = 9; building_id = 1 } ∷ [];
    residences = record { phone = 912; building_id = 1; unit_id = 2 } ∷ [];
    persons = [];
    photos = [];
    notices = [];
    audit_log = [];
  };
  faults = λ _. false;
  calls = 0;
  uuid = λ k. 100 + k;
  drawn = 0;
  now = 20;
}

abbrev manager : User
manager = record { id = 9; phone = 911 }

abbrev resident : User
resident = record { id = 7; phone = 912 }

abbrev to_review : UpdateInput
to_review = record {
  status = some (codes "under_review");
  assignee_person_id = none;
  recorded_cost = none;
  notes = none;
}

abbrev lift_report : SubmitInput
lift_report = record {
  title = codes " lift ";
  category = codes "elevator";
  description = none;
  location = none;
  photo_file_id = none;
  priority = [];
}

update-Updated_example :
    Ends (Updated manager 5 world) (Untouched world) (update manager 5 to_review world)
update-Updated_example = update-Updated manager 5 world to_review

submit-Submitted_example :
    Ends
      (Submitted resident lift_report world)
      (NotStored world)
      (submit resident lift_report world)
submit-Submitted_example = submit-Submitted resident lift_report world

two_moves : Reaches new 2 closed
unfolding hamsa.Maintenance.Model.can_transition
two_moves = move 1 under_review closed (move 0 new under_review stay refl) refl

Reaches-rank_example : rank new + 2 ≤ rank closed
Reaches-rank_example = Reaches-rank new closed 2 two_moves

update_runs : is_ok (update manager 5 to_review world).0 ≡ true
unfolding update hamsa.Maintenance.Service.get_for_manager hamsa.Maintenance.Service.get
    hamsa.Maintenance.Service.is_manager_of hamsa.Maintenance.Service.patch_status
    hamsa.Maintenance.Service.patch_assignee hamsa.Maintenance.Service.patch_cost
    hamsa.Maintenance.Service.move_to hamsa.Maintenance.Service.save
    hamsa.Maintenance.Service.announce hamsa.Maintenance.Model.parse_status
    hamsa.Maintenance.Model.can_transition hamsa.Base.Text.trim_space hamsa.Server.Monad.query
    hamsa.Server.Monad.first hamsa.Server.Monad.exec hamsa.Server.Monad.best_effort
    hamsa.Server.Monad.new_id hamsa.Server.Monad.time_now
update_runs = refl

submit_runs : is_ok (submit resident lift_report world).0 ≡ true
unfolding submit hamsa.Maintenance.Service.photo_path
    hamsa.Maintenance.Service.resolve_resident_unit hamsa.Maintenance.Service.insert
    hamsa.Maintenance.Service.notify hamsa.Maintenance.Service.append_audit
    hamsa.Maintenance.Model.parse_category hamsa.Maintenance.Model.parse_priority
    hamsa.Base.Text.trim_space hamsa.Server.Monad.query hamsa.Server.Monad.first
    hamsa.Server.Monad.exec hamsa.Server.Monad.best_effort hamsa.Server.Monad.new_id
    hamsa.Server.Monad.time_now
submit_runs = refl
