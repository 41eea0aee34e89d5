-- ===== src/Maintenance/Service/Patching.antt =====
-- The manager's update of a request (backend/internal/maintenance/service.go), part by part.
use hamsa.Base.{ℕ, not, Option, none, some, is_empty, ◌==◌, if◌then◌else◌}
use hamsa.Base.Int.{ℤ, pos, ltb_ℤ}
use hamsa.Base.Text.{Text, trim_space}
use hamsa.Server.{
  bad_request, conflict, status_invalid, transition_invalid, assignee_not_found, cost_invalid, pure,
  fail, fail_if, ◌>>=◌, ◌>>◌, best_effort, time_now,
}
use hamsa.Maintenance.Model.{
  Status, closed, parse_status, can_transition, same_status, MaintenanceRequest,
  request_status_changed, status_changed,
}
use hamsa.Maintenance.Service.Rows.{Maintain, or_fail, save, person_exists}
use hamsa.Maintenance.Service.Submitting.{User, notify, append_audit}
use hamsa.Maintenance.Service.Reads.{get_for_manager}

-- What TrimSpace and strconv.ParseInt make of the text of a cost.
pub data CostInput : Type 0 where
  clear not_a_number : CostInput
  number : ℤ → CostInput

pub record UpdateInput : Type 0 where
  pub status : Option Text
  pub assignee_person_id : Option ℕ  -- 0 is uuid.Nil
  pub recorded_cost : Option CostInput
  pub notes : Option Text

-- The manager's patch, part by part.

abbrev pub close_at : Status → ℕ → Option ℕ → Option ℕ
close_at closed now old = some now
close_at _ now old = old

unfoldable pub move_to : Status → MaintenanceRequest → Maintain MaintenanceRequest
move_to next m = if same_status next m.status then pure m else do
  fail_if (not (can_transition m.status next)) (conflict transition_invalid)
  now ← time_now
  pure (record m { status = next; closed_at = close_at next now m.closed_at })

unfoldable pub patch_status : Option Text → MaintenanceRequest → Maintain MaintenanceRequest
unfolding move_to
patch_status none m = pure m
patch_status (some s) m = do
  next ← or_fail (parse_status (trim_space s)) (bad_request status_invalid)
  move_to next m

unfoldable pub patch_assignee : Option ℕ → MaintenanceRequest → Maintain MaintenanceRequest
unfolding person_exists
patch_assignee none m = pure m
patch_assignee (some id) m = if id == 0 then pure (record m { assignee_person_id = none }) else do
  known ← person_exists id
  fail_if (not known) (bad_request assignee_not_found)
  pure (record m { assignee_person_id = some id })

unfoldable pub patch_cost : Option CostInput → MaintenanceRequest → Maintain MaintenanceRequest
patch_cost none m = pure m
patch_cost (some clear) m = pure (record m { recorded_cost = none })
patch_cost (some not_a_number) m = fail (bad_request cost_invalid)
patch_cost (some (number z)) m = do
  fail_if (ltb_ℤ z (pos 0)) (bad_request cost_invalid)
  pure (record m { recorded_cost = some z })

abbrev pub patch_notes : Option Text → MaintenanceRequest → MaintenanceRequest
patch_notes none m = m
patch_notes (some s) m = record m { notes = if is_empty (trim_space s) then none else some s }

-- The notification and the audit entry of a changed status.
unfoldable pub announce : User → MaintenanceRequest → MaintenanceRequest → Maintain (Unit {0})
unfolding notify append_audit
announce manager before m = if same_status m.status before.status then pure tt else do
  best_effort (notify m.submitted_by request_status_changed m.id)
  best_effort (
      append_audit
        (record { user_id = manager.id; action = status_changed; before = some before; after = m }))

-- The changed row, and the row before.
unfoldable pub update : User → ℕ → UpdateInput → Maintain (MaintenanceRequest × MaintenanceRequest)
unfolding get_for_manager patch_status patch_assignee patch_cost save announce
update manager id input = do
  before ← get_for_manager manager id
  m1 ← patch_status input.status before
  m2 ← patch_assignee input.assignee_person_id m1
  m3 ← patch_cost input.recorded_cost m2
  now ← time_now
  let m = record (patch_notes input.notes m3) { updated_at = now }
  save m
  announce manager before m
  pure (m, before)
