-- ===== src/Maintenance/Service/Submitting.antt =====
-- The submission of a request (backend/internal/maintenance/service.go).
use hamsa.Base.{ℕ, Bool, false, [], ◌∷◌, Option, none, some, find, length, is_empty, ltb, ◌==◌}
use hamsa.Base.Text.{Text, trim_space, codes}
use hamsa.Server.{
  ApiError, bad_request, forbidden, title_required, title_too_long, category_invalid,
  priority_invalid, not_resident, photo_not_found, description_long, record_not_found, pure,
  fail_if, ◌>>=◌, ◌>>◌, exec, first, map_error, best_effort, new_id, time_now,
}
use hamsa.Maintenance.Model.{
  new, parse_category, parse_priority, MaintenanceRequest, Photo, NoticeKind, request_submitted,
  create, Entry,
}
use hamsa.Maintenance.Service.Rows.{Maintain, or_fail, insert, resolve_resident_unit}

pub record User : Type 0 where
  pub id : ℕ
  pub phone : ℕ

pub record SubmitInput : Type 0 where
  pub title : Text
  pub category : Text
  pub description : Option Text
  pub location : Option Text
  pub photo_file_id : Option ℕ
  pub priority : Text

-- Submission.

abbrev photo_error : ApiError → ApiError
photo_error record_not_found = bad_request photo_not_found
photo_error e = e

abbrev find_path : Option Photo → Option ℕ
find_path none = none
find_path (some p) = some p.path

unfoldable pub photo_path : Option ℕ → Maintain (Option ℕ)
photo_path none = pure none
photo_path (some id) = do
  path ← map_error photo_error (first (λ db. find_path (find (λ p. p.id == id) db.photos)))
  pure (some path)

abbrev pub is_too_long : Option Text → Bool
is_too_long none = false
is_too_long (some s) = ltb 2000 (length s)

abbrev pub priority_text : Text → Text
priority_text [] = codes "normal"
priority_text (c ∷ cs) = c ∷ cs

unfoldable pub notify : ℕ → NoticeKind → ℕ → Maintain (Unit {0})
notify user_id kind ref_id = do
  id ← new_id
  exec (λ db. record db {
    notices = record { id = id; user_id = user_id; kind = kind; ref_id = ref_id } ∷ db.notices;
  })

unfoldable pub append_audit : Entry → Maintain (Unit {0})
append_audit e = exec (λ db. record db { audit_log = e ∷ db.audit_log })

unfoldable pub submit : User → SubmitInput → Maintain MaintenanceRequest
unfolding photo_path resolve_resident_unit insert notify append_audit
submit user input = do
  let title = trim_space input.title
  fail_if (is_empty title) (bad_request title_required)
  fail_if (ltb 150 (length title)) (bad_request title_too_long)
  category ← or_fail (parse_category (trim_space input.category)) (bad_request category_invalid)
  priority ←
      or_fail (parse_priority (priority_text (trim_space input.priority)))
        (bad_request priority_invalid)
  fail_if (is_too_long input.description) (bad_request description_long)
  photo ← photo_path input.photo_file_id
  found ← resolve_resident_unit user.phone
  home ← or_fail found (forbidden not_resident)
  now ← time_now
  id ← new_id
  let m : MaintenanceRequest = record {
    id = id;
    building_id = home.building_id;
    unit_id = some home.unit_id;
    submitted_by = user.id;
    title = title;
    category = category;
    description = input.description;
    location = input.location;
    photo_file = photo;
    priority = priority;
    status = new;
    assignee_person_id = none;
    recorded_cost = none;
    notes = none;
    created_at = now;
    updated_at = now;
    closed_at = none;
  }
  insert m
  best_effort (notify m.submitted_by request_submitted m.id)
  best_effort
      (append_audit (record { user_id = user.id; action = create; before = none; after = m }))
  pure m
