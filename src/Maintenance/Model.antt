-- ===== src/Maintenance/Model.antt =====
-- Rows and the status workflow of maintenance requests (backend/internal/maintenance/models.go).
use hamsa.Base.{ℕ, Bool, true, false, List, Option, none, some, if◌then◌else◌}
use hamsa.Base.Int.{ℤ}
use hamsa.Base.Text.{Text, codes, text_eq}

pub data Category : Type 0 where
  elevator utilities electrical water cleaning common_area parking other : Category

pub data Priority : Type 0 where
  normal important urgent : Priority

pub data Status : Type 0 where
  new under_review in_progress done closed : Status

-- `validCategories`, `validPriorities` and `validStatuses`: the value that a text names.
unfoldable pub parse_category : Text → Option Category
parse_category s =
    if text_eq s (codes "elevator")
    then some elevator
    else if text_eq s (codes "utilities")
    then some utilities
    else if text_eq s (codes "electrical")
    then some electrical
    else if text_eq s (codes "water")
    then some water
    else if text_eq s (codes "cleaning")
    then some cleaning
    else if text_eq s (codes "common_area")
    then some common_area
    else if text_eq s (codes "parking")
    then some parking
    else if text_eq s (codes "other")
    then some other
    else none

unfoldable pub parse_priority : Text → Option Priority
parse_priority s =
    if text_eq s (codes "normal")
    then some normal
    else if text_eq s (codes "important")
    then some important
    else if text_eq s (codes "urgent")
    then some urgent
    else none

unfoldable pub parse_status : Text → Option Status
parse_status s =
    if text_eq s (codes "new")
    then some new
    else if text_eq s (codes "under_review")
    then some under_review
    else if text_eq s (codes "in_progress")
    then some in_progress
    else if text_eq s (codes "done")
    then some done
    else if text_eq s (codes "closed")
    then some closed
    else none

-- `allowedTransitions`
unfoldable pub can_transition : Status → Status → Bool
can_transition new under_review = true
can_transition under_review in_progress = true
can_transition under_review closed = true
can_transition in_progress done = true
can_transition in_progress closed = true
can_transition done closed = true
can_transition _ _ = false

abbrev pub same_status : Status → Status → Bool
same_status new new = true
same_status under_review under_review = true
same_status in_progress in_progress = true
same_status done done = true
same_status closed closed = true
same_status _ _ = false

pub record MaintenanceRequest : Type 0 where
  pub id : ℕ
  pub building_id : ℕ
  pub unit_id : Option ℕ
  pub submitted_by : ℕ
  pub title : Text
  pub category : Category
  pub description : Option Text
  pub location : Option Text
  pub photo_file : Option ℕ
  pub priority : Priority
  pub status : Status
  pub assignee_person_id : Option ℕ
  pub recorded_cost : Option ℤ
  pub notes : Option Text
  pub created_at : ℕ
  pub updated_at : ℕ
  pub closed_at : Option ℕ

pub record Grant : Type 0 where
  pub user_id : ℕ
  pub building_id : ℕ

-- An active occupancy of a phone, the newest first.
pub record Residence : Type 0 where
  pub phone : ℕ
  pub building_id : ℕ
  pub unit_id : ℕ

pub record Photo : Type 0 where
  pub id : ℕ
  pub path : ℕ

pub data NoticeKind : Type 0 where
  request_submitted request_status_changed : NoticeKind

pub record Notice : Type 0 where
  pub id : ℕ
  pub user_id : ℕ
  pub kind : NoticeKind
  pub ref_id : ℕ

pub data Action : Type 0 where
  create status_changed : Action

-- The entry of a changed request has the row before and after.
pub record Entry : Type 0 where
  pub user_id : ℕ
  pub action : Action
  pub before : Option MaintenanceRequest
  pub after : MaintenanceRequest

pub record MaintenanceDb : Type 0 where
  pub requests : List MaintenanceRequest
  pub grants : List Grant
  pub residences : List Residence
  pub persons : List ℕ
  pub photos : List Photo
  pub notices : List Notice
  pub audit_log : List Entry
