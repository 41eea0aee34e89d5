-- ===== src/Maintenance/Workflow/Steps.antt =====
-- The parts of the manager's update (backend/internal/maintenance/service.go, lines 232-342), one by one.
use hamsa.Base.{
  arith, ℕ, ◌≡◌, refl, Bool, true, ◌&&◌, Option, none, some, exists, ◌==◌, ◌⊎◌, inl, inr,
  Bool-cases,
}
use hamsa.Base.Text.{Text, trim_space}
use hamsa.Server.{
  ApiError, bad_request, conflict, transition_invalid, status_invalid, cost_invalid, World, tick,
  fail_if, ◌>>=◌, ◌>>◌, pure, time_now,
}
use hamsa.Server.Rules.{Ends}
use hamsa.Maintenance.Model.{
  Status, can_transition, same_status, parse_status, MaintenanceRequest, MaintenanceDb,
}
use hamsa.Maintenance.Service.{
  User, CostInput, find_request, get, is_manager_of, get_for_manager, close_at, move_to,
  patch_status, patch_assignee, patch_cost, patch_notes, notify, append_audit, announce,
  person_exists, or_fail,
}

abbrev pub MWorld : Type 0
MWorld = World MaintenanceDb

-- The call read only.
abbrev Kept : MWorld → MWorld → Type 0
Kept w w' = (w'.db ≡ w.db) × (w'.now ≡ w.now)

-- Some grant lets the user manage the building.
abbrev pub manages : ℕ → ℕ → MaintenanceDb → Bool
manages user_id building_id db =
    exists (λ g. g.user_id == user_id && g.building_id == building_id) db.grants

-- The call failed without a write.
abbrev pub Untouched : MWorld → ApiError → MWorld → Type 0
Untouched w e w' = w'.db ≡ w.db

-- The stored row, of a building that the user manages.
abbrev pub Authorized : User → ℕ → MWorld → MaintenanceRequest → MWorld → Type 0
Authorized u id w m w' =
    (find_request id w.db ≡ some m) × (manages u.id m.building_id w.db ≡ true) × Kept w w'

pub get_for_manager-Ends :
    (u : User) (id : ℕ) (w : MWorld)
    → Ends (Authorized u id w) (Untouched w) (get_for_manager u id w)
unfolding get_for_manager get is_manager_of hamsa.Server.Monad.query hamsa.Server.Monad.first
get_for_manager-Ends u id w = ground arith

-- The status stays, or takes one edge of the workflow; only a move sets the time of closing.
abbrev StatusStep : ℕ → MaintenanceRequest → MaintenanceRequest → Type 0
StatusStep now before m =
    ((m.status ≡ before.status) × (m.closed_at ≡ before.closed_at))
    ⊎ ((can_transition before.status m.status ≡ true)
        × (m.closed_at ≡ close_at m.status now before.closed_at))

-- An update that the workflow allows, of the same request.
abbrev pub Legal : ℕ → MaintenanceRequest → MaintenanceRequest → Type 0
Legal now before m =
    (m.id ≡ before.id)
    × (m.building_id ≡ before.building_id)
    × (m.submitted_by ≡ before.submitted_by)
    × (m.created_at ≡ before.created_at)
    × StatusStep now before m

abbrev pub Patched : ℕ → MaintenanceRequest → MWorld → MaintenanceRequest → MWorld → Type 0
Patched now before w m w' = Legal now before m × Kept w w'

move_to-Ends :
    (next : Status) (m : MaintenanceRequest) (w : MWorld)
    → Ends (Patched w.now m w) (Untouched w) (move_to next m w)
unfolding move_to hamsa.Server.Monad.time_now
move_to-Ends next m w = elim (Bool-cases (same_status next m.status)) [
  | inl e ↦ rw e (ground arith)
  | inr e ↦ rw e (ground arith)
]

pub patch_status-Ends :
    (s : Option Text) (m : MaintenanceRequest) (w : MWorld)
    → Ends (Patched w.now m w) (Untouched w) (patch_status s m w)
unfolding patch_status
patch_status-Ends none m w = ((refl, refl, refl, refl, inl (refl, refl)), (refl, refl))
patch_status-Ends (some s) m w = go (parse_status (trim_space s))
  where
    go :
        (o : Option Status)
        → Ends
            (Patched w.now m w)
            (Untouched w)
            ((or_fail o (bad_request status_invalid) >>= λ next. move_to next m) w)
    go none = refl
    go (some next) = move_to-Ends next m w

module _ (now : ℕ) (before : MaintenanceRequest) (w : MWorld) where
  pub patch_assignee-Ends :
      (a : Option ℕ) (m : MaintenanceRequest)
      → Legal now before m
      → Ends (Patched now before w) (Untouched w) (patch_assignee a m w)
  unfolding patch_assignee person_exists hamsa.Server.Monad.query
  patch_assignee-Ends a m h = ground arith

  pub patch_cost-Ends :
      (c : Option CostInput) (m : MaintenanceRequest)
      → Legal now before m
      → Ends (Patched now before w) (Untouched w) (patch_cost c m w)
  unfolding patch_cost
  patch_cost-Ends c m h = ground arith

  pub patch_notes-Legal :
      (s : Option Text) (m : MaintenanceRequest)
      → Legal now before m
      → Legal now before (patch_notes s m)
  patch_notes-Legal none m h = h
  patch_notes-Legal (some s) m h = h

pub announce-requests :
    (u : User) (before m : MaintenanceRequest) (w : MWorld)
    → Ends (λ _ w'. w'.db.requests ≡ w.db.requests) (λ _ _. ⊥) (announce u before m w)
unfolding announce notify append_audit hamsa.Server.Monad.best_effort hamsa.Server.Monad.exec
    hamsa.Server.Monad.new_id
announce-requests u before m w = ground arith
