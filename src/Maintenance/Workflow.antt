-- ===== src/Maintenance/Workflow.antt =====
-- The manager's update of a request (backend/internal/maintenance/service.go, lines 232-342).
pub mod Steps
use hamsa.Base.{ℕ, ◌≡◌, ap, ◌∙◌, subst, true, some}
use hamsa.Server.{◌>>=◌, ◌>>◌, pure, time_now}
use hamsa.Server.Rules.{Ends, bind-Ends, imp-Ends, exec-Ends}
use hamsa.Maintenance.Model.{MaintenanceRequest}
use hamsa.Maintenance.Service.{
  User, UpdateInput, Maintain, find_request, get_for_manager, patch_status, patch_assignee,
  patch_cost, patch_notes, put, save, announce, update,
}
use hamsa.Maintenance.Workflow.Steps.{
  MWorld, manages, Untouched, Authorized, get_for_manager-Ends, Legal, Patched, patch_status-Ends,
  patch_assignee-Ends, patch_cost-Ends, patch_notes-Legal, announce-requests,
}

-- What an update that succeeds has done: the row was there and the user manages its building; the
-- new row is a legal update, stamped with the time, and stands in place of the old one.
abbrev pub Updated : User → ℕ → MWorld → MaintenanceRequest × MaintenanceRequest → MWorld → Type 0
Updated u id w (m, before) w' =
    (find_request id w.db ≡ some before)
    × (manages u.id before.building_id w.db ≡ true)
    × Legal w.now before m
    × (m.updated_at ≡ w.now)
    × (w'.db.requests ≡ (put m w.db).requests)

-- The end of an update, from the patched row on.
abbrev finish :
    User
    → MaintenanceRequest
    → UpdateInput
    → MaintenanceRequest
    → Maintain (MaintenanceRequest × MaintenanceRequest)
finish u before input m3 = do
  now ← time_now
  let m = record (patch_notes input.notes m3) { updated_at = now }
  save m
  announce u before m
  pure (m, before)

abbrev finished : UpdateInput → MaintenanceRequest → MWorld → MaintenanceRequest
finished input m3 w = record (patch_notes input.notes m3) { updated_at = w.now }

announced :
    (u : User) (id : ℕ) (w w1 : MWorld) (before m : MaintenanceRequest)
    → ((w' : MWorld) → w'.db.requests ≡ w1.db.requests → Updated u id w (m, before) w')
    → Ends (Updated u id w) (Untouched w) ((announce u before m >> pure (m, before)) w1)
announced u id w w1 before m h =
    bind-Ends (Updated u id w) (Untouched w) (announce u before m) (λ _. pure (m, before)) w1
      (imp-Ends _ _ (λ _ w'. w'.db.requests ≡ w1.db.requests) (λ _ _. ⊥) (announce u before m w1)
        (announce-requests u before m w1) (λ _ w' e. h w' e) (λ _ _ e. absurd e))

finish-Ends :
    (u : User) (id : ℕ) (w w3 : MWorld) (before m3 : MaintenanceRequest) (input : UpdateInput)
    → Authorized u id w before w3
    → Legal w.now before m3
    → Ends (Updated u id w) (Untouched w) (finish u before input m3 w3)
unfolding save hamsa.Server.Monad.time_now
finish-Ends u id w w3 before m3 input a l =
    bind-Ends (Updated u id w) (Untouched w) (save (finished input m3 w3))
      (λ _. announce u before (finished input m3 w3) >> pure (finished input m3 w3, before)) w3
      (exec-Ends
        (λ _ w'.
          Ends (Updated u id w) (Untouched w)
            ((announce u before (finished input m3 w3) >> pure (finished input m3 w3, before)) w'))
        (Untouched w) (put (finished input m3 w3)) w3
        (announced u id w _ before (finished input m3 w3) (λ w' e. (
          a.0,
          a.1,
          patch_notes-Legal w.now before w input.notes m3 l,
          a.2.1,
          e ∙ ap (λ d. (put (finished input m3 w3) d).requests) a.2.0,
        )))
        a.2.0)

abbrev from_cost :
    User
    → MaintenanceRequest
    → UpdateInput
    → MaintenanceRequest
    → Maintain (MaintenanceRequest × MaintenanceRequest)
from_cost u before input m2 = patch_cost input.recorded_cost m2 >>= finish u before input

abbrev from_assignee :
    User
    → MaintenanceRequest
    → UpdateInput
    → MaintenanceRequest
    → Maintain (MaintenanceRequest × MaintenanceRequest)
from_assignee u before input m1 =
    patch_assignee input.assignee_person_id m1 >>= from_cost u before input

abbrev from_status :
    User → UpdateInput → MaintenanceRequest → Maintain (MaintenanceRequest × MaintenanceRequest)
from_status u input before = patch_status input.status before >>= from_assignee u before input

module _ (u : User) (id : ℕ) (w : MWorld) (input : UpdateInput) where
  -- A later step, after steps that only read.
  later :
      (before : MaintenanceRequest) (w1 : MWorld) (call : Maintain MaintenanceRequest)
      (f : MaintenanceRequest → Maintain (MaintenanceRequest × MaintenanceRequest))
      → Authorized u id w before w1
      → Ends (Patched w.now before w1) (Untouched w1) (call w1)
      → ((m : MaintenanceRequest) (w2 : MWorld)
          → Authorized u id w before w2
          → Legal w.now before m
          → Ends (Updated u id w) (Untouched w) (f m w2))
      → Ends (Updated u id w) (Untouched w) ((call >>= f) w1)
  later before w1 call f a h k = bind-Ends (Updated u id w) (Untouched w) call f w1 (
      imp-Ends _ _ (Patched w.now before w1) (Untouched w1) (call w1) h
        (λ m w2 p. k m w2 (a.0, a.1, (p.1.0 ∙ a.2.0, p.1.1 ∙ a.2.1)) p.0) (λ _ _ e. e ∙ a.2.0))

  from_status-Ends :
      (before : MaintenanceRequest) (w1 : MWorld)
      → Authorized u id w before w1
      → Ends (Updated u id w) (Untouched w) (from_status u input before w1)
  from_status-Ends before w1 a =
      later before w1 (patch_status input.status before) (from_assignee u before input) a
        (subst
          (λ n. Ends (Patched n before w1) (Untouched w1) (patch_status input.status before w1))
          a.2.1 (patch_status-Ends input.status before w1))
        (λ m1 w2 a2 l1.
          later before w2 (patch_assignee input.assignee_person_id m1) (from_cost u before input) a2
            (patch_assignee-Ends w.now before w2 input.assignee_person_id m1 l1)
            (λ m2 w3 a3 l2.
              later before w3 (patch_cost input.recorded_cost m2) (finish u before input) a3
                (patch_cost-Ends w.now before w3 input.recorded_cost m2 l2)
                (λ m3 w4 a4 l3. finish-Ends u id w w4 before m3 input a4 l3)))

  -- Whatever the patch and the faults of the database are, an update does not panic. Where it
  -- succeeds, the row was stored and its building is one that the user manages, the new row is
  -- the same request with the same submitter, its status is the old one or is reached from it by
  -- one edge of the workflow, only such a move sets the closing time, the row is stamped
  -- with the time of the update, and exactly this row of the table is replaced. Where it returns an
  -- error, the database is as it was.
  pub update-Updated : Ends (Updated u id w) (Untouched w) (update u id input w)
  unfolding update
  update-Updated =
      bind-Ends (Updated u id w) (Untouched w) (get_for_manager u id) (from_status u input) w (
        imp-Ends _ _ (Authorized u id w) (Untouched w) (get_for_manager u id w)
          (get_for_manager-Ends u id w) (λ before w1 a. from_status-Ends before w1 a) (λ _ _ e. e))
