-- ===== src/Maintenance/Submission.antt =====
-- The submission of a request (backend/internal/maintenance/service.go, lines 82-153).
use hamsa.Base.{
  ℕ, ◌+◌, ◌≡◌, refl, sym, ◌∙◌, ap, ◌++◌, false, [], ◌∷◌, Option, none, some, arith, length,
  is_empty, ltb, find, ◌==◌,
}
use hamsa.Base.Text.{trim_space}
use hamsa.Server.{
  ApiError, World, bad_request, forbidden, not_resident, category_invalid, priority_invalid,
  description_long, title_required, title_too_long, fail_if, pure, ◌>>=◌, ◌>>◌, best_effort, new_id,
  time_now, query, tick,
}
use hamsa.Server.Rules.{Ends, bind-Ends, imp-Ends, fail_if-Ends, query-Ends}
use hamsa.Maintenance.Model.{
  new, MaintenanceRequest, MaintenanceDb, Residence, Category, Priority, create, request_submitted,
  parse_category, parse_priority,
}
use hamsa.Maintenance.Service.{
  User, SubmitInput, Maintain, or_fail, photo_path, resolve_resident_unit, insert, notify,
  append_audit, is_too_long, priority_text, submit,
}

-- A new request of the user, with a trimmed title of 1 to 150 characters, is the last row.
abbrev pub Submitted :
    User → SubmitInput → World MaintenanceDb → MaintenanceRequest → World MaintenanceDb → Type 0
Submitted u input w m w' =
    (m.status ≡ new)
    × (m.submitted_by ≡ u.id)
    × (m.closed_at ≡ none)
    × (m.created_at ≡ w.now)
    × (m.title ≡ trim_space input.title)
    × (is_empty m.title ≡ false)
    × (ltb 150 (length m.title) ≡ false)
    × (w'.db.requests ≡ w.db.requests ++ m ∷ [])

abbrev pub NotStored : World MaintenanceDb → ApiError → World MaintenanceDb → Type 0
NotStored w e w' = w'.db ≡ w.db

module _ (u : User) (input : SubmitInput) (w : World MaintenanceDb) where
  abbrev Stored : MaintenanceRequest → World MaintenanceDb → Type 0
  Stored = Submitted u input w

  abbrev store : MaintenanceRequest → Maintain MaintenanceRequest
  store m = do
    insert m
    best_effort (notify m.submitted_by request_submitted m.id)
    best_effort
        (append_audit (record { user_id = u.id; action = create; before = none; after = m }))
    pure m

  store-Ends :
      (m : MaintenanceRequest) (w1 : World MaintenanceDb)
      → Ends
          (λ m' w'. (m' ≡ m) × (w'.db.requests ≡ w1.db.requests ++ m ∷ []))
          (λ _ w'. w'.db ≡ w1.db)
          (store m w1)
  unfolding insert notify append_audit hamsa.Server.Monad.exec hamsa.Server.Monad.best_effort
      hamsa.Server.Monad.new_id
  store-Ends m w1 = ground arith

  abbrev request : Category → Priority → Option ℕ → Residence → ℕ → ℕ → MaintenanceRequest
  request category priority photo home now id = record {
    id = id;
    building_id = home.building_id;
    unit_id = some home.unit_id;
    submitted_by = u.id;
    title = trim_space input.title;
    category = category;
    description = input.description;
    location = input.location;
    photo_file = photo;
    priority = priority;
    status = new;
    assignee_person_id = none;
    recorded_cost = none;
    notes = none;
    created_at = now;
    updated_at = now;
    closed_at = none;
  }

  -- The title is neither empty nor too long.
  abbrev HasTitle : Type 0
  HasTitle =
      (is_empty (trim_space input.title) ≡ false)
      × (ltb 150 (length (trim_space input.title)) ≡ false)

  -- From the photo on, each step with those that follow it.
  abbrev settle : Category → Priority → Option ℕ → Option Residence → Maintain MaintenanceRequest
  settle category priority photo found = or_fail found (forbidden not_resident) >>= λ home.
      time_now >>= λ now. new_id >>= λ id. store (request category priority photo home now id)

  settle-Ends :
      (category : Category) (priority : Priority) (photo : Option ℕ) (found : Option Residence)
      (w1 : World MaintenanceDb)
      → HasTitle
      → w1.db ≡ w.db
      → w1.now ≡ w.now
      → Ends Stored (NotStored w) (settle category priority photo found w1)
  unfolding hamsa.Server.Monad.time_now hamsa.Server.Monad.new_id
  settle-Ends category priority photo none w1 h d n = d
  settle-Ends category priority photo (some home) w1 h d n =
      let m : MaintenanceRequest = request category priority photo home w1.now (w1.uuid w1.drawn) in
      imp-Ends _ _ (λ m' w'. (m' ≡ m) × (w'.db.requests ≡ w1.db.requests ++ m ∷ []))
        (λ _ w'. w'.db ≡ w1.db) (store m (record w1 { drawn = w1.drawn + 1 }))
        (store-Ends m (record w1 { drawn = w1.drawn + 1 }))
        (λ m' w' q. (
          ap (λ x. x.status) q.0,
          ap (λ x. x.submitted_by) q.0,
          ap (λ x. x.closed_at) q.0,
          ap (λ x. x.created_at) q.0 ∙ n,
          ap (λ x. x.title) q.0,
          ap (λ x. is_empty x.title) q.0 ∙ h.0,
          ap (λ x. ltb 150 (length x.title)) q.0 ∙ h.1,
          q.1 ∙ (λ i. (d i).requests ++ sym q.0 i ∷ []),
        ))
        (λ _ _ e. e ∙ d)

  abbrev locate : Category → Priority → Option ℕ → Maintain MaintenanceRequest
  locate category priority photo = resolve_resident_unit u.phone >>= settle category priority photo

  locate-Ends :
      (category : Category) (priority : Priority) (photo : Option ℕ) (w1 : World MaintenanceDb)
      → HasTitle
      → w1.db ≡ w.db
      → w1.now ≡ w.now
      → Ends Stored (NotStored w) (locate category priority photo w1)
  unfolding resolve_resident_unit
  locate-Ends category priority photo w1 h d n =
      bind-Ends Stored (NotStored w) (resolve_resident_unit u.phone)
        (settle category priority photo) w1
        (query-Ends _ (NotStored w) (λ db. find (λ r. r.phone == u.phone) db.residences) w1
          (settle-Ends category priority photo _ (tick w1) h d n) d)

  photo_path-Ends :
      (o : Option ℕ)
      → Ends (λ _ w'. (w'.db ≡ w.db) × (w'.now ≡ w.now)) (NotStored w) (photo_path o w)
  unfolding photo_path hamsa.Server.Monad.first
  photo_path-Ends o = ground arith

  abbrev describe : Category → Priority → Maintain MaintenanceRequest
  describe category priority =
      fail_if (is_too_long input.description) (bad_request description_long)
      >> (photo_path input.photo_file_id >>= locate category priority)

  describe-Ends :
      (category : Category) (priority : Priority)
      → HasTitle
      → Ends Stored (NotStored w) (describe category priority w)
  describe-Ends category priority h =
      bind-Ends Stored (NotStored w)
        (fail_if (is_too_long input.description) (bad_request description_long))
        (λ _. photo_path input.photo_file_id >>= locate category priority) w
        (fail_if-Ends _ (NotStored w) (is_too_long input.description) (bad_request description_long)
          w
          (λ _.
            bind-Ends Stored (NotStored w) (photo_path input.photo_file_id)
              (locate category priority) w
              (imp-Ends _ _ (λ _ w'. (w'.db ≡ w.db) × (w'.now ≡ w.now)) (NotStored w)
                (photo_path input.photo_file_id w) (photo_path-Ends input.photo_file_id)
                (λ photo w1 q. locate-Ends category priority photo w1 h q.0 q.1) (λ _ _ e. e)))
          (λ _. refl))

  abbrev rank_request : Category → Maintain MaintenanceRequest
  rank_request category =
      or_fail (parse_priority (priority_text (trim_space input.priority)))
        (bad_request priority_invalid)
      >>= describe category

  rank_request-Ends :
      (category : Category) (o : Option Priority)
      → HasTitle
      → Ends Stored
          (NotStored w)
          ((or_fail o (bad_request priority_invalid) >>= describe category) w)
  rank_request-Ends category none h = refl
  rank_request-Ends category (some priority) h = describe-Ends category priority h

  classify-Ends :
      (o : Option Category)
      → HasTitle
      → Ends Stored (NotStored w) ((or_fail o (bad_request category_invalid) >>= rank_request) w)
  classify-Ends none h = refl
  classify-Ends (some category) h = rank_request-Ends category _ h

  abbrev classify : Maintain MaintenanceRequest
  classify =
      or_fail (parse_category (trim_space input.category)) (bad_request category_invalid)
      >>= rank_request

-- Submitting a request does not panic. Where it succeeds, the request is new and not closed, it belongs to the user,
-- its title is the trimmed text, neither empty nor longer than 150 characters, and it is the last row of the
-- table, which is otherwise as before. Where it fails, the database is as it was.
pub submit-Submitted :
    (u : User) (input : SubmitInput) (w : World MaintenanceDb)
    → Ends (Submitted u input w) (NotStored w) (submit u input w)
unfolding submit
submit-Submitted u input w =
    bind-Ends (Submitted u input w) (NotStored w)
      (fail_if (is_empty (trim_space input.title)) (bad_request title_required))
      (λ _.
        fail_if (ltb 150 (length (trim_space input.title))) (bad_request title_too_long)
        >> classify u input w)
      w
      (fail_if-Ends _ (NotStored w) (is_empty (trim_space input.title)) (bad_request title_required)
        w
        (λ a.
          bind-Ends (Submitted u input w) (NotStored w)
            (fail_if (ltb 150 (length (trim_space input.title))) (bad_request title_too_long))
            (λ _. classify u input w) w
            (fail_if-Ends _ (NotStored w) (ltb 150 (length (trim_space input.title)))
              (bad_request title_too_long) w (λ b. classify-Ends u input w _ (a, b)) (λ _. refl)))
        (λ _. refl))
