-- ===== src/Building/Granting.antt =====
-- Granting a building to a manager (backend/internal/building/service.go, GrantManagerByPhone).
mod Rows
use hamsa.Base.{
  ℕ, ◌≡◌, sym, ap, ◌∙◌, subst, Bool, true, false, not, inl, inr, arith, exists, find, Bool-cases,
}
use hamsa.Base.Text.{Text}
use hamsa.Server.{
  World, ApiError, database, record_not_found, bad_request, phone_invalid, superadmin_target,
  user_not_found, tick, fail_if, ◌>>=◌, ◌>>◌, map_error, or_not_found,
}
use hamsa.Server.Rules.{Ends, bind-Ends, imp-Ends, map_error-Ends, fail_if-Ends, first-Ends}
use hamsa.Auth.Invites.{is_iranian_mobile}
use hamsa.Building.Model.{Build, BuildingDb, User, BuildingManager}
use hamsa.Building.Repository.{
  has_grant, is_grant, add_grant, grant_row, is_resident, promote_users, insert_manager_grant,
  manager_grant_row, is_active_user, find_active_user_by_phone,
}
use hamsa.Building.Registry.{authorized_building}
use hamsa.Building.Managers.{grant_manager_by_phone, is_super_admin, grant_error, promote_if}
use hamsa.Building.Scope.{Same, Holds, authorized_building-Holds}
use hamsa.Building.Handover.{OthersKeep}
use hamsa.Building.Granting.Rows.{
  Rise, Keeps, add_grant-Keeps, add_grant-others, add_grant-has, grant_row-user,
}

module _ (building_id : ℕ) (w : World BuildingDb) where
  -- The manager had no grant of the building and has one; the others have what they had.
  abbrev pub Granted : BuildingManager → World BuildingDb → Type 0
  Granted m w' =
      (has_grant m.user_id building_id w.db ≡ false)
      × (has_grant m.user_id building_id w'.db ≡ true)
      × OthersKeep m.user_id building_id w.db w'.db
      × Rise w.db w'.db

  abbrev pub Ungranted : ApiError → World BuildingDb → Type 0
  Ungranted _ w' = Keeps w.db w'.db × Rise w.db w'.db

  unchanged : (w' : World BuildingDb) → w'.db ≡ w.db → Keeps w.db w'.db × Rise w.db w'.db
  unchanged w' d = (λ u b h. ap (has_grant u b) d ∙ h, inl (ap (λ db. db.users) d))

  module _ (id : ℕ) where
    abbrev After : World BuildingDb → Type 0
    After w' =
        (has_grant id building_id w.db ≡ false)
        × (w'.db.grants ≡ (add_grant id building_id w.now w.db).grants)
        × Rise w.db w'.db

    After-Ungranted : (e : ApiError) (w' : World BuildingDb) → After w' → Ungranted e w'
    After-Ungranted e w' (h, g, r) =
        (λ u b k. ap (exists (is_grant u b)) g ∙ add_grant-Keeps id building_id w.now w.db u b k, r)

    insert-After :
        (w1 : World BuildingDb)
        → w1.db ≡ w.db
        → w1.now ≡ w.now
        → Ends
            (λ _ w'. After w' × (w'.db.users ≡ w.db.users))
            (Same w)
            (map_error grant_error (insert_manager_grant id building_id) w1)
    unfolding insert_manager_grant hamsa.Server.Monad.exec_unique hamsa.Server.Monad.time_now
    insert-After w1 d n = ground arith

    promote_if-After :
        (b : Bool) (w1 : World BuildingDb)
        → After w1
        → w1.db.users ≡ w.db.users
        → Ends (λ _ w'. After w') Ungranted (promote_if b id w1)
    unfolding hamsa.Building.Repository.promote_resident_to_manager hamsa.Server.Monad.exec
    promote_if-After false w1 a u = a
    promote_if-After true w1 a u = elim (Bool-cases (w1.faults w1.calls)) [
      | inl f ↦ rw f (After-Ungranted database w1 a)
      | inr f ↦ rw f (a.0, a.1, inr (id, ap (promote_users id) u))
    ]

  abbrev GrantedFor : ℕ → World BuildingDb → Type 0
  GrantedFor id w' =
      (has_grant id building_id w.db ≡ false)
      × (has_grant id building_id w'.db ≡ true)
      × OthersKeep id building_id w.db w'.db
      × Rise w.db w'.db

  granted_for : (id : ℕ) (w1 : World BuildingDb) → After id w1 → GrantedFor id w1
  granted_for id w1 (h, g, r) = (
    h,
    ap (exists (is_grant id building_id)) g ∙ add_grant-has id building_id w.now w.db,
    λ u b k. ap (exists (is_grant u b)) g ∙ add_grant-others id building_id w.now w.db u b k,
    r,
  )

  abbrev row_of : ℕ → Build BuildingManager
  row_of id = manager_grant_row id building_id

  row_of-Granted :
      (id : ℕ) (w1 : World BuildingDb) → After id w1 → Ends Granted Ungranted (row_of id w1)
  unfolding manager_grant_row
  row_of-Granted id w1 a =
      first-Ends Granted Ungranted (λ db. grant_row (find (is_grant id building_id) db.grants) db)
        w1
        (λ m p.
          let e = grant_row-user id building_id w1.db m p in
          subst (λ i. GrantedFor i w1) (sym e) (granted_for id w1 a))
        (λ _. After-Ungranted id record_not_found (tick w1) a)
        (After-Ungranted id database (tick w1) a)

  abbrev give : User → Build BuildingManager
  give target =
      map_error grant_error (insert_manager_grant target.id building_id)
      >> (promote_if (is_resident target.role) target.id >> row_of target.id)

  give-Granted :
      (target : User) (w1 : World BuildingDb)
      → w1.db ≡ w.db
      → w1.now ≡ w.now
      → Ends Granted Ungranted (give target w1)
  give-Granted target w1 d n =
      bind-Ends Granted Ungranted
        (map_error grant_error (insert_manager_grant target.id building_id))
        (λ _. promote_if (is_resident target.role) target.id >> row_of target.id) w1
        (imp-Ends _ _ (λ _ w'. After target.id w' × (w'.db.users ≡ w.db.users)) (Same w)
          (map_error grant_error (insert_manager_grant target.id building_id) w1)
          (insert-After target.id w1 d n)
          (λ _ w2 a.
            bind-Ends Granted Ungranted (promote_if (is_resident target.role) target.id)
              (λ _. row_of target.id) w2
              (imp-Ends _ _ (λ _ w'. After target.id w') Ungranted
                (promote_if (is_resident target.role) target.id w2)
                (promote_if-After target.id (is_resident target.role) w2 a.0 a.1)
                (λ _ w3 b. row_of-Granted target.id w3 b) (λ _ _ e. e)))
          (λ _ w2 e. unchanged w2 e))

  abbrev vet : User → Build BuildingManager
  vet target = fail_if (is_super_admin target.role) (bad_request superadmin_target) >> give target

  vet-Granted :
      (target : User) (w1 : World BuildingDb)
      → w1.db ≡ w.db
      → w1.now ≡ w.now
      → Ends Granted Ungranted (vet target w1)
  vet-Granted target w1 d n =
      bind-Ends Granted Ungranted
        (fail_if (is_super_admin target.role) (bad_request superadmin_target)) (λ _. give target) w1
        (fail_if-Ends _ Ungranted (is_super_admin target.role) (bad_request superadmin_target) w1
          (λ _. give-Granted target w1 d n) (λ _. unchanged w1 d))

  abbrev look_up : Text → Build BuildingManager
  look_up phone = map_error (or_not_found user_not_found) (find_active_user_by_phone phone) >>= vet

  look_up-Granted :
      (phone : Text) (w1 : World BuildingDb)
      → w1.db ≡ w.db
      → w1.now ≡ w.now
      → Ends Granted Ungranted (look_up phone w1)
  unfolding find_active_user_by_phone
  look_up-Granted phone w1 d n =
      bind-Ends Granted Ungranted
        (map_error (or_not_found user_not_found) (find_active_user_by_phone phone)) vet w1
        (map_error-Ends _ Ungranted (or_not_found user_not_found) (find_active_user_by_phone phone)
          w1
          (first-Ends _ _ (λ db. find (is_active_user phone) db.users) w1
            (λ target _. vet-Granted target (tick w1) d n) (λ _. unchanged (tick w1) d)
            (unchanged (tick w1) d)))

  abbrev check_phone : Text → Build BuildingManager
  check_phone phone =
      fail_if (not (is_iranian_mobile phone)) (bad_request phone_invalid) >> look_up phone

  check_phone-Granted :
      (phone : Text) (w1 : World BuildingDb)
      → w1.db ≡ w.db
      → w1.now ≡ w.now
      → Ends Granted Ungranted (check_phone phone w1)
  check_phone-Granted phone w1 d n =
      bind-Ends Granted Ungranted
        (fail_if (not (is_iranian_mobile phone)) (bad_request phone_invalid)) (λ _. look_up phone)
        w1
        (fail_if-Ends _ Ungranted (not (is_iranian_mobile phone)) (bad_request phone_invalid) w1
          (λ _. look_up-Granted phone w1 d n) (λ _. unchanged w1 d))

pub grant_manager_by_phone-Granted :
    (caller : User) (building_id : ℕ) (phone : Text) (w : World BuildingDb)
    → Ends
        (Granted building_id w)
        (Ungranted building_id w)
        (grant_manager_by_phone caller building_id phone w)
unfolding grant_manager_by_phone
grant_manager_by_phone-Granted caller building_id phone w =
    bind-Ends (Granted building_id w) (Ungranted building_id w)
      (authorized_building caller building_id) (λ _. check_phone building_id w phone) w
      (imp-Ends _ _ (Holds caller building_id w) (Same w) (authorized_building caller building_id w)
        (authorized_building-Holds caller building_id w)
        (λ b w1 h. check_phone-Granted building_id w phone w1 h.0 h.1)
        (λ _ w1 e. unchanged building_id w w1 e))
