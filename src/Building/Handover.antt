-- ===== src/Building/Handover.antt =====
-- Revoking a manager (backend/internal/building/service.go, RevokeManager).
use hamsa.Base.{
  ℕ, ◌≡◌, sym, ap, ◌∙◌, Bool, true, false, not, arith, ◌&&◌, ◌==◌, leb, ltb, exists-keep,
  exists-keep-not,
}
use hamsa.Server.{
  World, ApiError, not_found, conflict, bad_request, grant_not_found, last_manager, self_revoke,
  tick, fail_if, ◌>>=◌, ◌>>◌,
}
use hamsa.Server.Rules.{Ends, bind-Ends, imp-Ends, query-Ends, fail_if-Ends, guard_lem}
use hamsa.Building.Model.{Build, BuildingDb, UserBuilding, User}
use hamsa.Building.Repository.{
  has_grant, is_grant, drop_grant, can_manager_access, count_building_managers,
  revoke_manager_guarded, count_managers,
}
use hamsa.Building.Registry.{authorized_building}
use hamsa.Building.Managers.{revoke_manager, report_revoke}
use hamsa.Building.Scope.{Same, Holds, authorized_building-Holds}

-- The other grants are those of before.
abbrev pub OthersKeep : ℕ → ℕ → BuildingDb → BuildingDb → Type 0
OthersKeep user_id building_id db db' =
    (u b : ℕ) → (u == user_id && b == building_id) ≡ false → has_grant u b db' ≡ has_grant u b db

other_grant :
    (user_id building_id u b : ℕ) (g : UserBuilding)
    → (u == user_id && b == building_id) ≡ false
    → is_grant u b g ≡ true
    → not (is_grant user_id building_id g) ≡ true
other_grant user_id building_id u b g h k = ground arith

drop_grant-keeps :
    (user_id building_id : ℕ) (db : BuildingDb)
    → OthersKeep user_id building_id db (drop_grant user_id building_id db)
drop_grant-keeps user_id building_id db u b h =
    let e =
      exists-keep (is_grant u b) (λ g. not (is_grant user_id building_id g)) db.grants
        (λ g. other_grant user_id building_id u b g h) in
    ground (arith, e)

drop_grant-gone :
    (user_id building_id : ℕ) (db : BuildingDb)
    → ltb 1 (count_managers building_id db.grants) ≡ true
    → has_grant user_id building_id (drop_grant user_id building_id db) ≡ false
drop_grant-gone user_id building_id db h =
    rw h (exists-keep-not (is_grant user_id building_id) db.grants)

module _ (caller : User) (building_id user_id : ℕ) (w : World BuildingDb) where
  -- The grant is gone, the caller has one still, and the others are as before.
  abbrev pub Revoked : Unit {0} → World BuildingDb → Type 0
  Revoked _ w' =
      (has_grant user_id building_id w'.db ≡ false)
      × (has_grant caller.id building_id w'.db ≡ true)
      × ((user_id == caller.id) ≡ false)
      × OthersKeep user_id building_id w.db w'.db

  abbrev revoke : Build (Unit {0})
  revoke = revoke_manager_guarded user_id building_id >>= report_revoke

  abbrev Dropped : World BuildingDb → Type 0
  Dropped w' = w'.db ≡ drop_grant user_id building_id w.db

  revoke-Ends :
      (w1 : World BuildingDb)
      → w1.db ≡ w.db
      → has_grant user_id building_id w.db ≡ true
      → ltb 1 (count_managers building_id w.db.grants) ≡ true
      → Ends (λ _ w'. Dropped w') (Same w) (revoke w1)
  unfolding revoke_manager_guarded hamsa.Server.Monad.exec
  revoke-Ends w1 d h k = ground arith

  concluded :
      (w' : World BuildingDb)
      → has_grant caller.id building_id w.db ≡ true
      → ltb 1 (count_managers building_id w.db.grants) ≡ true
      → (user_id == caller.id) ≡ false
      → Dropped w'
      → Revoked tt w'
  concluded w' c k n d =
      let gone = drop_grant-gone user_id building_id w.db k in
      let kept = drop_grant-keeps user_id building_id w.db in
      let mine = kept caller.id building_id (ground arith) in rw d (gone, mine ∙ c, n, kept)

  abbrev guard_self : Build (Unit {0})
  guard_self = fail_if (user_id == caller.id) (bad_request self_revoke) >> revoke

  guard_self-Ends :
      (w1 : World BuildingDb)
      → w1.db ≡ w.db
      → has_grant caller.id building_id w.db ≡ true
      → has_grant user_id building_id w.db ≡ true
      → ltb 1 (count_managers building_id w.db.grants) ≡ true
      → Ends Revoked (Same w) (guard_self w1)
  guard_self-Ends w1 d c h k =
      bind-Ends Revoked (Same w) (fail_if (user_id == caller.id) (bad_request self_revoke))
        (λ _. revoke) w1
        (fail_if-Ends _ (Same w) (user_id == caller.id) (bad_request self_revoke) w1
          (λ n.
            imp-Ends Revoked (Same w) (λ _ w'. Dropped w') (Same w) (revoke w1)
              (revoke-Ends w1 d h k) (λ a w' q. concluded w' c k n q) (λ _ _ e. e))
          (λ _. d))

  more_than_one :
      (w1 : World BuildingDb)
      → w1.db ≡ w.db
      → leb (count_managers building_id w1.db.grants) 1 ≡ false
      → ltb 1 (count_managers building_id w.db.grants) ≡ true
  more_than_one w1 d k = let e = ap (λ db. count_managers building_id db.grants) d in ground arith

  abbrev guard_last : ℕ → Build (Unit {0})
  guard_last count = fail_if (leb count 1) (conflict last_manager) >> guard_self

  guard_last-Ends :
      (w1 : World BuildingDb)
      → w1.db ≡ w.db
      → has_grant caller.id building_id w.db ≡ true
      → has_grant user_id building_id w.db ≡ true
      → Ends Revoked (Same w) ((count_building_managers building_id >>= guard_last) w1)
  unfolding count_building_managers
  guard_last-Ends w1 d c h =
      let n = count_managers building_id w1.db.grants in
      bind-Ends Revoked (Same w) (count_building_managers building_id) guard_last w1 (
        query-Ends _ (Same w) (λ db. count_managers building_id db.grants) w1
          (bind-Ends Revoked (Same w) (fail_if (leb n 1) (conflict last_manager)) (λ _. guard_self)
            (tick w1)
            (fail_if-Ends _ (Same w) (leb n 1) (conflict last_manager) (tick w1)
              (λ k. guard_self-Ends (tick w1) d c h (more_than_one w1 d k)) (λ _. d)))
          d)

  abbrev guard_granted : Bool → Build (Unit {0})
  guard_granted granted =
      fail_if (not granted) (not_found grant_not_found)
      >> (count_building_managers building_id >>= guard_last)

  guard_granted-Ends :
      (w1 : World BuildingDb)
      → w1.db ≡ w.db
      → has_grant caller.id building_id w.db ≡ true
      → Ends Revoked (Same w) ((can_manager_access user_id building_id >>= guard_granted) w1)
  unfolding can_manager_access
  guard_granted-Ends w1 d c =
      let b = has_grant user_id building_id w1.db in
      bind-Ends Revoked (Same w) (can_manager_access user_id building_id) guard_granted w1 (
        query-Ends _ (Same w) (has_grant user_id building_id) w1
          (bind-Ends Revoked (Same w) (fail_if (not b) (not_found grant_not_found))
            (λ _. count_building_managers building_id >>= guard_last) (tick w1)
            (fail_if-Ends _ (Same w) (not b) (not_found grant_not_found) (tick w1)
              (λ g.
                guard_last-Ends (tick w1) d c
                  (ap (has_grant user_id building_id) (sym d) ∙ guard_lem b g))
              (λ _. d)))
          d)

-- RevokeManager does not panic. Where it succeeds, the manager's grant is gone, the manager was not the caller, the
-- caller keeps a grant of the building, so that it is left with a manager, and every other grant is as before.
-- Where it fails, the database is as it was.
pub revoke_manager-Revoked :
    (caller : User) (building_id user_id : ℕ) (w : World BuildingDb)
    → Ends
        (Revoked caller building_id user_id w)
        (Same w)
        (revoke_manager caller building_id user_id w)
unfolding revoke_manager
revoke_manager-Revoked caller building_id user_id w =
    bind-Ends (Revoked caller building_id user_id w) (Same w)
      (authorized_building caller building_id)
      (λ _. can_manager_access user_id building_id >>= guard_granted caller building_id user_id w) w
      (imp-Ends _ _ (Holds caller building_id w) (Same w) (authorized_building caller building_id w)
        (authorized_building-Holds caller building_id w)
        (λ b w1 h. guard_granted-Ends caller building_id user_id w w1 h.0 h.3) (λ _ _ e. e))
