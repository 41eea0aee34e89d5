-- ===== src/Building/Removal.antt =====
-- The deletion of a building (backend/internal/building/service.go, DeleteBuilding).
use hamsa.Base.{ℕ, ◌≡◌, refl, true, none, exists, exists-imp, arith, ◌==◌}
use hamsa.Server.{World}
use hamsa.Server.Rules.{Ends, bind-Ends, imp-Ends, exec?-Ends}
use hamsa.Building.Model.{BuildingDb, User}
use hamsa.Building.Repository.{
  has_grant, is_grant, building_in_use, drop_building, delete_building_row,
}
use hamsa.Building.Registry.{authorized_building, delete_building}
use hamsa.Building.Scope.{Same, Holds, authorized_building-Holds}

granted_in_use :
    (user_id id : ℕ) (db : BuildingDb)
    → has_grant user_id id db ≡ true
    → building_in_use id db ≡ true
granted_in_use user_id id db h =
    let e : exists (λ g. g.building_id == id) db.grants ≡ true =
      exists-imp (is_grant user_id id) (λ g. g.building_id == id) db.grants (λ g p. ground arith)
        h in
    rw e refl

drop_building_granted :
    (user_id id : ℕ) (db : BuildingDb) → has_grant user_id id db ≡ true → drop_building id db ≡ none
drop_building_granted user_id id db h = rw (granted_in_use user_id id db h) refl

delete_building_row-Refused :
    (caller : User) (id : ℕ) (w w1 : World BuildingDb)
    → w1.db ≡ w.db
    → has_grant caller.id id w.db ≡ true
    → Ends (λ _ _. ⊥) (Same w) (delete_building_row id w1)
unfolding delete_building_row
delete_building_row-Refused caller id w w1 d h =
    exec?-Ends _ (Same w) (drop_building id) w1
      (λ db p. ground (arith, drop_building_granted caller.id id w1.db)) d

-- DeleteBuilding never succeeds: the grant that permits it is a row that refers to the building, so that the database
-- refuses the statement. Whoever calls it for whichever building, it returns an error and the database is as it was.
pub delete_building-Refused :
    (caller : User) (id : ℕ) (w : World BuildingDb)
    → Ends (λ _ _. ⊥) (Same w) (delete_building caller id w)
unfolding delete_building
delete_building-Refused caller id w =
    bind-Ends (λ _ _. ⊥) (Same w) (authorized_building caller id) (λ _. delete_building_row id) w
      (imp-Ends _ _ (Holds caller id w) (Same w) (authorized_building caller id w)
        (authorized_building-Holds caller id w)
        (λ b w1 h. delete_building_row-Refused caller id w w1 h.0 h.3) (λ _ _ e. e))
