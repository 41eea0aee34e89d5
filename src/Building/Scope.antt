-- ===== src/Building/Scope.antt =====
-- What a caller holds who passes `authorizedBuilding` or `authorizedUnit`
-- (backend/internal/building/service.go).
use hamsa.Base.{ℕ, ◌≡◌, refl, true, not, some, find, arith, ◌==◌, find-keeps}
use hamsa.Server.{
  World, ApiError, forbidden, not_permitted, building_not_found, unit_not_found, tick, pure,
  fail_if, ◌>>=◌, ◌>>◌, map_error, or_not_found,
}
use hamsa.Server.Rules.{Ends, bind-Ends, map_error-Ends, first-Ends}
use hamsa.Building.Model.{Build, BuildingDb, Building, BuildingUnit, User}
use hamsa.Building.Repository.{
  has_grant, can_manager_access, find_building, find_building_row, find_unit,
}
use hamsa.Building.Registry.{authorized_building, authorized_unit}

abbrev pub Same : World BuildingDb → ApiError → World BuildingDb → Type 0
Same w e w' = w'.db ≡ w.db

module _ (caller : User) (id : ℕ) (w : World BuildingDb) where
  abbrev pub Holds : Building → World BuildingDb → Type 0
  Holds b w' =
      (w'.db ≡ w.db) × (w'.now ≡ w.now) × (b.id ≡ id) × (has_grant caller.id id w.db ≡ true)

  abbrev admit_building : Building → Build Building
  admit_building b = can_manager_access caller.id b.id >>= λ allowed.
      fail_if (not allowed) (forbidden not_permitted) >> pure b

  admit_building-Holds :
      (b : Building) → b.id == id ≡ true → Ends Holds (Same w) (admit_building b (tick w))
  unfolding can_manager_access hamsa.Server.Monad.query
  admit_building-Holds b h = ground arith

  pub authorized_building-Holds : Ends Holds (Same w) (authorized_building caller id w)
  unfolding authorized_building find_building
  authorized_building-Holds =
      bind-Ends Holds (Same w) (map_error (or_not_found building_not_found) (find_building id))
        admit_building w
        (map_error-Ends _ (Same w) (or_not_found building_not_found) (find_building id) w (
          first-Ends _ _ (find_building_row id) w
            (λ b p. admit_building-Holds b (find-keeps _ w.db.buildings b p)) (λ _. refl) refl))

  abbrev pub Manages : BuildingUnit → World BuildingDb → Type 0
  Manages u w' =
      (w'.db ≡ w.db)
      × (w'.now ≡ w.now)
      × (find (λ u. u.id == id) w.db.units ≡ some u)
      × (u.id ≡ id)
      × (has_grant caller.id u.building_id w.db ≡ true)

  abbrev admit_unit : BuildingUnit → Build BuildingUnit
  admit_unit u = can_manager_access caller.id u.building_id >>= λ allowed.
      fail_if (not allowed) (forbidden not_permitted) >> pure u

  admit_unit-Manages :
      (u : BuildingUnit)
      → find (λ u. u.id == id) w.db.units ≡ some u
      → u.id == id ≡ true
      → Ends Manages (Same w) (admit_unit u (tick w))
  unfolding can_manager_access hamsa.Server.Monad.query
  admit_unit-Manages u p h = ground arith

  pub authorized_unit-Manages : Ends Manages (Same w) (authorized_unit caller id w)
  unfolding authorized_unit find_unit
  authorized_unit-Manages =
      bind-Ends Manages (Same w) (map_error (or_not_found unit_not_found) (find_unit id)) admit_unit
        w
        (map_error-Ends _ (Same w) (or_not_found unit_not_found) (find_unit id) w (
          first-Ends _ _ (λ db. find (λ u. u.id == id) db.units) w
            (λ u p. admit_unit-Manages u p (find-keeps _ w.db.units u p)) (λ _. refl) refl))
