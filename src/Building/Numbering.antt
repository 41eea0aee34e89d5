-- ===== src/Building/Numbering.antt =====
-- Adding a unit to a building (backend/internal/building/service.go, CreateUnit).
use hamsa.Base.{
  ℕ, ◌+◌, ◌≡◌, ap, ◌∙◌, subst, Bool, true, false, ◌&&◌, ◌||◌, not, [], ◌∷◌, ◌++◌, arith, exists,
  exists-imp, is_empty, ◌==◌,
}
use hamsa.Base.Int.{pos, ltb_ℤ}
use hamsa.Base.Text.{Text, trim_space, text_eq}
use hamsa.Server.{
  World, ApiError, conflict, duplicate_number, tick, pure, fail_if, ◌>>=◌, ◌>>◌, map_error, new_id,
}
use hamsa.Server.Rules.{Ends, bind-Ends, imp-Ends}
use hamsa.Building.Model.{Build, BuildingDb, BuildingUnit, User}
use hamsa.Building.Repository.{number_taken, storable_unit, create_unit_row, is_live}
use hamsa.Building.Registry.{
  UnitInput, apply_unit_input, authorized_building, blank_unit, number_error, add_unit,
  choose_status,
}

abbrev is_duplicate : ApiError → Bool
is_duplicate (conflict duplicate_number) = true
is_duplicate _ = false

-- A live unit of the building has the number.
abbrev number_used : ℕ → Text → BuildingDb → Bool
number_used building_id number db =
    exists (λ v. v.building_id == building_id && is_live v.deleted_at && text_eq v.number number)
      db.units

module _ (building_id : ℕ) (input : UnitInput) where
  -- The new unit is the last row; its number is the trimmed text, not empty, and no other live unit
  -- of the building has it; the row is one that the table holds, on a floor that is not negative.
  abbrev pub Registered : BuildingDb → BuildingUnit → World BuildingDb → Type 0
  Registered db u w' =
      (u.building_id ≡ building_id)
      × (u.number ≡ trim_space input.number)
      × (is_empty u.number ≡ false)
      × (exists (λ v. v.id == u.id) db.units ≡ false)
      × (number_taken u db ≡ false)
      × (storable_unit u ≡ true)
      × (ltb_ℤ u.floor (pos 0) ≡ false)
      × (w'.db.units ≡ db.units ++ u ∷ [])

  -- The error; 409 for the number is given only where a live unit of the building has it, or a row
  -- the drawn id.
  abbrev pub Unregistered : ℕ → BuildingDb → ApiError → World BuildingDb → Type 0
  Unregistered id db e w' =
      (w'.db ≡ db)
      × (is_duplicate e ≡ true
          → (exists (λ v. v.id == id) db.units
              || number_used building_id (trim_space input.number) db)
            ≡ true)

  abbrev Applied : ℕ → World BuildingDb → BuildingUnit → World BuildingDb → Type 0
  Applied id w u w' =
      (w' ≡ w)
      × (u.id ≡ id)
      × (u.building_id ≡ building_id)
      × (u.number ≡ trim_space input.number)
      × (is_empty u.number ≡ false)
      × (ltb_ℤ u.floor (pos 0) ≡ false)

  abbrev Plain : World BuildingDb → ApiError → World BuildingDb → Type 0
  Plain w e w' = (w'.db ≡ w.db) × (is_duplicate e ≡ false)

  apply_unit_input-Applied :
      (id : ℕ) (w : World BuildingDb)
      → Ends (Applied id w) (Plain w) (apply_unit_input (blank_unit id building_id) input w)
  unfolding apply_unit_input choose_status
  apply_unit_input-Applied id w = ground arith

  authorized_building-Plain :
      (caller : User) (w : World BuildingDb)
      → Ends
          (λ _ w'. (w'.db ≡ w.db) × (w'.uuid w'.drawn ≡ w.uuid w.drawn))
          (Plain w)
          (authorized_building caller building_id w)
  unfolding authorized_building hamsa.Building.Repository.find_building
      hamsa.Building.Repository.can_manager_access hamsa.Server.Monad.first hamsa.Server.Monad.query
  authorized_building-Plain caller w = ground arith

  number_taken-used :
      (u : BuildingUnit) (db : BuildingDb)
      → u.building_id ≡ building_id
      → u.number ≡ trim_space input.number
      → number_taken u db ≡ true
      → number_used building_id (trim_space input.number) db ≡ true
  number_taken-used u db h k t =
      let found : exists
            (λ v.
              not (v.id == u.id)
              && v.building_id == u.building_id
              && is_live v.deleted_at
              && text_eq v.number u.number)
            db.units
          ≡ true =
        ground arith in
      subst (λ n. number_used building_id n db ≡ true) k
        (subst (λ b. number_used b u.number db ≡ true) h
          (exists-imp _
            (λ v.
              v.building_id == u.building_id && is_live v.deleted_at && text_eq v.number u.number)
            db.units (λ v p. ground arith) found))

  store_unit-Registered :
      (id : ℕ) (u : BuildingUnit) (w : World BuildingDb)
      → u.id ≡ id
      → u.building_id ≡ building_id
      → u.number ≡ trim_space input.number
      → is_empty u.number ≡ false
      → ltb_ℤ u.floor (pos 0) ≡ false
      → Ends (Registered w.db) (Unregistered id w.db) (map_error number_error (create_unit_row u) w)
  unfolding create_unit_row hamsa.Server.Monad.exec_unique hamsa.Server.Monad.time_now
  store_unit-Registered id u w i h k e f =
      let row = record u { created_at = w.now; updated_at = w.now } in
      ground (arith, number_taken-used row w.db h k)

  abbrev fill_in : ℕ → Build BuildingUnit
  fill_in id = apply_unit_input (blank_unit id building_id) input >>= λ u.
      map_error number_error (create_unit_row u)

  fill_in-Registered :
      (id : ℕ) (w1 : World BuildingDb) (db : BuildingDb)
      → w1.db ≡ db
      → Ends (Registered db) (Unregistered id db) (fill_in id w1)
  fill_in-Registered id w1 db d =
      bind-Ends (Registered db) (Unregistered id db)
        (apply_unit_input (blank_unit id building_id) input)
        (λ u. map_error number_error (create_unit_row u)) w1
        (imp-Ends _ _ (Applied id w1) (Plain w1)
          (apply_unit_input (blank_unit id building_id) input w1) (apply_unit_input-Applied id w1)
          (λ u w2 q.
            let e : w2.db ≡ db = ap (λ w. w.db) q.0 ∙ d in
            subst
              (λ db.
                Ends (Registered db) (Unregistered id db)
                  (map_error number_error (create_unit_row u) w2))
              e (store_unit-Registered id u w2 q.1 q.2 q.3 q.4 q.5))
          (λ e w2 q. (q.0 ∙ d, λ t. ground arith)))

-- CreateUnit does not panic. Where it succeeds, the new unit is of the building, its number is the trimmed text and not empty, no row has its id, no other live
-- unit of the building has the number, the row is one that the table holds (its area is positive, its
-- counts are not negative, and it has a status), its floor is not negative, and it is the last row of the table, which is otherwise as before.
-- Where it fails, the database is as it was, and the answer is that the number is taken only if a live unit of the
-- building has it, or if the id that was drawn for the unit is that of a row.
pub add_unit-Registered :
    (caller : User) (building_id : ℕ) (input : UnitInput) (w : World BuildingDb)
    → Ends
        (Registered building_id input w.db)
        (Unregistered building_id input (w.uuid w.drawn) w.db)
        (add_unit caller building_id input w)
unfolding add_unit hamsa.Server.Monad.new_id
add_unit-Registered caller building_id input w =
    bind-Ends (Registered building_id input w.db)
      (Unregistered building_id input (w.uuid w.drawn) w.db)
      (authorized_building caller building_id) (λ _. new_id >>= fill_in building_id input) w
      (imp-Ends _ _ (λ _ w'. (w'.db ≡ w.db) × (w'.uuid w'.drawn ≡ w.uuid w.drawn))
        (Plain building_id input w) (authorized_building caller building_id w)
        (authorized_building-Plain building_id input caller w)
        (λ _ w1 d.
          subst
            (λ id.
              Ends (Registered building_id input w.db) (Unregistered building_id input id w.db)
                (fill_in building_id input (w1.uuid w1.drawn) (record w1 { drawn = w1.drawn + 1 })))
            d.1
            (fill_in-Registered building_id input (w1.uuid w1.drawn)
              (record w1 { drawn = w1.drawn + 1 }) w.db d.0))
        (λ e w1 q. (q.0, λ t. ground arith)))
