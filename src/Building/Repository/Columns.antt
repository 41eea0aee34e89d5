-- ===== src/Building/Repository/Columns.antt =====
-- What the columns of buildings and units hold (migration 0002).
use hamsa.Base.{
  ℕ, Bool, true, false, ◌&&◌, not, List, Option, none, some, exists, length, leb, ◌==◌,
}
use hamsa.Base.Int.{ℤ, pos, negsuc, ltb_ℤ, leb_ℤ}
use hamsa.Base.Text.{Text, text_eq}
use hamsa.Building.Model.{BuildingDb, Building, BuildingUnit, no_status, UnitStatus}

-- What the columns hold.

abbrev pub fits_text : ℕ → Option Text → Bool
fits_text n none = true
fits_text n (some s) = leb (length s) n

-- An INT that is not negative.
abbrev pub fits_count : ℤ → Bool
fits_count z = leb_ℤ (pos 0) z && leb_ℤ z (pos 2147483647)

-- Any INT.
abbrev fits_int : ℤ → Bool
fits_int z = leb_ℤ (negsuc 2147483647) z && leb_ℤ z (pos 2147483647)

abbrev pub storable_building : Building → Bool
storable_building b =
    leb (length b.name) 150
    && fits_count b.block_count
    && fits_count b.floor_count
    && fits_count b.unit_count
    && fits_text 11 b.manager_phone
    && fits_text 11 b.emergency_phone

abbrev is_set : UnitStatus → Bool
is_set no_status = false
is_set _ = true

abbrev pub storable_unit : BuildingUnit → Bool
storable_unit u =
    leb (length u.number) 20
    && fits_text 20 u.block
    && fits_int u.floor
    && (ltb_ℤ (pos 0) u.area_m2 && leb_ℤ u.area_m2 (pos 2147483647))
    && fits_count u.parking_count
    && fits_count u.storage_count
    && is_set u.status

abbrev pub is_live : Option ℕ → Bool
is_live none = true
is_live (some _) = false

-- `uq_units_building_number_active`: another live unit of the building has the number.
abbrev pub number_taken : BuildingUnit → BuildingDb → Bool
number_taken u db =
    is_live u.deleted_at
    && exists
        (λ v.
          not (v.id == u.id)
          && v.building_id == u.building_id
          && is_live v.deleted_at
          && text_eq v.number u.number)
        db.units

abbrev pub listed : ℕ → List ℕ → Bool
listed id ids = exists (λ x. x == id) ids
