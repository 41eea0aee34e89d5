-- ===== src/Building/Model.antt =====
-- Rows of buildings, units, persons and occupancies (backend/internal/building/models.go and
-- occupancy_models.go, with the columns of migrations 0002 and 0003). A date is a number of days
-- from the first day of the year 0.
use hamsa.Base.{ℕ, Bool, true, false, List, Option, none, some, if◌then◌else◌}
use hamsa.Base.Int.{ℤ}
use hamsa.Base.Text.{Text, codes, text_eq}
use hamsa.Server.{M}

pub data Role : Type 0 where
  role_super_admin role_manager role_resident : Role

-- `no_status` is the empty text, which a new unit starts with.
pub data UnitStatus : Type 0 where
  no_status active vacant occupied inactive : UnitStatus

pub data Relationship : Type 0 where
  owner tenant non_resident_owner : Relationship

-- `validUnit` and `validRelationship`: the value that a text names.
unfoldable pub parse_unit_status : Text → Option UnitStatus
parse_unit_status s =
    if text_eq s (codes "active")
    then some active
    else if text_eq s (codes "vacant")
    then some vacant
    else if text_eq s (codes "occupied")
    then some occupied
    else if text_eq s (codes "inactive")
    then some inactive
    else none

unfoldable pub parse_relationship : Text → Option Relationship
parse_relationship s =
    if text_eq s (codes "owner")
    then some owner
    else if text_eq s (codes "tenant")
    then some tenant
    else if text_eq s (codes "non_resident_owner")
    then some non_resident_owner
    else none

abbrev pub same_relationship : Relationship → Relationship → Bool
same_relationship owner owner = true
same_relationship tenant tenant = true
same_relationship non_resident_owner non_resident_owner = true
same_relationship _ _ = false

pub record Building : Type 0 where
  pub id : ℕ
  pub name : Text
  pub address : Option Text
  pub block_count : ℤ
  pub floor_count : ℤ
  pub unit_count : ℤ
  pub built_year : Option ℤ
  pub manager_phone : Option Text
  pub emergency_phone : Option Text
  pub notes : Option Text
  pub created_at : ℕ
  pub updated_at : ℕ
  pub deleted_at : Option ℕ

-- A unit of a building.
pub record BuildingUnit : Type 0 where
  pub id : ℕ
  pub building_id : ℕ
  pub number : Text
  pub block : Option Text
  pub floor : ℤ
  pub area_m2 : ℤ
  pub parking_count : ℤ
  pub parking_numbers : Option Text
  pub storage_count : ℤ
  pub storage_numbers : Option Text
  pub status : UnitStatus
  pub notes : Option Text
  pub created_at : ℕ
  pub updated_at : ℕ
  pub deleted_at : Option ℕ

pub record UserBuilding : Type 0 where
  pub user_id : ℕ
  pub building_id : ℕ
  pub granted_at : ℕ

pub record User : Type 0 where
  pub id : ℕ
  pub phone : Text
  pub name : Text
  pub role : Role
  pub is_active : Bool
  pub deleted_at : Option ℕ

pub record BuildingManager : Type 0 where
  pub user_id : ℕ
  pub phone : Text
  pub name : Text
  pub role : Role
  pub granted_at : ℕ

pub record Person : Type 0 where
  pub id : ℕ
  pub building_id : ℕ
  pub full_name : Text
  pub phone : Option Text
  pub national_id : Option Text
  pub created_at : ℕ
  pub updated_at : ℕ
  pub deleted_at : Option ℕ

pub record Occupancy : Type 0 where
  pub id : ℕ
  pub unit_id : ℕ
  pub person_id : ℕ
  pub relationship : Relationship
  pub start_date : ℕ
  pub end_date : Option ℕ
  pub is_active : Bool
  pub created_at : ℕ

pub record OccupantCount : Type 0 where
  pub id : ℕ
  pub unit_id : ℕ
  pub occupant_count : ℤ
  pub effective_from : ℕ
  pub created_at : ℕ

-- `referenced` holds the ids of buildings, units and persons that rows of other tables refer to
-- (invoices, payments, expenses, announcements and so on).
pub record BuildingDb : Type 0 where
  pub buildings : List Building
  pub units : List BuildingUnit
  pub grants : List UserBuilding
  pub users : List User
  pub persons : List Person
  pub occupancies : List Occupancy
  pub counts : List OccupantCount
  pub referenced : List ℕ

abbrev pub Build : Type 0 → Type 0
Build = M BuildingDb

-- `Date.IsZero`: the first day of the year 1.
abbrev pub zero_date : ℕ
zero_date = 366
