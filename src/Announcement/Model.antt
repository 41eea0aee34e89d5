-- ===== src/Announcement/Model.antt =====
-- Rows of announcements and of the tables they are matched with
-- (backend/internal/announcement/models.go).
use hamsa.Base.{ℕ, Bool, List, Option, none, some, if◌then◌else◌}
use hamsa.Base.Int.{ℤ}
use hamsa.Base.Text.{Text, codes, text_eq}
use hamsa.Server.{M}
use hamsa.Building.Model.{BuildingUnit, UserBuilding, User, Person, Occupancy}

pub data Audience : Type 0 where
  audience_all audience_block audience_floor audience_unit : Audience

-- `validAudience`: the value that a text names.
unfoldable pub parse_audience : Text → Option Audience
parse_audience s =
    if text_eq s (codes "all")
    then some audience_all
    else if text_eq s (codes "block")
    then some audience_block
    else if text_eq s (codes "floor")
    then some audience_floor
    else if text_eq s (codes "unit")
    then some audience_unit
    else none

pub record Announcement : Type 0 where
  pub id : ℕ
  pub building_id : ℕ
  pub title : Text
  pub body : Text
  pub audience_type : Audience
  pub audience_value : Option Text
  pub publish_at : Option ℕ
  pub expire_at : Option ℕ
  pub attachment_file : Option Text
  pub created_by : ℕ
  pub created_at : ℕ
  pub updated_at : ℕ

pub record AnnouncementRead : Type 0 where
  pub announcement_id : ℕ
  pub user_id : ℕ
  pub read_at : ℕ

pub record AnnouncementWithRead : Type 0 where
  pub announcement : Announcement
  pub is_read : Bool

-- A unit of a resident.
pub record UnitInfo : Type 0 where
  pub id : ℕ
  pub building_id : ℕ
  pub block : Option Text
  pub floor : ℤ

pub record File : Type 0 where
  pub id : ℕ
  pub path : Text

pub record Notice : Type 0 where
  pub id : ℕ
  pub user_id : ℕ
  pub title : Text
  pub body : Text
  pub ref_id : ℕ

pub data Action : Type 0 where
  publish update delete : Action

pub record Entry : Type 0 where
  pub user_id : ℕ
  pub action : Action
  pub before : Option Announcement
  pub after : Option Announcement

pub record AnnouncementDb : Type 0 where
  pub announcements : List Announcement
  pub reads : List AnnouncementRead
  pub grants : List UserBuilding
  pub users : List User
  pub units : List BuildingUnit
  pub persons : List Person
  pub occupancies : List Occupancy
  pub files : List File
  pub notices : List Notice
  pub audit_log : List Entry

abbrev pub Announce : Type 0 → Type 0
Announce = M AnnouncementDb
