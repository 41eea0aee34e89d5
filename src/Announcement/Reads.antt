-- ===== src/Announcement/Reads.antt =====
-- The read marks, the pages and the targets of announcements
-- (backend/internal/announcement/repository.go).
use hamsa.Base.{
  ℕ, take, drop, ◌-◌, ◌*◌, Bool, true, false, ◌&&◌, ◌||◌, not, List, [], ◌∷◌, ◌++◌, Option, none,
  some, exists, keep, map, length, is_empty, ltb, ◌==◌, if◌then◌else◌,
}
use hamsa.Base.Decimal.{print_int}
use hamsa.Base.Text.{Text, text_eq}
use hamsa.Server.{pure, ◌>>=◌, query, exec, time_now}
use hamsa.Building.Model.{BuildingUnit, User}
use hamsa.Building.Repository.{is_live}
use hamsa.Announcement.Model.{
  Announce, AnnouncementDb, Announcement, AnnouncementRead, AnnouncementWithRead, UnitInfo,
  Audience, audience_all, audience_block, audience_floor, audience_unit,
}
use hamsa.Announcement.Repository.{lives_in, visible_announcements}

-- Read marks.

abbrev pub is_mark : ℕ → ℕ → AnnouncementRead → Bool
is_mark id user_id r = r.announcement_id == id && r.user_id == user_id

abbrev pub has_read : ℕ → ℕ → AnnouncementDb → Bool
has_read id user_id db = exists (is_mark id user_id) db.reads

abbrev pub add_mark : ℕ → ℕ → ℕ → AnnouncementDb → AnnouncementDb
add_mark id user_id now db = record db {
  reads = db.reads ++ record { announcement_id = id; user_id = user_id; read_at = now } ∷ [];
}

-- The insert with ON CONFLICT DO NOTHING.
unfoldable pub insert_mark : ℕ → ℕ → Announce (Unit {0})
insert_mark id user_id = time_now >>= λ now.
    exec (λ db. if has_read id user_id db then db else add_mark id user_id now db)

abbrev reads_of : ℕ → AnnouncementDb → List ℕ
reads_of user_id db = map (λ r. r.announcement_id) (keep (λ r. r.user_id == user_id) db.reads)

unfoldable pub reads_for_user : ℕ → Announce (List ℕ)
reads_for_user user_id = query (reads_of user_id)

-- `readMap[id]`
abbrev pub is_marked : List ℕ → ℕ → Bool
is_marked ids id = exists (λ i. i == id) ids

abbrev count_unread : List ℕ → List ℕ → ℕ
count_unread marks ids = length (keep (λ id. not (is_marked marks id)) ids)

-- Pages: a page below 1 is the first, a size that is 0 or more than 100 is 20.

abbrev page_size : ℕ → ℕ
page_size size = if size == 0 || ltb 100 size then 20 else size

abbrev page_start : ℕ → ℕ → ℕ
page_start page size = (page - 1) * page_size size

unfoldable pub page_of {ℓ} : {A : Type ℓ} → ℕ → ℕ → List A → List A
page_of page size xs = take (page_size size) (drop (page_start page size) xs)

abbrev unread : Announcement → AnnouncementWithRead
unread a = record { announcement = a; is_read = false }

-- `TargetUserIDs`: the tests on a row of the join.

abbrev pub block_is : Text → Option Text → Bool
block_is value none = text_eq [] value
block_is value (some b) = text_eq b value

abbrev pub unit_is : ℕ → Option ℕ → Bool
unit_is id none = false
unit_is id (some v) = id == v

module _ (parse_uuid : Text → Option ℕ) where
  unfoldable pub list_for_resident :
      List UnitInfo → ℕ → ℕ → ℕ → Announce (List AnnouncementWithRead × ℕ)
  unfolding page_of
  list_for_resident [] now page size = pure ([], 0)
  list_for_resident (u ∷ us) now page size = do
    all ← visible_announcements parse_uuid (u ∷ us) now
    pure (map unread (page_of page size all), length all)

  unfoldable list_all_visible_ids : List UnitInfo → ℕ → Announce (List ℕ)
  list_all_visible_ids units now = do
    all ← visible_announcements parse_uuid units now
    pure (map (λ a. a.id) all)

  unfoldable pub unread_count_for_resident : List UnitInfo → ℕ → ℕ → Announce ℕ
  unfolding list_all_visible_ids reads_for_user
  unread_count_for_resident units user_id now = do
    ids ← list_all_visible_ids units now
    if is_empty ids
        then pure 0
        else do marks ← reads_for_user user_id; pure (count_unread marks ids)

  -- The rows of the join, by the audience.
  abbrev pub audience_row : Audience → Option Text → BuildingUnit → Bool
  audience_row audience_all v u = true
  audience_row audience_block (some v) u = block_is v u.block
  audience_row audience_floor (some v) u = text_eq (print_int u.floor) v
  audience_row audience_unit (some v) u = unit_is u.id (parse_uuid v)
  audience_row _ none u = false

  unfoldable pub is_target : Announcement → AnnouncementDb → User → Bool
  is_target a db user =
      is_live user.deleted_at
      && user.is_active
      && exists
          (λ u.
            lives_in user.phone db u
            && u.building_id == a.building_id
            && audience_row a.audience_type a.audience_value u)
          db.units

  unfoldable pub target_user_ids : Announcement → Announce (List ℕ)
  unfolding is_target
  target_user_ids a = query (λ db. map (λ u. u.id) (keep (is_target a db) db.users))
