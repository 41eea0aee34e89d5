-- ===== src/Announcement/Repository.antt =====
-- The statements of the announcements (backend/internal/announcement/repository.go). uuid.Parse is a
-- parameter. The maps that the code builds from a resident's units are tests on their keys.
use hamsa.Base.{
  ℕ, Bool, true, false, ◌&&◌, not, List, [], ◌∷◌, ◌++◌, Option, none, some, exists, find, keep, map,
  update_where, is_empty, leb, ltb, ◌==◌, if◌then◌else◌,
}
use hamsa.Base.Decimal.{print_int}
use hamsa.Base.Text.{Text, text_eq}
use hamsa.Server.{pure, ◌>>=◌, ◌>>◌, query, exec, first, time_now}
use hamsa.Building.Model.{BuildingUnit}
use hamsa.Building.Repository.{is_grant, is_live}
use hamsa.Building.Occupancies.Service.{is_open}
use hamsa.Announcement.Model.{
  Announce, AnnouncementDb, Announcement, UnitInfo, File, Audience, audience_all, audience_block,
  audience_floor, audience_unit,
}

unfoldable pub is_manager_of : ℕ → ℕ → Announce Bool
is_manager_of user_id building_id = query (λ db. exists (is_grant user_id building_id) db.grants)

abbrev pub path_of : Option File → Option Text
path_of none = none
path_of (some f) = some f.path

unfoldable pub attachment_path : ℕ → Announce Text
attachment_path id = first (λ db. path_of (find (λ f. f.id == id) db.files))

unfoldable pub create_row : Announcement → Announce Announcement
create_row a = do
  now ← time_now
  let row = record a { created_at = now; updated_at = now }
  exec (λ db. record db { announcements = db.announcements ++ row ∷ [] })
  pure row

unfoldable pub get_row : ℕ → Announce Announcement
get_row id = first (λ db. find (λ a. a.id == id) db.announcements)

unfoldable pub save_row : Announcement → Announce Announcement
save_row a = do
  now ← time_now
  let row = record a { updated_at = now }
  exec (λ db. record db {
    announcements = update_where (λ b. b.id == row.id) (λ _. row) db.announcements;
  })
  pure row

-- The read marks go with the row.
unfoldable pub delete_row : ℕ → Announce (Unit {0})
delete_row id = exec (λ db. record db {
  announcements = keep (λ a. not (a.id == id)) db.announcements;
  reads = keep (λ r. not (r.announcement_id == id)) db.reads;
})

-- A resident's units.

abbrev has_phone : Text → Option Text → Bool
has_phone phone none = false
has_phone phone (some p) = text_eq p phone

-- An occupancy without an end date joins the unit to a live person with the phone.
abbrev pub lives_in : Text → AnnouncementDb → BuildingUnit → Bool
lives_in phone db u =
    is_live u.deleted_at
    && exists
        (λ o.
          o.unit_id == u.id
          && is_open o.end_date
          && exists (λ p. p.id == o.person_id && is_live p.deleted_at && has_phone phone p.phone)
              db.persons)
        db.occupancies

abbrev pub unit_info : BuildingUnit → UnitInfo
unit_info u = record { id = u.id; building_id = u.building_id; block = u.block; floor = u.floor }

abbrev pub units_of_phone : Text → AnnouncementDb → List UnitInfo
units_of_phone phone db = map unit_info (keep (lives_in phone db) db.units)

unfoldable pub resident_units : Text → Announce (List UnitInfo)
resident_units phone = query (units_of_phone phone)

-- `publish_at IS NULL OR publish_at <= ?` and `expire_at IS NULL OR expire_at > ?`

abbrev published : Option ℕ → ℕ → Bool
published none now = true
published (some t) now = leb t now

abbrev unexpired : Option ℕ → ℕ → Bool
unexpired none now = true
unexpired (some t) now = ltb now t

unfoldable pub in_window : Announcement → ℕ → Bool
in_window a now = published a.publish_at now && unexpired a.expire_at now

-- `buildings[id]`, `blockByBuilding[id][block]`, `floorByBuilding[id][floor]` and `unitIDs[id]`.

abbrev pub has_building : List UnitInfo → ℕ → Bool
has_building units id = exists (λ u. u.building_id == id) units

abbrev pub is_block : Text → Option Text → Bool
is_block value none = false
is_block value (some b) = not (is_empty b) && text_eq b value

abbrev has_block : List UnitInfo → ℕ → Text → Bool
has_block units id value = exists (λ u. u.building_id == id && is_block value u.block) units

abbrev pub has_floor : List UnitInfo → ℕ → Text → Bool
has_floor units id value =
    exists (λ u. u.building_id == id && text_eq (print_int u.floor) value) units

abbrev pub has_unit : List UnitInfo → Option ℕ → Bool
has_unit units none = false
has_unit units (some id) = exists (λ u. u.id == id) units

-- `ORDER BY created_at DESC`; of two of one instant the later row comes first.
abbrev insert_newest : Announcement → List Announcement → List Announcement
insert_newest a [] = a ∷ []
insert_newest a (b ∷ bs) =
    let rest = insert_newest a bs in if leb b.created_at a.created_at then a ∷ b ∷ bs else b ∷ rest

abbrev pub newest_first : List Announcement → List Announcement → List Announcement
newest_first done [] = done
newest_first done (a ∷ rest) = newest_first (insert_newest a done) rest

module _ (parse_uuid : Text → Option ℕ) where
  abbrev pub audience_matches : Announcement → List UnitInfo → Audience → Option Text → Bool
  audience_matches a units audience_all v = true
  audience_matches a units audience_block (some v) = has_block units a.building_id v
  audience_matches a units audience_floor (some v) = has_floor units a.building_id v
  audience_matches a units audience_unit (some v) = has_unit units (parse_uuid v)
  audience_matches a units _ none = false

  unfoldable pub is_visible : Announcement → List UnitInfo → Bool
  is_visible a units = audience_matches a units a.audience_type a.audience_value

  abbrev visible_in : List UnitInfo → ℕ → AnnouncementDb → List Announcement
  visible_in units now db =
      keep (λ a. is_visible a units)
        (newest_first []
          (keep (λ a. has_building units a.building_id && in_window a now) db.announcements))

  unfoldable pub visible_announcements : List UnitInfo → ℕ → Announce (List Announcement)
  unfolding is_visible in_window
  visible_announcements units now = query (visible_in units now)

  -- `IsVisible` on the row that was read.
  unfoldable pub sees : List UnitInfo → ℕ → Announcement → Bool
  unfolding is_visible in_window
  sees units now a = in_window a now && has_building units a.building_id && is_visible a units

  unfoldable pub is_visible_id : ℕ → List UnitInfo → ℕ → Announce Bool
  unfolding get_row sees
  is_visible_id id units now = get_row id >>= λ a. pure (sees units now a)
