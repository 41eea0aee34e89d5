-- ===== src/Announcement/Service.antt =====
-- The announcement service (backend/internal/announcement/service.go). uuid.Parse is a parameter, and
-- the callers are users of the middleware, so that the branches for a missing one are left out.
use hamsa.Base.{
  ℕ, take, Bool, true, false, not, List, [], ◌∷◌, ◌++◌, Option, none, some, map, length, is_empty,
  keep, ltb, ◌==◌, if◌then◌else◌,
}
use hamsa.Base.Text.{Text}
use hamsa.Base.Results.{Result, ok, err, panic}
use hamsa.Server.{
  World, ApiError, forbidden, not_found, no_building_access, announcement_not_found, pure, fail_if,
  ◌>>=◌, ◌>>◌, query, exec, map_error, or_not_found, best_effort, for_each, new_id, time_now,
}
use hamsa.Building.Model.{User}
use hamsa.Announcement.Model.{
  Announce, AnnouncementDb, Announcement, AnnouncementWithRead, audience_all, Action, publish,
  update, delete,
}
use hamsa.Announcement.Repository.{
  is_manager_of, create_row, get_row, save_row, delete_row, resident_units, in_window, newest_first,
  is_visible_id,
}
use hamsa.Announcement.Reads.{
  insert_mark, reads_for_user, is_marked, list_for_resident, unread_count_for_resident,
  target_user_ids, page_of,
}
use hamsa.Announcement.Input.{Input, apply_input}

unfoldable pub managed : User → ℕ → Announce (Unit {0})
unfolding is_manager_of
managed caller building_id = do
  allowed ← is_manager_of caller.id building_id
  fail_if (not allowed) (forbidden no_building_access)

unfoldable pub managed_row : User → ℕ → Announce Announcement
unfolding get_row managed
managed_row caller id = do
  a ← map_error (or_not_found announcement_not_found) (get_row id)
  managed caller a.building_id
  pure a

abbrev pub log : ℕ → Action → Option Announcement → Option Announcement → Announce (Unit {0})
log user_id action before after = best_effort (
    exec (λ db. record db {
      audit_log =
          record { user_id = user_id; action = action; before = before; after = after }
          ∷ db.audit_log;
    }))

-- `body` cut after 200 characters.
abbrev shorten : Text → Text
shorten body = if ltb 200 (length body) then take 200 body ++ 0x2026 ∷ [] else body

-- The text in front of the title of a notice.
abbrev new_notice : Text
new_notice =
    0x627 ∷ 0x637 ∷ 0x644 ∷ 0x627 ∷ 0x639 ∷ 0x6cc ∷ 0x647 ∷ 0x20 ∷ 0x62c ∷ 0x62f ∷ 0x6cc ∷ 0x62f
    ∷ 0x3a ∷ 0x20 ∷ []

unfoldable pub notify_one : Announcement → ℕ → Announce (Unit {0})
notify_one a user_id = best_effort (do
  id ← new_id
  exec (λ db. record db {
    notices =
        record {
          id = id;
          user_id = user_id;
          title = new_notice ++ a.title;
          body = shorten a.body;
          ref_id = a.id;
        }
        ∷ db.notices;
  }))

-- An error is dropped, with what was read.
abbrev drop_error :
    Result ApiError (List ℕ) × World AnnouncementDb
    → Result ApiError (List ℕ) × World AnnouncementDb
drop_error (ok ids, w) = (ok ids, w)
drop_error (err e, w) = (ok [], w)
drop_error (panic, w) = (panic, w)

abbrev mark_read_in : List ℕ → AnnouncementWithRead → AnnouncementWithRead
mark_read_in marks a = if is_marked marks a.announcement.id then record a { is_read = true } else a

abbrev rows_of : ℕ → AnnouncementDb → List Announcement
rows_of building_id db = keep (λ a. a.building_id == building_id) db.announcements

abbrev pub blank_row : ℕ → ℕ → ℕ → Announcement
blank_row id building_id created_by = record {
  id = id;
  building_id = building_id;
  title = [];
  body = [];
  audience_type = audience_all;
  audience_value = none;
  publish_at = none;
  expire_at = none;
  attachment_file = none;
  created_by = created_by;
  created_at = 0;
  updated_at = 0;
}

unfoldable list_for_manager : User → ℕ → ℕ → ℕ → Announce (List Announcement × ℕ)
unfolding managed page_of
list_for_manager caller building_id page size = do
  managed caller building_id
  total ← query (λ db. length (rows_of building_id db))
  items ← query (λ db. page_of page size (newest_first [] (rows_of building_id db)))
  pure (items, total)

module _ (parse_uuid : Text → Option ℕ) where
  unfoldable pub notify_targets : Announcement → Announce (Unit {0})
  unfolding target_user_ids notify_one
  notify_targets a = best_effort (target_user_ids parse_uuid a >>= for_each (notify_one a))

  unfoldable pub notify_if : Bool → Announcement → Announce (Unit {0})
  unfolding notify_targets
  notify_if true a = notify_targets a
  notify_if false a = pure tt

  unfoldable pub create : User → ℕ → Input → Announce Announcement
  unfolding managed apply_input create_row notify_if in_window
  create caller building_id input = do
    managed caller building_id
    id ← new_id
    a ← apply_input parse_uuid (blank_row id building_id caller.id) input true
    row ← create_row a
    now ← time_now
    notify_if (in_window row now) row
    log caller.id publish none (some row)
    pure row

  unfoldable pub edit : User → ℕ → Input → Announce Announcement
  unfolding managed_row apply_input save_row
  edit caller id input = do
    before ← managed_row caller id
    a ← apply_input parse_uuid before input false
    row ← save_row a
    log caller.id update (some before) (some row)
    pure row

  unfoldable list_for_reader : User → ℕ → ℕ → Announce (List AnnouncementWithRead × ℕ)
  unfolding resident_units list_for_resident reads_for_user
  list_for_reader resident page size = do
    units ← resident_units resident.phone
    if is_empty units then pure ([], 0) else do
      now ← time_now
      found ← list_for_resident parse_uuid units now page size
      marks ← reads_for_user resident.id
      pure (map (mark_read_in marks) found.0, found.1)

  -- The announcement, where the resident sees it.
  unfoldable pub visible_row : User → ℕ → Announce Announcement
  unfolding get_row resident_units is_visible_id
  visible_row resident id = do
    a ← map_error (or_not_found announcement_not_found) (get_row id)
    units ← resident_units resident.phone
    now ← time_now
    visible ← is_visible_id parse_uuid id units now
    fail_if (not visible) (not_found announcement_not_found)
    pure a

  unfoldable get_for_reader : User → ℕ → Announce AnnouncementWithRead
  unfolding visible_row reads_for_user
  get_for_reader resident id = do
    a ← visible_row resident id
    marks ← (λ w. drop_error (reads_for_user resident.id w))
    pure (record { announcement = a; is_read = is_marked marks id })

  unfoldable pub mark_read : User → ℕ → Announce (Unit {0})
  unfolding visible_row insert_mark
  mark_read resident id = visible_row resident id >> insert_mark id resident.id

  unfoldable unread_count : User → Announce ℕ
  unfolding resident_units unread_count_for_resident
  unread_count resident = do
    units ← resident_units resident.phone
    if is_empty units
        then pure 0
        else do now ← time_now; unread_count_for_resident parse_uuid units resident.id now

unfoldable pub remove : User → ℕ → Announce (Unit {0})
unfolding managed_row delete_row
remove caller id = do a ← managed_row caller id; delete_row id; log caller.id delete (some a) none
