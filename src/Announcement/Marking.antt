-- ===== src/Announcement/Marking.antt =====
-- Marking an announcement as read (backend/internal/announcement/service.go, MarkRead).
use hamsa.Base.{
  ℕ, ◌≡◌, refl, true, false, ◌&&◌, not, [], ◌∷◌, Option, some, find, arith, ◌==◌, if◌then◌else◌,
  exists-append,
}
use hamsa.Base.Text.{Text}
use hamsa.Server.{
  World, ApiError, announcement_not_found, not_found, tick, pure, fail_if, ◌>>=◌, ◌>>◌, map_error,
  or_not_found, time_now,
}
use hamsa.Server.Rules.{Ends, bind-Ends, imp-Ends, map_error-Ends, first-Ends}
use hamsa.Building.Model.{User}
use hamsa.Announcement.Model.{Announce, AnnouncementDb, Announcement, AnnouncementRead}
use hamsa.Announcement.Repository.{get_row, resident_units, units_of_phone, is_visible_id, sees}
use hamsa.Announcement.Reads.{is_mark, has_read, add_mark, insert_mark}
use hamsa.Announcement.Service.{visible_row, mark_read}

abbrev pub Untouched : World AnnouncementDb → ApiError → World AnnouncementDb → Type 0
Untouched w e w' = w'.db ≡ w.db

-- The other marks are those of before.
abbrev MarksKeep : ℕ → ℕ → AnnouncementDb → AnnouncementDb → Type 0
MarksKeep id user_id db db' =
    (i u : ℕ) → (i == id && u == user_id) ≡ false → has_read i u db' ≡ has_read i u db

module _ (parse_uuid : Text → Option ℕ) (resident : User) (id : ℕ) (w : World AnnouncementDb) where
  -- There is an announcement with the id, and the resident sees it.
  abbrev Seen : Announcement → Type 0
  Seen a =
      (find (λ b. b.id == id) w.db.announcements ≡ some a)
      × (sees parse_uuid (units_of_phone resident.phone w.db) w.now a ≡ true)

  abbrev Shown : Announcement → World AnnouncementDb → Type 0
  Shown a w' = (w'.db ≡ w.db) × (w'.now ≡ w.now) × Seen a

  abbrev show : Announcement → Announce Announcement
  show a = resident_units resident.phone >>= λ units. time_now >>= λ now.
      is_visible_id parse_uuid id units now >>= λ visible.
      fail_if (not visible) (not_found announcement_not_found) >> pure a

  show-Shown :
      (a : Announcement)
      → find (λ b. b.id == id) w.db.announcements ≡ some a
      → Ends Shown (Untouched w) (show a (tick w))
  unfolding resident_units is_visible_id get_row hamsa.Server.Monad.time_now
      hamsa.Server.Monad.query hamsa.Server.Monad.first
  show-Shown a p = ground arith

  visible_row-Shown : Ends Shown (Untouched w) (visible_row parse_uuid resident id w)
  unfolding visible_row get_row
  visible_row-Shown =
      bind-Ends Shown (Untouched w) (map_error (or_not_found announcement_not_found) (get_row id))
        show w
        (map_error-Ends _ (Untouched w) (or_not_found announcement_not_found) (get_row id) w (
          first-Ends _ _ (λ db. find (λ b. b.id == id) db.announcements) w (λ a p. show-Shown a p)
            (λ _. refl) refl))

  -- The mark is there, once; nothing else is changed.
  abbrev pub Marked : Unit {0} → World AnnouncementDb → Type 0
  Marked _ w' =
      (has_read id resident.id w'.db ≡ true)
      × MarksKeep id resident.id w.db w'.db
      × (w'.db.announcements ≡ w.db.announcements)
      × (has_read id resident.id w.db ≡ true → w'.db ≡ w.db)
      × ((a : Announcement) × Seen a)

  abbrev Inserted : World AnnouncementDb → Type 0
  Inserted w' =
      w'.db ≡ (if has_read id resident.id w.db then w.db else add_mark id resident.id w.now w.db)

  insert_mark-Inserted :
      (w1 : World AnnouncementDb)
      → w1.db ≡ w.db
      → w1.now ≡ w.now
      → Ends (λ _ w'. Inserted w') (Untouched w) (insert_mark id resident.id w1)
  unfolding insert_mark hamsa.Server.Monad.exec hamsa.Server.Monad.time_now
  insert_mark-Inserted w1 d n = ground arith

  abbrev mark : AnnouncementRead
  mark = record { announcement_id = id; user_id = resident.id; read_at = w.now }

  -- What the insert does, on either branch of its conflict clause.
  inserted_facts :
      (db : AnnouncementDb)
      → db ≡ (if has_read id resident.id w.db then w.db else add_mark id resident.id w.now w.db)
      → (has_read id resident.id db ≡ true)
        × MarksKeep id resident.id w.db db
        × (db.announcements ≡ w.db.announcements)
        × (has_read id resident.id w.db ≡ true → db ≡ w.db)
  inserted_facts db e = (
    ground (arith, exists-append (is_mark id resident.id) w.db.reads (mark ∷ [])),
    λ i u h. ground (arith, exists-append (is_mark i u) w.db.reads (mark ∷ [])),
    ground arith,
    λ h. ground arith,
  )

-- MarkRead does not panic. Where it succeeds, there is an announcement with the id that the resident sees, the resident's mark on it is there,
-- every other mark and every announcement is as before, and if the mark was there already, the whole database is as
-- it was. Where it fails, the database is as it was.
pub mark_read-Marked :
    (parse_uuid : Text → Option ℕ) (resident : User) (id : ℕ) (w : World AnnouncementDb)
    → Ends (Marked parse_uuid resident id w) (Untouched w) (mark_read parse_uuid resident id w)
unfolding mark_read
mark_read-Marked parse_uuid resident id w =
    bind-Ends (Marked parse_uuid resident id w) (Untouched w) (visible_row parse_uuid resident id)
      (λ _. insert_mark id resident.id) w
      (imp-Ends _ _ (Shown parse_uuid resident id w) (Untouched w)
        (visible_row parse_uuid resident id w) (visible_row-Shown parse_uuid resident id w)
        (λ a w1 s.
          imp-Ends _ _ (λ _ w'. Inserted parse_uuid resident id w w') (Untouched w)
            (insert_mark id resident.id w1)
            (insert_mark-Inserted parse_uuid resident id w w1 s.0 s.1)
            (λ _ w2 e.
              let f = inserted_facts parse_uuid resident id w w2.db e in
              (f.0, f.1, f.2, f.3, (a, s.2)))
            (λ _ _ e. e))
        (λ _ _ e. e))
