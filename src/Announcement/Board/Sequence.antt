-- ===== src/Announcement/Board/Sequence.antt =====
-- The announcements over any sequence of calls (backend/internal/announcement/service.go).
use hamsa.Base.{ℕ, ◌≡◌, sym, subst, List, [], ◌∷◌, Option, none, some, All}
use hamsa.Base.Text.{Text}
use hamsa.Server.{World, ◌>>◌}
use hamsa.Server.Rules.{bind-Ends, imp-Ends, world-Ends}
use hamsa.Building.Model.{User}
use hamsa.Announcement.Model.{AnnouncementDb, delete}
use hamsa.Announcement.Repository.{delete_row}
use hamsa.Announcement.Input.{Input}
use hamsa.Announcement.Service.{managed_row, log, create, edit, remove, mark_read}
use hamsa.Announcement.Validity.{IsValid, Kept}
use hamsa.Announcement.Marking.{Marked, Untouched, mark_read-Marked}
use hamsa.Announcement.Board.Rows.{AllValid, Good, managed_row-IsValid, row_deleted, logged_last}
use hamsa.Announcement.Board.Calls.{create-Good, edit-Good}

pub data Call : Type 0 where
  creates : User → ℕ → Input → Call
  edits : User → ℕ → Input → Call
  removes : User → ℕ → Call
  marks : User → ℕ → Call

remove-Good :
    (caller : User) (id : ℕ) (w : World AnnouncementDb) → AllValid w.db → Good (remove caller id w)
unfolding remove
remove-Good caller id w h =
    bind-Ends _ _ (managed_row caller id) (λ a. delete_row id >> log caller.id delete (some a) none)
      w
      (imp-Ends _ _ (λ a w'. (w'.db ≡ w.db) × IsValid a) (Kept w) (managed_row caller id w)
        (managed_row-IsValid caller id w h)
        (λ a w1 q.
          bind-Ends _ _ (delete_row id) (λ _. log caller.id delete (some a) none) w1
            (imp-Ends _ _ (λ _ w'. AllValid w'.db) (λ _ w'. AllValid w'.db) (delete_row id w1)
              (row_deleted id w1 (subst AllValid (sym q.0) h))
              (λ _ w2 k. logged_last caller.id delete (some a) none w2 k) (λ _ _ k. k)))
        (λ _ w1 e. subst AllValid (sym e) h))

module _ (parse_uuid : Text → Option ℕ) where
  mark_read-Good :
      (resident : User) (id : ℕ) (w : World AnnouncementDb)
      → AllValid w.db
      → Good (mark_read parse_uuid resident id w)
  mark_read-Good resident id w h =
      imp-Ends _ _ (Marked parse_uuid resident id w) (Untouched w)
        (mark_read parse_uuid resident id w) (mark_read-Marked parse_uuid resident id w)
        (λ _ w' q. subst (All IsValid) (sym q.2) h) (λ _ w' e. subst AllValid (sym e) h)

  -- The calls one after another, whether they succeed or fail.
  unfoldable pub run : List Call → World AnnouncementDb → World AnnouncementDb
  run [] w = w
  run (creates u b input ∷ calls) w = run calls (create parse_uuid u b input w).1
  run (edits u id input ∷ calls) w = run calls (edit parse_uuid u id input w).1
  run (removes u id ∷ calls) w = run calls (remove u id w).1
  run (marks u id ∷ calls) w = run calls (mark_read parse_uuid u id w).1

-- Where every announcement is valid, every announcement is valid after any sequence of calls of Create, Update, Delete and MarkRead: the
-- title is trimmed and not empty, the body is not blank, everyone is addressed without a value and a block, floor or unit by one that is not empty, and an
-- announcement expires after it is published.
pub run-AllValid :
    (parse_uuid : Text → Option ℕ) (calls : List Call) (w : World AnnouncementDb)
    → AllValid w.db
    → AllValid (run parse_uuid calls w).db
unfolding run
run-AllValid p [] w h = h
run-AllValid p (creates u b input ∷ calls) w h =
    run-AllValid p calls (create p u b input w).1
      (world-Ends (λ w'. AllValid w'.db) (create p u b input w) (create-Good p u b input w h))
run-AllValid p (edits u id input ∷ calls) w h =
    run-AllValid p calls (edit p u id input w).1
      (world-Ends (λ w'. AllValid w'.db) (edit p u id input w) (edit-Good p u id input w h))
run-AllValid p (removes u id ∷ calls) w h =
    run-AllValid p calls (remove u id w).1
      (world-Ends (λ w'. AllValid w'.db) (remove u id w) (remove-Good u id w h))
run-AllValid p (marks u id ∷ calls) w h =
    run-AllValid p calls (mark_read p u id w).1
      (world-Ends (λ w'. AllValid w'.db) (mark_read p u id w) (mark_read-Good p u id w h))
