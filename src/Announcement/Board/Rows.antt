-- ===== src/Announcement/Board/Rows.antt =====
-- What the statements of the service do to the table of announcements
-- (backend/internal/announcement/service.go).
use hamsa.Base.{
  ℕ, ◌≡◌, refl, sym, ap, ◌∙◌, subst, Bool, true, false, not, List, [], ◌∷◌, ◌++◌, inl, inr, Option,
  none, some, All, find, keep, update_where, Bool-cases, arith, ◌==◌,
}
use hamsa.Base.Results.{Result}
use hamsa.Server.{
  World, ApiError, announcement_not_found, tick, pure, ◌>>=◌, ◌>>◌, map_error, or_not_found,
  for_each, best_effort, new_id, time_now,
}
use hamsa.Server.Rules.{Ends, bind-Ends, imp-Ends, world-Ends, map_error-Ends, first-Ends}
use hamsa.Building.Model.{User}
use hamsa.Announcement.Model.{Announce, AnnouncementDb, Announcement, Action}
use hamsa.Announcement.Repository.{get_row, create_row, save_row, delete_row, in_window}
use hamsa.Announcement.Service.{managed, managed_row, notify_one, log}
use hamsa.Announcement.Validity.{IsValid, Kept}

-- Every announcement is valid.
abbrev pub AllValid : AnnouncementDb → Type 0
AllValid db = All IsValid db.announcements

All-found :
    (p : Announcement → Bool) (xs : List Announcement) (a : Announcement)
    → All IsValid xs
    → find p xs ≡ some a
    → IsValid a
All-found p [] a h e = ground arith
All-found p (x ∷ xs) a h e = elim (Bool-cases (p x)) [
  | inl t ↦ subst IsValid (some_inj (sym (found t) ∙ e)) h.0
  | inr t ↦ All-found p xs a h.1 (sym (missed t) ∙ e)
]
  where
    found : p x ≡ true → find p (x ∷ xs) ≡ some x
    found t = rw t refl

    missed : p x ≡ false → find p (x ∷ xs) ≡ find p xs
    missed t = rw t refl

    some_inj : {a b : Announcement} → some a ≡ some b → a ≡ b
    some_inj {a} q = ap (or_else a) q
      where
        or_else : Announcement → Option Announcement → Announcement
        or_else d none = d
        or_else d (some x) = x

All-snoc :
    (xs : List Announcement) (a : Announcement)
    → All IsValid xs
    → IsValid a
    → All IsValid (xs ++ a ∷ [])
All-snoc [] a h k = (k, tt)
All-snoc (x ∷ xs) a h k = (h.0, All-snoc xs a h.1 k)

All-put :
    (p : Announcement → Bool) (a : Announcement) (xs : List Announcement)
    → All IsValid xs
    → IsValid a
    → All IsValid (update_where p (λ _. a) xs)
All-put p a [] h k = tt
All-put p a (x ∷ xs) h k = elim (Bool-cases (p x)) [
  | inl t ↦ rw t (k, All-put p a xs h.1 k)
  | inr t ↦ rw t (h.0, All-put p a xs h.1 k)
]

All-keep :
    (p : Announcement → Bool) (xs : List Announcement) → All IsValid xs → All IsValid (keep p xs)
All-keep p [] h = tt
All-keep p (x ∷ xs) h = elim (Bool-cases (p x)) [
  | inl t ↦ rw t (h.0, All-keep p xs h.1)
  | inr t ↦ rw t (All-keep p xs h.1)
]

-- However a call ends, the announcements are valid.
abbrev pub Good : {A : Type 0} → Result ApiError A × World AnnouncementDb → Type 0
Good o = Ends (λ _ w'. AllValid w'.db) (λ _ w'. AllValid w'.db) o

-- Notices.

notify_one-same :
    (a : Announcement) (u : ℕ) (w : World AnnouncementDb)
    → Ends (λ _ w'. w'.db.announcements ≡ w.db.announcements) (λ _ _. ⊥) (notify_one a u w)
unfolding notify_one hamsa.Server.Monad.best_effort hamsa.Server.Monad.new_id
    hamsa.Server.Monad.exec
notify_one-same a u w = ground arith

pub notify_each :
    (a : Announcement) (us : List ℕ) (w : World AnnouncementDb)
    → AllValid w.db
    → Good (for_each (notify_one a) us w)
notify_each a [] w h = h
notify_each a (u ∷ us) w h =
    bind-Ends _ _ (notify_one a u) (λ _. for_each (notify_one a) us) w
      (imp-Ends _ _ (λ _ w'. w'.db.announcements ≡ w.db.announcements) (λ _ _. ⊥) (notify_one a u w)
        (notify_one-same a u w) (λ _ w1 e. notify_each a us w1 (subst (All IsValid) (sym e) h))
        (λ _ _ e. absurd e))

pub best_effort-Good :
    (m : Announce (Unit {0})) (w : World AnnouncementDb) → Good (m w) → Good (best_effort m w)
unfolding hamsa.Server.Monad.best_effort
best_effort-Good m w h = world-Ends (λ w'. AllValid w'.db) (m w) h

pub managed-Kept :
    (caller : User) (building_id : ℕ) (w : World AnnouncementDb)
    → Ends (λ _ w'. w'.db ≡ w.db) (Kept w) (managed caller building_id w)
unfolding managed hamsa.Announcement.Repository.is_manager_of hamsa.Server.Monad.query
managed-Kept caller building_id w = ground arith

pub log-Good :
    (u : ℕ) (act : Action) (before after : Option Announcement) (a : Announcement)
    (w : World AnnouncementDb)
    → AllValid w.db
    → Good ((log u act before after >> pure a) w)
unfolding hamsa.Server.Monad.best_effort hamsa.Server.Monad.exec
log-Good u act before after a w h = elim (Bool-cases (w.faults w.calls)) [
  | inl f ↦ rw f h
  | inr f ↦ rw f h
]

pub logged_last :
    (u : ℕ) (act : Action) (before after : Option Announcement) (w : World AnnouncementDb)
    → AllValid w.db
    → Good (log u act before after w)
unfolding hamsa.Server.Monad.best_effort hamsa.Server.Monad.exec
logged_last u act before after w h = elim (Bool-cases (w.faults w.calls)) [
  | inl f ↦ rw f h
  | inr f ↦ rw f h
]

pub row_stored :
    (a : Announcement) (w : World AnnouncementDb)
    → AllValid w.db
    → IsValid a
    → Ends (λ r w'. AllValid w'.db) (λ _ w'. AllValid w'.db) (create_row a w)
unfolding create_row hamsa.Server.Monad.exec hamsa.Server.Monad.time_now
row_stored a w h v = elim (Bool-cases (w.faults w.calls)) [
  | inl f ↦ rw f h
  | inr f ↦
      rw f (All-snoc w.db.announcements (record a { created_at = w.now; updated_at = w.now }) h v)
]

pub row_saved :
    (a : Announcement) (w : World AnnouncementDb) → AllValid w.db → IsValid a → Good (save_row a w)
unfolding save_row hamsa.Server.Monad.exec hamsa.Server.Monad.time_now
row_saved a w h v = elim (Bool-cases (w.faults w.calls)) [
  | inl f ↦ rw f h
  | inr f ↦
      rw f (All-put (λ b. b.id == a.id) (record a { updated_at = w.now }) w.db.announcements h v)
]

pub row_deleted : (id : ℕ) (w : World AnnouncementDb) → AllValid w.db → Good (delete_row id w)
unfolding delete_row hamsa.Server.Monad.exec
row_deleted id w h = elim (Bool-cases (w.faults w.calls)) [
  | inl f ↦ rw f h
  | inr f ↦ rw f (All-keep (λ a. not (a.id == id)) w.db.announcements h)
]

-- A managed row is one of the table.
pub managed_row-IsValid :
    (caller : User) (id : ℕ) (w : World AnnouncementDb)
    → AllValid w.db
    → Ends (λ a w'. (w'.db ≡ w.db) × IsValid a) (Kept w) (managed_row caller id w)
unfolding managed_row get_row
managed_row-IsValid caller id w h =
    bind-Ends _ (Kept w) (map_error (or_not_found announcement_not_found) (get_row id))
      (λ a. managed caller a.building_id >> pure a) w
      (map_error-Ends _ (Kept w) (or_not_found announcement_not_found) (get_row id) w (
        first-Ends _ _ (λ db. find (λ a. a.id == id) db.announcements) w
          (λ a p.
            bind-Ends _ (Kept w) (managed caller a.building_id) (λ _. pure a) (tick w)
              (imp-Ends _ _ (λ _ w'. w'.db ≡ w.db) (Kept w) (managed caller a.building_id (tick w))
                (managed-Kept caller a.building_id (tick w))
                (λ _ w1 e. (e, All-found (λ a. a.id == id) w.db.announcements a h p)) (λ _ _ e. e)))
          (λ _. refl) refl))
