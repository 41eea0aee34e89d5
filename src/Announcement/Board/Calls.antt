-- ===== src/Announcement/Board/Calls.antt =====
-- The table of announcements over any sequence of calls
-- (backend/internal/announcement/service.go).
use hamsa.Base.{ℕ, ◌+◌, ◌≡◌, refl, sym, ◌∙◌, subst, Bool, true, false, inl, inr, Option, none, some}
use hamsa.Base.Text.{Text}
use hamsa.Server.{World, ApiError, tick, pure, ◌>>=◌, ◌>>◌, for_each, best_effort, new_id, time_now}
use hamsa.Server.Rules.{bind-Ends, imp-Ends, query-Ends}
use hamsa.Building.Model.{User}
use hamsa.Announcement.Model.{Announce, AnnouncementDb, Announcement, publish, update}
use hamsa.Announcement.Repository.{create_row, save_row, in_window}
use hamsa.Announcement.Reads.{target_user_ids}
use hamsa.Announcement.Input.{Input, apply_input}
use hamsa.Announcement.Service.{
  managed, managed_row, notify_one, notify_targets, notify_if, log, blank_row, create, edit,
}
use hamsa.Announcement.Validity.{IsValid, Kept}
use hamsa.Announcement.Payload.{apply_input-IsValid}
use hamsa.Announcement.Board.Rows.{
  AllValid, Good, notify_each, best_effort-Good, managed-Kept, log-Good, row_stored, row_saved,
  managed_row-IsValid,
}

module _ (parse_uuid : Text → Option ℕ) where
  notify_if-Good :
      (b : Bool) (a : Announcement) (w : World AnnouncementDb)
      → AllValid w.db
      → Good (notify_if parse_uuid b a w)
  unfolding notify_if notify_targets target_user_ids
  notify_if-Good false a w h = h
  notify_if-Good true a w h =
      best_effort-Good (target_user_ids parse_uuid a >>= for_each (notify_one a)) w (
        bind-Ends _ _ (target_user_ids parse_uuid a) (for_each (notify_one a)) w
          (query-Ends _ _ _ w (notify_each a _ (tick w) h) h))

  -- What follows the payload in Create and in Update.

  abbrev published : ℕ → Announcement → Announce Announcement
  published user_id row = time_now >>= λ now.
      notify_if parse_uuid (in_window row now) row
      >> (log user_id publish none (some row) >> pure row)

  published-Good :
      (user_id : ℕ) (row : Announcement) (w : World AnnouncementDb)
      → AllValid w.db
      → Good (published user_id row w)
  unfolding hamsa.Server.Monad.time_now
  published-Good user_id row w h =
      bind-Ends _ _ (notify_if parse_uuid (in_window row w.now) row)
        (λ _. log user_id publish none (some row) >> pure row) w
        (imp-Ends _ _ (λ _ w'. AllValid w'.db) (λ _ w'. AllValid w'.db)
          (notify_if parse_uuid (in_window row w.now) row w)
          (notify_if-Good (in_window row w.now) row w h)
          (λ _ w1 k. log-Good user_id publish none (some row) row w1 k) (λ _ _ k. k))

  abbrev post : ℕ → Announcement → Announce Announcement
  post user_id a = create_row a >>= published user_id

  post-Good :
      (user_id : ℕ) (a : Announcement) (w : World AnnouncementDb)
      → AllValid w.db
      → IsValid a
      → Good (post user_id a w)
  post-Good user_id a w h v = bind-Ends _ _ (create_row a) (published user_id) w (
      imp-Ends _ _ (λ _ w'. AllValid w'.db) (λ _ w'. AllValid w'.db) (create_row a w)
        (row_stored a w h v) (λ row w1 k. published-Good user_id row w1 k) (λ _ _ k. k))

  abbrev fill_in : User → ℕ → Input → ℕ → Announce Announcement
  fill_in caller building_id input id =
      apply_input parse_uuid (blank_row id building_id caller.id) input true >>= post caller.id

  fill_in-Good :
      (caller : User) (building_id : ℕ) (input : Input) (id : ℕ) (w : World AnnouncementDb)
      → AllValid w.db
      → Good (fill_in caller building_id input id w)
  fill_in-Good caller building_id input id w h =
      let a = blank_row id building_id caller.id in
      bind-Ends _ _ (apply_input parse_uuid a input true) (post caller.id) w (
        imp-Ends _ _ (λ b w'. (w'.db ≡ w.db) × IsValid b) (Kept w)
          (apply_input parse_uuid a input true w)
          (apply_input-IsValid parse_uuid true a input w (inl refl))
          (λ b w1 q. post-Good caller.id b w1 (subst AllValid (sym q.0) h) q.1)
          (λ _ w1 e. subst AllValid (sym e) h))

  pub create-Good :
      (caller : User) (building_id : ℕ) (input : Input) (w : World AnnouncementDb)
      → AllValid w.db
      → Good (create parse_uuid caller building_id input w)
  unfolding create hamsa.Server.Monad.new_id
  create-Good caller building_id input w h =
      bind-Ends _ _ (managed caller building_id) (λ _. new_id >>= fill_in caller building_id input)
        w
        (imp-Ends _ _ (λ _ w'. w'.db ≡ w.db) (Kept w) (managed caller building_id w)
          (managed-Kept caller building_id w)
          (λ _ w1 e.
            fill_in-Good caller building_id input (w1.uuid w1.drawn)
              (record w1 { drawn = w1.drawn + 1 }) (subst AllValid (sym e) h))
          (λ _ w1 e. subst AllValid (sym e) h))

  abbrev logged : ℕ → Announcement → Announcement → Announce Announcement
  logged user_id before row = log user_id update (some before) (some row) >> pure row

  abbrev store : ℕ → Announcement → Announcement → Announce Announcement
  store user_id before a = save_row a >>= logged user_id before

  pub edit-Good :
      (caller : User) (id : ℕ) (input : Input) (w : World AnnouncementDb)
      → AllValid w.db
      → Good (edit parse_uuid caller id input w)
  unfolding edit
  edit-Good caller id input w h =
      bind-Ends _ _ (managed_row caller id)
        (λ a. apply_input parse_uuid a input false >>= store caller.id a) w
        (imp-Ends _ _ (λ a w'. (w'.db ≡ w.db) × IsValid a) (Kept w) (managed_row caller id w)
          (managed_row-IsValid caller id w h)
          (λ a w1 q. bind-Ends _ _ (apply_input parse_uuid a input false) (store caller.id a) w1 (
            imp-Ends _ _ (λ b w'. (w'.db ≡ w1.db) × IsValid b) (Kept w1)
              (apply_input parse_uuid a input false w1)
              (apply_input-IsValid parse_uuid false a input w1 (inr q.1))
              (λ b w2 r. bind-Ends _ _ (save_row b) (logged caller.id a) w2 (
                imp-Ends _ _ (λ _ w'. AllValid w'.db) (λ _ w'. AllValid w'.db) (save_row b w2)
                  (row_saved b w2 (subst AllValid (sym (r.0 ∙ q.0)) h) r.1)
                  (λ row w3 k. log-Good caller.id update (some a) (some row) row w3 k)
                  (λ _ _ k. k)))
              (λ _ w2 e. subst AllValid (sym (e ∙ q.0)) h)))
          (λ _ w1 e. subst AllValid (sym e) h))
