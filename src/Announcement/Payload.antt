-- ===== src/Announcement/Payload.antt =====
-- A whole payload (backend/internal/announcement/service.go, applyInput).
use hamsa.Base.{
  ℕ, ◌≡◌, refl, sym, ap, ◌∙◌, subst, Bool, true, false, ◌⊎◌, inl, inr, Option, is_empty, arith,
}
use hamsa.Base.Text.{Text, trim_space}
use hamsa.Server.{
  World, ApiError, bad_request, publish_at_invalid, expire_at_invalid, expire_before_publish, pure,
  fail_if, ◌>>=◌, ◌>>◌,
}
use hamsa.Server.Rules.{Ends, bind-Ends, imp-Ends, fail_if-Ends}
use hamsa.Announcement.Model.{Announce, AnnouncementDb, Announcement}
use hamsa.Announcement.Input.{
  Input, TimeInput, apply_title, apply_body, apply_audience, apply_time, apply_attachment,
  apply_input, ends_early,
}
use hamsa.Announcement.Validity.{
  IsTitle, IsValid, HasValue, Kept, apply_title-Ends, apply_body-Ends, Aimed, apply_audience-Aimed,
}

module _ (parse_uuid : Text → Option ℕ) (create : Bool) (a : Announcement) (input : Input)
    (w : World AnnouncementDb) where
  abbrev Result : Announcement → World AnnouncementDb → Type 0
  Result b w' = (w'.db ≡ w.db) × IsValid b

  -- The title, the body and the audience of a valid announcement.
  abbrev Core : Announcement → Type 0
  Core d =
      IsTitle d.title
      × (is_empty (trim_space d.body) ≡ false)
      × HasValue d.audience_type d.audience_value

  time-Kept :
      (e : ApiError) (t : Option TimeInput) (old : Option ℕ) (w1 : World AnnouncementDb)
      → w1.db ≡ w.db
      → Ends (λ _ w'. w'.db ≡ w.db) (Kept w) (apply_time e create t old w1)
  unfolding apply_time
  time-Kept e t old w1 d = ground arith

  attachment-Kept :
      (f : Option Text) (old : Option Text) (w1 : World AnnouncementDb)
      → w1.db ≡ w.db
      → Ends (λ _ w'. w'.db ≡ w.db) (Kept w) (apply_attachment parse_uuid create f old w1)
  unfolding apply_attachment hamsa.Announcement.Input.bind_attachment
      hamsa.Announcement.Repository.attachment_path hamsa.Server.Monad.first
  attachment-Kept f old w1 d = ground arith

  abbrev with_file : Announcement → Option ℕ → Option ℕ → Option Text → Announce Announcement
  with_file d p e file = pure (record d { publish_at = p; expire_at = e; attachment_file = file })

  abbrev check_order : Announcement → Option ℕ → Option ℕ → Announce Announcement
  check_order d p e =
      fail_if (ends_early p e) (bad_request expire_before_publish)
      >> (apply_attachment parse_uuid create input.attachment_file_id a.attachment_file
          >>= with_file d p e)

  check_order-Result :
      (d : Announcement) (p e : Option ℕ) (w1 : World AnnouncementDb)
      → Core d
      → w1.db ≡ w.db
      → Ends Result (Kept w) (check_order d p e w1)
  check_order-Result d p e w1 c k =
      bind-Ends Result (Kept w) (fail_if (ends_early p e) (bad_request expire_before_publish))
        (λ _.
          apply_attachment parse_uuid create input.attachment_file_id a.attachment_file
          >>= with_file d p e)
        w1
        (fail_if-Ends _ (Kept w) (ends_early p e) (bad_request expire_before_publish) w1
          (λ o.
            bind-Ends Result (Kept w)
              (apply_attachment parse_uuid create input.attachment_file_id a.attachment_file)
              (with_file d p e) w1
              (imp-Ends _ _ (λ _ w'. w'.db ≡ w.db) (Kept w)
                (apply_attachment parse_uuid create input.attachment_file_id a.attachment_file w1)
                (attachment-Kept input.attachment_file_id a.attachment_file w1 k)
                (λ file w2 q. (q, (c.0, c.1, c.2, o))) (λ _ _ e. e)))
          (λ _. k))

  abbrev time_expiry : Announcement → Option ℕ → Announce Announcement
  time_expiry d p =
      apply_time (bad_request expire_at_invalid) create input.expire_at a.expire_at
      >>= check_order d p

  abbrev time_window : Announcement → Announce Announcement
  time_window d =
      apply_time (bad_request publish_at_invalid) create input.publish_at a.publish_at
      >>= time_expiry d

  time_window-Result :
      (d : Announcement) (w1 : World AnnouncementDb)
      → Core d
      → w1.db ≡ w.db
      → Ends Result (Kept w) (time_window d w1)
  time_window-Result d w1 c k =
      bind-Ends Result (Kept w)
        (apply_time (bad_request publish_at_invalid) create input.publish_at a.publish_at)
        (time_expiry d) w1
        (imp-Ends _ _ (λ _ w'. w'.db ≡ w.db) (Kept w)
          (apply_time (bad_request publish_at_invalid) create input.publish_at a.publish_at w1)
          (time-Kept (bad_request publish_at_invalid) input.publish_at a.publish_at w1 k)
          (λ p w2 q.
            bind-Ends Result (Kept w)
              (apply_time (bad_request expire_at_invalid) create input.expire_at a.expire_at)
              (check_order d p) w2
              (imp-Ends _ _ (λ _ w'. w'.db ≡ w.db) (Kept w)
                (apply_time (bad_request expire_at_invalid) create input.expire_at a.expire_at w2)
                (time-Kept (bad_request expire_at_invalid) input.expire_at a.expire_at w2 q)
                (λ e w3 r. check_order-Result d p e w3 c r) (λ _ _ e. e)))
          (λ _ _ e. e))

  abbrev set_audience : Announcement → Announce Announcement
  set_audience c =
      apply_audience parse_uuid create input.audience_type input.audience_value c >>= time_window

  set_audience-Result :
      (c : Announcement)
      → IsTitle c.title
      → is_empty (trim_space c.body) ≡ false
      → (create ≡ true) ⊎ HasValue c.audience_type c.audience_value
      → Ends Result (Kept w) (set_audience c w)
  set_audience-Result c t b v =
      bind-Ends Result (Kept w)
        (apply_audience parse_uuid create input.audience_type input.audience_value c) time_window w
        (imp-Ends _ _ (Aimed parse_uuid w c) (Kept w)
          (apply_audience parse_uuid create input.audience_type input.audience_value c w)
          (apply_audience-Aimed parse_uuid w create input.audience_type input.audience_value c w v
            refl)
          (λ d w1 q.
            time_window-Result d w1
              (subst IsTitle (sym q.2) t, ap (λ s. is_empty (trim_space s)) q.3 ∙ b, q.1) q.0)
          (λ _ _ e. e))

  abbrev set_body : Announcement → Announce Announcement
  set_body b = apply_body create input.body b >>= set_audience

  set_body-Result :
      (b : Announcement)
      → IsTitle b.title
      → (create ≡ true) ⊎ IsValid b
      → Ends Result (Kept w) (set_body b w)
  set_body-Result b t v =
      bind-Ends Result (Kept w) (apply_body create input.body b) set_audience w (
        imp-Ends _ _
          (λ c w'.
            (w' ≡ w) × (is_empty (trim_space c.body) ≡ false) × (c ≡ record b { body = c.body }))
          (Kept w) (apply_body create input.body b w)
          (apply_body-Ends create w input.body b (body_of v))
          (λ c w1 q.
            subst (λ w1. Ends Result (Kept w) (set_audience c w1)) (sym q.0)
              (set_audience-Result c (subst (λ c. IsTitle c.title) (sym q.2) t) q.1
                (value_of c v q.2)))
          (λ _ _ e. e))
    where
      body_of :
          (create ≡ true) ⊎ IsValid b → (create ≡ true) ⊎ (is_empty (trim_space b.body) ≡ false)
      body_of (inl e) = inl e
      body_of (inr v) = inr v.1

      value_of :
          (c : Announcement)
          → (create ≡ true) ⊎ IsValid b
          → c ≡ record b { body = c.body }
          → (create ≡ true) ⊎ HasValue c.audience_type c.audience_value
      value_of c (inl e) q = inl e
      value_of c (inr v) q =
          inr (subst (λ d. HasValue d.audience_type d.audience_value) (sym q) v.2)

  titled :
      (b : Announcement)
      → (create ≡ true) ⊎ IsValid a
      → IsTitle b.title
      → b ≡ record a { title = b.title }
      → (create ≡ true) ⊎ IsValid b
  titled b (inl e) t q = inl e
  titled b (inr v) t q = inr (subst IsValid (sym q) (t, v.1, v.2, v.3))

  title_of : (create ≡ true) ⊎ IsValid a → (create ≡ true) ⊎ IsTitle a.title
  title_of (inl e) = inl e
  title_of (inr v) = inr v.0

-- Applying a payload to a new announcement, or to one that is valid, does not panic and leaves the database as it is. Where it succeeds, the
-- announcement is valid: the title is trimmed and not empty, the body is not blank, it addresses everyone without a value or a block, floor or unit by a
-- value that is not empty, and it does not expire before it is published, or at that instant.
pub apply_input-IsValid :
    (parse_uuid : Text → Option ℕ) (create : Bool) (a : Announcement) (input : Input)
    (w : World AnnouncementDb)
    → (create ≡ true) ⊎ IsValid a
    → Ends (λ b w'. (w'.db ≡ w.db) × IsValid b) (Kept w) (apply_input parse_uuid a input create w)
unfolding apply_input
apply_input-IsValid parse_uuid create a input w v =
    bind-Ends (Result parse_uuid create a input w) (Kept w) (apply_title create input.title a)
      (set_body parse_uuid create a input w) w
      (imp-Ends _ _ (λ b w'. (w' ≡ w) × IsTitle b.title × (b ≡ record a { title = b.title }))
        (Kept w) (apply_title create input.title a w)
        (apply_title-Ends create w input.title a (title_of parse_uuid create a input w v))
        (λ b w1 q.
          subst
            (λ w1.
              Ends (Result parse_uuid create a input w) (Kept w)
                (set_body parse_uuid create a input w b w1))
            (sym q.0)
            (set_body-Result parse_uuid create a input w b q.1
              (titled parse_uuid create a input w b v q.1 q.2)))
        (λ _ _ e. e))
