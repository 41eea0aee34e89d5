-- ===== src/Announcement/Validity.antt =====
-- What a payload makes of an announcement (backend/internal/announcement/service.go, applyInput).
use hamsa.Base.{
  ℕ, ◌≡◌, refl, Bool, true, false, ◌≢◌, ◌⊎◌, inl, inr, [], ◌∷◌, Option, none, some, is_empty, arith,
}
use hamsa.Base.Int.{ℤ}
use hamsa.Base.Decimal.{print_int, scan_int}
use hamsa.Base.Text.{Text, trim_space}
use hamsa.Base.Trimming.{trim_space-trim_space}
use hamsa.Server.{
  World, ApiError, bad_request, publish_at_invalid, expire_at_invalid, expire_before_publish, pure,
  fail_if, ◌>>=◌, ◌>>◌,
}
use hamsa.Server.Rules.{Ends, bind-Ends, imp-Ends}
use hamsa.Announcement.Model.{
  Announce, AnnouncementDb, Announcement, Audience, audience_all, audience_block, audience_floor,
  audience_unit, parse_audience,
}
use hamsa.Announcement.Input.{
  apply_title, apply_body, apply_audience, ends_early, check_unit, floor_text, audience_value_of,
  check_value, trim_value, named_audience,
}

-- Everyone is addressed without a value, and a block, floor or unit by one that is not empty.
abbrev pub HasValue : Audience → Option Text → Type 0
HasValue audience_all none = Unit
HasValue audience_all (some v) = ⊥
HasValue _ none = ⊥
HasValue _ (some v) = is_empty v ≡ false

-- The title is trimmed and not empty, so that it is not blank.
abbrev pub IsTitle : Text → Type 0
IsTitle t = (trim_space t ≡ t) × (is_empty t ≡ false)

-- The body is not blank either, the audience has the value it needs, and it expires after it is
-- published.
abbrev pub IsValid : Announcement → Type 0
IsValid a =
    IsTitle a.title
    × (is_empty (trim_space a.body) ≡ false)
    × HasValue a.audience_type a.audience_value
    × (ends_early a.publish_at a.expire_at ≡ false)

abbrev pub Kept : World AnnouncementDb → ApiError → World AnnouncementDb → Type 0
Kept w e w' = w'.db ≡ w.db

module _ (create : Bool) (w : World AnnouncementDb) where
  pub apply_title-Ends :
      (s : Text) (a : Announcement)
      → (create ≡ true) ⊎ IsTitle a.title
      → Ends
          (λ b w'. (w' ≡ w) × IsTitle b.title × (b ≡ record a { title = b.title }))
          (Kept w)
          (apply_title create s a w)
  unfolding apply_title
  apply_title-Ends s a h = ground (arith, trim_space-trim_space s)

  pub apply_body-Ends :
      (s : Text) (a : Announcement)
      → (create ≡ true) ⊎ (is_empty (trim_space a.body) ≡ false)
      → Ends
          (λ b w'.
            (w' ≡ w) × (is_empty (trim_space b.body) ≡ false) × (b ≡ record a { body = b.body }))
          (Kept w)
          (apply_body create s a w)
  unfolding apply_body
  apply_body-Ends s a h = ground arith

print_int-filled : (z : ℤ) → is_empty (print_int z) ≡ false
unfolding print_int
print_int-filled z = ground arith

trim_value-filled : (o : Option Text) (v : Text) → trim_value o ≡ some v → is_empty v ≡ false
trim_value-filled none v h = ground arith
trim_value-filled (some s) v h = ground arith

module _ (parse_uuid : Text → Option ℕ) (w : World AnnouncementDb) where
  abbrev Filled : Text → World AnnouncementDb → Type 0
  Filled t w' = (w'.db ≡ w.db) × (is_empty t ≡ false)

  check_unit-Filled :
      (b : ℕ) (v : Text) (o : Option ℕ) (w1 : World AnnouncementDb)
      → is_empty v ≡ false
      → w1.db ≡ w.db
      → Ends Filled (Kept w) (check_unit parse_uuid b v o w1)
  unfolding check_unit hamsa.Server.Monad.query
  check_unit-Filled b v o w1 h d = ground arith

  floor_text-Filled :
      (o : Option ℤ) (w1 : World AnnouncementDb)
      → w1.db ≡ w.db
      → Ends Filled (Kept w) (floor_text o w1)
  floor_text-Filled none w1 d = d
  floor_text-Filled (some z) w1 d = (d, print_int-filled z)

  check_value-Filled :
      (t : Audience) (b : ℕ) (v : Text) (w1 : World AnnouncementDb)
      → is_empty v ≡ false
      → w1.db ≡ w.db
      → Ends Filled (Kept w) (check_value parse_uuid t b v w1)
  unfolding check_value
  check_value-Filled audience_all b v w1 h d = (d, h)
  check_value-Filled audience_block b v w1 h d = ground arith
  check_value-Filled audience_floor b v w1 h d = floor_text-Filled (scan_int v) w1 d
  check_value-Filled audience_unit b v w1 h d = check_unit-Filled b v (parse_uuid v) w1 h d

  abbrev WithValue : Audience → Option Text → World AnnouncementDb → Type 0
  WithValue t v w' = (w'.db ≡ w.db) × HasValue t v

  filled_value :
      (t : Audience) (b : ℕ) (v : Text) (w1 : World AnnouncementDb)
      → t ≢ audience_all
      → is_empty v ≡ false
      → w1.db ≡ w.db
      → Ends (WithValue t) (Kept w) ((check_value parse_uuid t b v >>= λ x. pure (some x)) w1)
  filled_value t b v w1 n h d =
      bind-Ends (WithValue t) (Kept w) (check_value parse_uuid t b v) (λ x. pure (some x)) w1
        (imp-Ends _ _ Filled (Kept w) (check_value parse_uuid t b v w1)
          (check_value-Filled t b v w1 h d) (λ x w' q. (q.0, valued t x n q.1)) (λ _ _ e. e))
    where
      valued :
          (t : Audience) (x : Text) → t ≢ audience_all → is_empty x ≡ false → HasValue t (some x)
      valued audience_all x n h = n refl
      valued audience_block x n h = h
      valued audience_floor x n h = h
      valued audience_unit x n h = h

  audience_value_of-WithValue :
      (t : Audience) (b : ℕ) (o : Option Text) (w1 : World AnnouncementDb)
      → ((v : Text) → o ≡ some v → is_empty v ≡ false)
      → w1.db ≡ w.db
      → Ends (WithValue t) (Kept w) (audience_value_of parse_uuid t b o w1)
  unfolding audience_value_of
  audience_value_of-WithValue audience_all b none w1 h d = (d, tt)
  audience_value_of-WithValue audience_all b (some v) w1 h d = d
  audience_value_of-WithValue audience_block b none w1 h d = d
  audience_value_of-WithValue audience_floor b none w1 h d = d
  audience_value_of-WithValue audience_unit b none w1 h d = d
  audience_value_of-WithValue audience_block b (some v) w1 h d =
      filled_value audience_block b v w1 (λ p. ground arith) (h v refl) d
  audience_value_of-WithValue audience_floor b (some v) w1 h d =
      filled_value audience_floor b v w1 (λ p. ground arith) (h v refl) d
  audience_value_of-WithValue audience_unit b (some v) w1 h d =
      filled_value audience_unit b v w1 (λ p. ground arith) (h v refl) d

  -- The audience is set; the title and the body are those of before.
  abbrev pub Aimed : Announcement → Announcement → World AnnouncementDb → Type 0
  Aimed a b w' =
      (w'.db ≡ w.db)
      × HasValue b.audience_type b.audience_value
      × (b.title ≡ a.title)
      × (b.body ≡ a.body)

  abbrev aim : Option Text → Announcement → Audience → Announce Announcement
  aim value a t = audience_value_of parse_uuid t a.building_id (trim_value value) >>= λ v.
      pure (record a { audience_type = t; audience_value = v })

  name_audience :
      (value : Option Text) (a : Announcement) (o : Option Audience) (w1 : World AnnouncementDb)
      → w1.db ≡ w.db
      → Ends (Aimed a) (Kept w) ((named_audience parse_uuid o >>= aim value a) w1)
  name_audience value a none w1 d = d
  name_audience value a (some t) w1 d =
      bind-Ends (Aimed a) (Kept w) (audience_value_of parse_uuid t a.building_id (trim_value value))
        (λ v. pure (record a { audience_type = t; audience_value = v })) w1
        (imp-Ends _ _ (WithValue t) (Kept w)
          (audience_value_of parse_uuid t a.building_id (trim_value value) w1)
          (audience_value_of-WithValue t a.building_id (trim_value value) w1
            (trim_value-filled value) d)
          (λ v w' q. (q.0, q.1, refl, refl)) (λ _ _ e. e))

  pub apply_audience-Aimed :
      (create : Bool) (s : Text) (value : Option Text) (a : Announcement)
      (w1 : World AnnouncementDb)
      → (create ≡ true) ⊎ HasValue a.audience_type a.audience_value
      → w1.db ≡ w.db
      → Ends (Aimed a) (Kept w) (apply_audience parse_uuid create s value a w1)
  unfolding apply_audience
  apply_audience-Aimed true s value a w1 h d = name_audience value a (parse_audience s) w1 d
  apply_audience-Aimed false (c ∷ cs) value a w1 h d =
      name_audience value a (parse_audience (c ∷ cs)) w1 d
  apply_audience-Aimed false [] (some v) a w1 h d = d
  apply_audience-Aimed false [] none a w1 (inr h) d = (d, h, refl, refl)
  apply_audience-Aimed false [] none a w1 (inl h) d = ground arith
