-- ===== src/Announcement/Input.antt =====
-- The payload of an announcement (backend/internal/announcement/service.go, applyInput). uuid.Parse is
-- a parameter, and a time is what TrimSpace and time.Parse make of its text.
use hamsa.Base.{
  ℕ, ◌+◌, Bool, true, false, ◌&&◌, ◌||◌, not, [], ◌∷◌, Option, none, some, exists, length, is_empty,
  ltb, ◌==◌, if◌then◌else◌,
}
use hamsa.Base.Int.{ℤ}
use hamsa.Base.Decimal.{print_int, scan_int}
use hamsa.Base.Text.{Text, trim_space}
use hamsa.Server.{
  ApiError, bad_request, record_not_found, title_required, body_required, announcement_title_long,
  audience_invalid, audience_all_no_value, audience_value_required, audience_value_invalid,
  audience_unit_not_found, block_too_long, publish_at_invalid, expire_at_invalid,
  expire_before_publish, attachment_invalid, attachment_not_found, pure, fail, fail_if, ◌>>=◌, ◌>>◌,
  query, map_error,
}
use hamsa.Building.Repository.{is_live}
use hamsa.Announcement.Model.{
  Announce, AnnouncementDb, Announcement, Audience, audience_all, audience_block, audience_floor,
  audience_unit, parse_audience,
}
use hamsa.Announcement.Repository.{attachment_path}

pub data TimeInput : Type 0 where
  clear not_a_time : TimeInput
  instant : ℕ → TimeInput

pub record Input : Type 0 where
  pub title : Text
  pub body : Text
  pub audience_type : Text
  pub audience_value : Option Text
  pub publish_at : Option TimeInput
  pub expire_at : Option TimeInput
  pub attachment_file_id : Option Text

-- A part is required on creation, and read on an update where it is not empty.
abbrev is_given : Bool → Text → Bool
is_given create s = create || not (is_empty s)

unfoldable pub apply_title : Bool → Text → Announcement → Announce Announcement
apply_title create s a = elim (is_given create s) [
  | false ↦ pure a
  | true ↦
      fail_if (is_empty (trim_space s)) (bad_request title_required)
      >> (fail_if (ltb 200 (length s)) (bad_request announcement_title_long)
          >> pure (record a { title = trim_space s }))
]

unfoldable pub apply_body : Bool → Text → Announcement → Announce Announcement
apply_body create s a = elim (is_given create s) [
  | false ↦ pure a
  | true ↦
      fail_if (is_empty (trim_space s)) (bad_request body_required) >> pure (record a { body = s })
]

-- The bytes of a text in UTF-8.
abbrev utf8_length : Text → ℕ
utf8_length [] = 0
utf8_length (c ∷ cs) =
    (if ltb c 0x80 then 1 else if ltb c 0x800 then 2 else if ltb c 0x10000 then 3 else 4)
    + utf8_length cs

-- An empty value counts as none.
abbrev pub trim_value : Option Text → Option Text
trim_value none = none
trim_value (some s) = let v = trim_space s in if is_empty v then none else some v

abbrev pub floor_text : Option ℤ → Announce Text
floor_text none = fail (bad_request audience_value_invalid)
floor_text (some n) = pure (print_int n)

-- The times, each kept on an update that does not name it.

abbrev read_time : ApiError → TimeInput → Announce (Option ℕ)
read_time e clear = pure none
read_time e not_a_time = fail e
read_time e (instant t) = pure (some t)

unfoldable pub apply_time : ApiError → Bool → Option TimeInput → Option ℕ → Announce (Option ℕ)
apply_time e create none old = pure (if create then none else old)
apply_time e create (some t) old = read_time e t

abbrev pub ends_early : Option ℕ → Option ℕ → Bool
ends_early (some p) (some e) = not (ltb p e)
ends_early _ _ = false

abbrev attachment_error : ApiError → ApiError
attachment_error record_not_found = bad_request attachment_not_found
attachment_error e = e

module _ (parse_uuid : Text → Option ℕ) where
  abbrev unit_known : ℕ → ℕ → AnnouncementDb → Bool
  unit_known id building_id db =
      exists (λ u. u.id == id && u.building_id == building_id && is_live u.deleted_at) db.units

  unfoldable pub check_unit : ℕ → Text → Option ℕ → Announce Text
  check_unit building_id v none = fail (bad_request audience_value_invalid)
  check_unit building_id v (some id) = do
    known ← query (unit_known id building_id)
    fail_if (not known) (bad_request audience_unit_not_found)
    pure v

  -- The value of an audience that is not everyone.
  unfoldable pub check_value : Audience → ℕ → Text → Announce Text
  unfolding check_unit
  check_value audience_all building_id v = pure v
  check_value audience_block building_id v =
      fail_if (ltb 20 (utf8_length v)) (bad_request block_too_long) >> pure v
  check_value audience_floor building_id v = floor_text (scan_int v)
  check_value audience_unit building_id v = check_unit building_id v (parse_uuid v)

  unfoldable pub audience_value_of : Audience → ℕ → Option Text → Announce (Option Text)
  unfolding check_value
  audience_value_of audience_all building_id none = pure none
  audience_value_of audience_all building_id (some v) = fail (bad_request audience_all_no_value)
  audience_value_of t building_id none = fail (bad_request audience_value_required)
  audience_value_of t building_id (some v) = check_value t building_id v >>= λ w. pure (some w)

  abbrev pub named_audience : Option Audience → Announce Audience
  named_audience none = fail (bad_request audience_invalid)
  named_audience (some t) = pure t

  unfoldable pub apply_audience : Bool → Text → Option Text → Announcement → Announce Announcement
  unfolding audience_value_of
  apply_audience create s value a = elim (is_given create s) [
    | true ↦ named_audience (parse_audience s) >>= λ t.
        audience_value_of t a.building_id (trim_value value) >>= λ v.
        pure (record a { audience_type = t; audience_value = v })
    | false ↦ elim value [ none ↦ pure a | some v ↦ fail (bad_request audience_invalid) ]
  ]

  unfoldable pub bind_attachment : Option ℕ → Announce Text
  unfolding attachment_path
  bind_attachment none = fail (bad_request attachment_invalid)
  bind_attachment (some id) = map_error attachment_error (attachment_path id)

  unfoldable pub apply_attachment : Bool → Option Text → Option Text → Announce (Option Text)
  unfolding bind_attachment
  apply_attachment create none old = pure (if create then none else old)
  apply_attachment create (some s) old = elim (trim_space s) [
    | [] ↦ pure none
    | c ∷ cs ↦ bind_attachment (parse_uuid (c ∷ cs)) >>= λ path. pure (some path)
  ]

  unfoldable pub apply_input : Announcement → Input → Bool → Announce Announcement
  unfolding apply_title apply_body apply_audience apply_time apply_attachment
  apply_input a input create = do
    b ← apply_title create input.title a
    c ← apply_body create input.body b
    d ← apply_audience create input.audience_type input.audience_value c
    publish_at ← apply_time (bad_request publish_at_invalid) create input.publish_at a.publish_at
    expire_at ← apply_time (bad_request expire_at_invalid) create input.expire_at a.expire_at
    fail_if (ends_early publish_at expire_at) (bad_request expire_before_publish)
    file ← apply_attachment create input.attachment_file_id a.attachment_file
    pure (record d { publish_at = publish_at; expire_at = expire_at; attachment_file = file })
