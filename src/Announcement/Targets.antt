-- ===== src/Announcement/Targets.antt =====
-- Who is notified and who sees an announcement (backend/internal/announcement/repository.go,
-- TargetUserIDs and IsVisible).
use hamsa.Base.{
  ℕ, ◌≡◌, refl, sym, ap, ◌∙◌, Bool, true, false, ◌&&◌, not, List, [], ◌∷◌, Option, none, some,
  exists, keep, map, is_empty, arith, ◌==◌,
}
use hamsa.Base.Decimal.{print_int}
use hamsa.Base.Text.{Text, text_eq}
use hamsa.Building.Model.{BuildingUnit, User}
use hamsa.Building.Repository.{is_live}
use hamsa.Announcement.Model.{
  AnnouncementDb, Announcement, UnitInfo, Audience, audience_all, audience_block, audience_floor,
  audience_unit,
}
use hamsa.Announcement.Repository.{
  lives_in, unit_info, units_of_phone, in_window, is_visible, has_building, has_unit, sees,
  audience_matches, is_block,
}
use hamsa.Announcement.Reads.{is_target, audience_row, unit_is, block_is}

exists-unit_info :
    (p : UnitInfo → Bool) (q : BuildingUnit → Bool) (us : List BuildingUnit)
    → exists p (map unit_info (keep q us)) ≡ exists (λ u. q u && p (unit_info u)) us
exists-unit_info p q [] = refl
exists-unit_info p q (u ∷ us) = ground (arith, exists-unit_info p q us)

module _ (l b : BuildingUnit → Bool) where
  -- Who reaches a row with the test reaches the building.
  absorb :
      (t : BuildingUnit → Bool) (us : List BuildingUnit)
      → (exists (λ u. l u && b u) us && exists (λ u. l u && b u && t u) us)
        ≡ exists (λ u. l u && b u && t u) us
  absorb t [] = refl
  absorb t (u ∷ us) = ground (arith, absorb t us)

  regroup :
      (s t : BuildingUnit → Bool) (us : List BuildingUnit)
      → ((u : BuildingUnit) → s u ≡ t u)
      → exists (λ u. l u && (b u && s u)) us ≡ exists (λ u. l u && b u && t u) us
  regroup s t [] h = refl
  regroup s t (u ∷ us) h = ground (arith, h u, regroup s t us h)

  reach :
      (s t : BuildingUnit → Bool) (us : List BuildingUnit)
      → ((u : BuildingUnit) → s u ≡ t u)
      → (exists (λ u. l u && b u) us && exists (λ u. l u && (b u && s u)) us)
        ≡ exists (λ u. l u && b u && t u) us
  reach s t us h = ap (λ e. exists (λ u. l u && b u) us && e) (regroup s t us h) ∙ absorb t us

  reach_all :
      (us : List BuildingUnit)
      → (exists (λ u. l u && b u) us && true) ≡ exists (λ u. l u && b u && true) us
  reach_all [] = refl
  reach_all (u ∷ us) = ground (arith, reach_all us)

  reach_none :
      (us : List BuildingUnit)
      → (exists (λ u. l u && b u) us && false) ≡ exists (λ u. l u && b u && false) us
  reach_none [] = refl
  reach_none (u ∷ us) = ground (arith, reach_none us)

  -- A test that holds in the building only.
  narrow :
      (t : BuildingUnit → Bool) (us : List BuildingUnit)
      → exists (λ u. t u && not (b u)) us ≡ false
      → exists (λ u. l u && t u) us ≡ exists (λ u. l u && b u && t u) us
  narrow t [] h = refl
  narrow t (u ∷ us) h = ground (arith, narrow t us)

  reach_unit :
      (t : BuildingUnit → Bool) (us : List BuildingUnit)
      → exists (λ u. t u && not (b u)) us ≡ false
      → (exists (λ u. l u && b u) us && exists (λ u. l u && t u) us)
        ≡ exists (λ u. l u && b u && t u) us
  reach_unit t us h = ap (λ e. exists (λ u. l u && b u) us && e) (narrow t us h) ∙ absorb t us

block_alike : (v : Text) (o : Option Text) → is_empty v ≡ false → is_block v o ≡ block_is v o
block_alike v none h = ground arith
block_alike [] (some b) h = ground arith
block_alike (x ∷ v) (some []) h = ground arith
block_alike (x ∷ v) (some (y ∷ b)) h = ground arith

module _ (parse_uuid : Text → Option ℕ) where
  -- A block is named by a text that is not empty, and a unit is one of the building.
  abbrev Addressed : AnnouncementDb → Announcement → Audience → Option Text → Type 0
  Addressed db a audience_block (some v) = is_empty v ≡ false
  Addressed db a audience_unit (some v) =
      exists (λ u. unit_is u.id (parse_uuid v) && not (u.building_id == a.building_id)) db.units
      ≡ false
  Addressed db a _ _ = Unit

  module _ (a : Announcement) (db : AnnouncementDb) (user : User) where
    abbrev units : List UnitInfo
    units = units_of_phone user.phone db

    abbrev lives : BuildingUnit → Bool
    lives = lives_in user.phone db

    abbrev at_building : BuildingUnit → Bool
    at_building u = u.building_id == a.building_id

    info :
        (p : UnitInfo → Bool) → exists p units ≡ exists (λ u. lives u && p (unit_info u)) db.units
    info p = exists-unit_info p lives db.units

    abbrev Reached : Audience → Option Text → Type 0
    Reached t v =
        (has_building units a.building_id && audience_matches parse_uuid a units t v)
        ≡ exists (λ u. lives u && at_building u && audience_row parse_uuid t v u) db.units

    has_unit_info :
        (o : Option ℕ) → has_unit units o ≡ exists (λ u. lives u && unit_is u.id o) db.units
    has_unit_info none = sym (never db.units)
      where
        never : (us : List BuildingUnit) → exists (λ u. lives u && false) us ≡ false
        never [] = refl
        never (u ∷ us) = ground (arith, never us)
    has_unit_info (some id) = info (λ u. u.id == id)

    reaches : (t : Audience) (v : Option Text) → Addressed db a t v → Reached t v
    reaches audience_all v h =
        ap (λ x. x && true) (info (λ u. u.building_id == a.building_id))
        ∙ reach_all lives at_building db.units
    reaches audience_block (some v) h =
        (λ i.
          info (λ u. u.building_id == a.building_id) i
          && info (λ u. u.building_id == a.building_id && is_block v u.block) i)
        ∙ reach lives at_building (λ u. is_block v u.block) (λ u. block_is v u.block) db.units
            (λ u. block_alike v u.block h)
    reaches audience_floor (some v) h =
        (λ i.
          info (λ u. u.building_id == a.building_id) i
          && info (λ u. u.building_id == a.building_id && text_eq (print_int u.floor) v) i)
        ∙ reach lives at_building (λ u. text_eq (print_int u.floor) v)
            (λ u. text_eq (print_int u.floor) v) db.units (λ u. refl)
    reaches audience_unit (some v) h =
        (λ i. info (λ u. u.building_id == a.building_id) i && has_unit_info (parse_uuid v) i)
        ∙ reach_unit lives at_building (λ u. unit_is u.id (parse_uuid v)) db.units h
    reaches audience_block none h =
        ap (λ x. x && false) (info (λ u. u.building_id == a.building_id))
        ∙ reach_none lives at_building db.units
    reaches audience_floor none h =
        ap (λ x. x && false) (info (λ u. u.building_id == a.building_id))
        ∙ reach_none lives at_building db.units
    reaches audience_unit none h =
        ap (λ x. x && false) (info (λ u. u.building_id == a.building_id))
        ∙ reach_none lives at_building db.units

-- The two ways to select the audience agree. Where an announcement is in its window, a block it is addressed to is named by
-- a text that is not empty, and a unit that it is addressed to lies in its building, a user is among those who are
-- notified exactly when the account is active and not deleted and the user, by the units of their phone, sees it.
pub is_target-sees :
    (parse_uuid : Text → Option ℕ) (a : Announcement) (db : AnnouncementDb) (user : User) (now : ℕ)
    → Addressed parse_uuid db a a.audience_type a.audience_value
    → in_window a now ≡ true
    → is_target parse_uuid a db user ≡ (
        is_live user.deleted_at
        && user.is_active
        && sees parse_uuid (units_of_phone user.phone db) now a)
unfolding is_target sees is_visible
is_target-sees parse_uuid a db user now h w =
    let e = reaches parse_uuid a db user a.audience_type a.audience_value h in
    rw w (ap (λ x. is_live user.deleted_at && user.is_active && x) (sym e))
