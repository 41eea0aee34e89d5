-- ===== src/Announcement/Floors.antt =====
-- Announcements for a floor (backend/internal/announcement/service.go, applyInput, and repository.go,
-- isVisible): the floor is stored as the canonical text of a number.
use hamsa.Base.{
  ℕ, ◌≡◌, refl, sym, ap, ◌∙◌, Bool, true, false, ◌&&◌, List, [], ◌∷◌, Option, none, some, All, leb,
  ltb, exists, arith, inl, inr, Bool-cases, ◌==◌,
}
use hamsa.Base.Int.{ℤ, eqb_ℤ}
use hamsa.Base.Decimal.{print_int, scan_int}
use hamsa.Base.Decimal.RoundTrip.{
  FitsInt, scan_int-FitsInt, print_int_injective, text_eq_iff, text_eq_refl,
}
use hamsa.Base.Text.{Text, text_eq}
use hamsa.Server.{World}
use hamsa.Server.Rules.{Ends}
use hamsa.Announcement.Model.{AnnouncementDb, Announcement, UnitInfo, audience_floor}
use hamsa.Announcement.Repository.{is_visible, has_floor, has_building, in_window, sees}
use hamsa.Announcement.Input.{check_value}

eqb_iff : (x y : ℤ) → eqb_ℤ x y ≡ true → x ≡ y
eqb_iff x y h = ground arith

eqb_refl : (x : ℤ) → eqb_ℤ x x ≡ true
eqb_refl x = ground arith

same_text : (f z : ℤ) → FitsInt f → FitsInt z → text_eq (print_int f) (print_int z) ≡ eqb_ℤ f z
same_text f z h k = elim (Bool-cases (text_eq (print_int f) (print_int z))) [
  | inl e ↦
      let p = print_int_injective f z h k (text_eq_iff (print_int f) (print_int z) e) in
      e ∙ sym (eqb_refl z) ∙ ap (λ x. eqb_ℤ x z) (sym p)
  | inr e ↦ elim (Bool-cases (eqb_ℤ f z)) [
    | inl q ↦
        let r = ap (λ x. text_eq (print_int x) (print_int z)) (eqb_iff f z q) in
        let t = text_eq_refl (print_int z) in absurd (false_true (sym e ∙ r ∙ t))
    | inr q ↦ e ∙ sym q
  ]
]
  where
    false_true : false ≡ true → ⊥
    false_true p = ground arith

-- Floors as ints.
abbrev pub Floors : List UnitInfo → Type 0
Floors units = All (λ u. FitsInt u.floor) units

-- A unit of the building on the floor.
abbrev pub on_floor : ℕ → ℤ → List UnitInfo → Bool
on_floor building_id z units = exists (λ u. u.building_id == building_id && eqb_ℤ u.floor z) units

has_floor-on_floor :
    (units : List UnitInfo) (b : ℕ) (z : ℤ)
    → Floors units
    → FitsInt z
    → has_floor units b (print_int z) ≡ on_floor b z units
has_floor-on_floor [] b z h k = refl
has_floor-on_floor (u ∷ us) b z h k =
    ground (arith, same_text u.floor z h.0 k, has_floor-on_floor us b z h.1 k)

-- The announcement is published, and not expired.
abbrev pub shown : Option ℕ → Option ℕ → ℕ → Bool
shown none none now = true
shown none (some e) now = ltb now e
shown (some p) none now = leb p now
shown (some p) (some e) now = leb p now && ltb now e

in_window-shown :
    (a : Announcement) (now : ℕ) → in_window a now ≡ shown a.publish_at a.expire_at now
unfolding in_window
in_window-shown a now = ground arith

on_floor-has_building :
    (units : List UnitInfo) (b : ℕ) (z : ℤ)
    → (has_building units b && on_floor b z units) ≡ on_floor b z units
on_floor-has_building [] b z = refl
on_floor-has_building (u ∷ us) b z = ground (arith, on_floor-has_building us b z)

seen :
    (a : Announcement) (now : ℕ) (z : ℤ) (units : List UnitInfo)
    → (in_window a now && has_building units a.building_id && on_floor a.building_id z units)
      ≡ (shown a.publish_at a.expire_at now && on_floor a.building_id z units)
seen a now z units =
    ground (arith, in_window-shown a now, on_floor-has_building units a.building_id z)

-- A value that Sscanf reads as the number z is accepted for a floor, whichever way it is written (with zeros in front, a plus sign,
-- or more text behind it), and the announcement that carries what is stored for it is seen at a time by a resident whose
-- floors are ints exactly when it is published by then and not expired, and they have a unit on floor z of its building.
pub floor_audience-sees :
    (parse_uuid : Text → Option ℕ) (a : Announcement) (v : Text) (z : ℤ) (units : List UnitInfo)
    (now : ℕ) (w : World AnnouncementDb)
    → scan_int v ≡ some z
    → Floors units
    → Ends
        (λ t w'.
          (w' ≡ w)
          × (sees parse_uuid units now
                (record a { audience_type = audience_floor; audience_value = some t })
              ≡ (shown a.publish_at a.expire_at now && on_floor a.building_id z units)))
        (λ _ _. ⊥)
        (check_value parse_uuid audience_floor a.building_id v w)
unfolding check_value sees is_visible
floor_audience-sees parse_uuid a v z units now w s h = rw s (
  refl,
  ap (λ e. in_window a now && has_building units a.building_id && e)
        (has_floor-on_floor units a.building_id z h (scan_int-FitsInt v z s))
      ∙ seen a now z units,
)
