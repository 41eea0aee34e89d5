-- ===== src/Building/NationalId/Detects.antt =====
-- What the checksum of a national ID tells apart (backend/internal/building/occupancy_service.go,
-- nationalIDValid).
use hamsa.Base.{
  ℕ, zero, suc, ◌+◌, ◌-◌, ◌*◌, ◌%◌, ◌≤◌, ◌≡◌, true, [], ◌∷◌, ◌++◌, Option, none, some, ◌⊎◌, inl,
  inr, arith, length,
}
use hamsa.Base.Text.{Text}
use hamsa.Building.NationalId.Checksum.{is_digit, digit, check_from, national_id_valid}

abbrev pub last : Text → Option ℕ
last [] = none
last (c ∷ []) = some c
last (c ∷ d ∷ ds) = last (d ∷ ds)

-- Two digits that weigh the same, each with a weight from 2 to 10, are one.
same_weight :
    (w t x y : ℕ) → 2 ≤ w → w ≤ 10 → x ≤ 9 → y ≤ 9 → (t + x * w) % 11 ≡ (t + y * w) % 11 → x ≡ y
same_weight zero t x y h k l m e = omega arith
same_weight (suc zero) t x y h k l m e = omega arith
same_weight (suc (suc zero)) t x y h k l m e = omega arith
same_weight (suc (suc (suc zero))) t x y h k l m e = omega arith
same_weight (suc (suc (suc (suc zero)))) t x y h k l m e = omega arith
same_weight (suc (suc (suc (suc (suc zero))))) t x y h k l m e = omega arith
same_weight (suc (suc (suc (suc (suc (suc zero)))))) t x y h k l m e = omega arith
same_weight (suc (suc (suc (suc (suc (suc (suc zero))))))) t x y h k l m e = omega arith
same_weight (suc (suc (suc (suc (suc (suc (suc (suc zero)))))))) t x y h k l m e = omega arith
same_weight (suc (suc (suc (suc (suc (suc (suc (suc (suc zero))))))))) t x y h k l m e = omega arith
same_weight (suc (suc (suc (suc (suc (suc (suc (suc (suc (suc zero)))))))))) t x y h k l m e =
    omega arith
same_weight (suc (suc (suc (suc (suc (suc (suc (suc (suc (suc (suc w))))))))))) t x y h k l m e =
    omega arith

cancel : (s t x : ℕ) → (s + x) % 11 ≡ (t + x) % 11 → s % 11 ≡ t % 11
cancel s t x e = omega arith

-- One rest accepted after two sums: they leave one remainder, or the ID ends in 1.
same_remainder :
    (w s t : ℕ) (ds : Text)
    → check_from w s ds ≡ true
    → check_from w t ds ≡ true
    → (s % 11 ≡ t % 11) ⊎ (last ds ≡ some b'1')
same_remainder w s t [] h k = ground arith
same_remainder w s t (c ∷ []) h k = ground arith
same_remainder w s t (c ∷ d ∷ ds) h k =
    elim (same_remainder (w - 1) (s + digit c * w) (t + digit c * w) (d ∷ ds) (ground arith)
      (ground arith)) [ inl e ↦ inl (cancel s t (digit c * w) e) | inr e ↦ inr e ]

same_digit : (c d : ℕ) → is_digit c ≡ true → is_digit d ≡ true → digit c ≡ digit d → c ≡ d
same_digit c d h k e = ground arith

-- One of the nine weighted digits, with the rest behind it.
digit_changed :
    (w t c d e : ℕ) (es : Text)
    → 2 ≤ w
    → w ≤ 10
    → check_from w t (c ∷ e ∷ es) ≡ true
    → check_from w t (d ∷ e ∷ es) ≡ true
    → (c ≡ d) ⊎ (last (e ∷ es) ≡ some b'1')
digit_changed w t c d e es l m h k =
    elim (same_remainder (w - 1) (t + digit c * w) (t + digit d * w) (e ∷ es) (ground arith)
      (ground arith)) [
        | inr f ↦ inr f
        | inl f ↦ inl (
            same_digit c d (ground arith) (ground arith)
              (same_weight w t (digit c) (digit d) l m (ground arith) (ground arith) f))
      ]

last_changed :
    (w t c d : ℕ) → check_from w t (c ∷ []) ≡ true → check_from w t (d ∷ []) ≡ true → c ≡ d
last_changed w t c d h k = ground arith

detects_from :
    (pre post : Text) (w t c d : ℕ)
    → length (pre ++ c ∷ post) ≡ w
    → w ≤ 10
    → check_from w t (pre ++ c ∷ post) ≡ true
    → check_from w t (pre ++ d ∷ post) ≡ true
    → (c ≡ d) ⊎ (last (pre ++ c ∷ post) ≡ some b'1')
detects_from [] [] w t c d n m h k = inl (last_changed w t c d h k)
detects_from [] (e ∷ es) w t c d n m h k = digit_changed w t c d e es (omega arith) m h k
detects_from (x ∷ []) post w t c d n m h k =
    detects_from [] post (w - 1) (t + digit x * w) c d (omega arith) (omega arith) (ground arith)
      (ground arith)
detects_from (x ∷ y ∷ pre) post w t c d n m h k =
    detects_from (y ∷ pre) post (w - 1) (t + digit x * w) c d (omega arith) (omega arith)
      (ground arith) (ground arith)

checked : (id : Text) → national_id_valid id ≡ true → (length id ≡ 10) × (check_from 10 0 id ≡ true)
unfolding national_id_valid
checked id h = ground arith

-- Of two valid national IDs that differ in one code point, the first ends in 1: in an ID with another check digit the
-- checksum detects every change of one digit, also of the check digit itself.
pub national_id_valid-detects :
    (pre post : Text) (c d : ℕ)
    → national_id_valid (pre ++ c ∷ post) ≡ true
    → national_id_valid (pre ++ d ∷ post) ≡ true
    → (c ≡ d) ⊎ (last (pre ++ c ∷ post) ≡ some b'1')
national_id_valid-detects pre post c d h k =
    let p = checked (pre ++ c ∷ post) h in
    let q = checked (pre ++ d ∷ post) k in detects_from pre post 10 0 c d p.0 (omega arith) p.1 q.1
