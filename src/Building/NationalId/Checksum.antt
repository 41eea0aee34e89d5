-- ===== src/Building/NationalId/Checksum.antt =====
-- The checksum of a national ID (backend/internal/building/occupancy_service.go, nationalIDValid).
-- The code reads bytes and this reads code points; they differ only outside ASCII, where either
-- meets something that is no digit.
use hamsa.Base.{
  ℕ, ◌+◌, ◌-◌, ◌*◌, ◌%◌, Bool, true, false, ◌&&◌, ◌||◌, not, [], ◌∷◌, length, leb, ltb, ◌==◌,
  if◌then◌else◌,
}
use hamsa.Base.Text.{Text}

abbrev pub is_digit : ℕ → Bool
is_digit c = leb b'0' c && leb c b'9'

abbrev pub digit : ℕ → ℕ
digit c = c - b'0'

-- Every later code point is the first one.
abbrev all_same : ℕ → Text → Bool
all_same c [] = true
all_same c (d ∷ ds) = if d == c then all_same c ds else false

-- The loop over the nine digits with the weights 10 to 2, from the sum so far; then the last digit.
abbrev pub check_from : ℕ → ℕ → Text → Bool
check_from weight total [] = false
check_from weight total (c ∷ []) =
    let r = total % 11 in
    is_digit c && ((ltb r 2 && digit c == r) || (leb 2 r && digit c == 11 - r))
check_from weight total (c ∷ d ∷ ds) =
    if is_digit c then check_from (weight - 1) (total + digit c * weight) (d ∷ ds) else false

abbrev same_digits : Text → Bool
same_digits [] = true
same_digits (c ∷ cs) = all_same c cs

unfoldable pub national_id_valid : Text → Bool
national_id_valid id = length id == 10 && not (same_digits id) && check_from 10 0 id
