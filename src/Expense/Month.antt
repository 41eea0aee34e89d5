-- ===== src/Expense/Month.antt =====
-- The month of a report (backend/internal/expense/service.go, parseMonth, and repository.go,
-- monthWindow). A day is counted from the first day of the year 0.
use hamsa.Base.{
  ℕ, zero, suc, ◌+◌, ◌-◌, ◌*◌, ◌/◌, ◌%◌, Bool, ◌&&◌, ◌||◌, not, [], ◌∷◌, Option, none, some, leb,
  ◌==◌, if◌then◌else◌,
}
use hamsa.Base.Text.{Text}

abbrev is_decimal : ℕ → Bool
is_decimal c = leb b'0' c && leb c b'9'

-- Digits to the end of the text, after the number so far.
abbrev pub read_all : ℕ → Text → Option ℕ
read_all acc [] = some acc
read_all acc (c ∷ cs) =
    let rest = read_all (acc * 10 + (c - b'0')) cs in if is_decimal c then rest else none

-- `strconv.Atoi` of two or four characters, where the number is at least 1: a plus sign may stand in
-- front, and what has a minus sign is less.
abbrev pub positive : Option ℕ → Option ℕ
positive none = none
positive (some zero) = none
positive (some (suc n)) = some (suc n)

abbrev pub unsigned : Text → Option ℕ
unsigned [] = none
unsigned (c ∷ cs) = positive (read_all 0 (c ∷ cs))

abbrev pub atoi_positive : Text → Option ℕ
atoi_positive [] = none
atoi_positive (c ∷ cs) = if c == b'+' then unsigned cs else unsigned (c ∷ cs)

abbrev pub year_month : Option ℕ → Option ℕ → Option (ℕ × ℕ)
year_month (some y) (some m) = if leb m 12 then some (y, m) else none
year_month _ _ = none

-- Seven characters, of which the fifth is a dash.
unfoldable pub parse_month : Text → Option (ℕ × ℕ)
parse_month (a ∷ b ∷ c ∷ d ∷ e ∷ f ∷ g ∷ []) =
    if e == b'-'
    then year_month (atoi_positive (a ∷ b ∷ c ∷ d ∷ [])) (atoi_positive (f ∷ g ∷ []))
    else none
parse_month _ = none

abbrev pub is_leap : ℕ → Bool
is_leap y = y % 4 == 0 && (not (y % 100 == 0) || y % 400 == 0)

abbrev pub days_before_year : ℕ → ℕ
days_before_year y = 365 * y + (y + 3) / 4 - (y + 99) / 100 + (y + 399) / 400

abbrev pub days_of_month : ℕ → ℕ → ℕ
days_of_month y m =
    if m == 2
    then (if is_leap y then 29 else 28)
    else if m == 4 || m == 6 || m == 9 || m == 11
    then 30
    else 31

-- The days of the months 1 to m of the year.
abbrev pub days_through : ℕ → ℕ → ℕ
days_through y zero = 0
days_through y (suc m) = days_through y m + days_of_month y (suc m)

-- `time.Date(year, month, 1, ...)`
unfoldable pub month_start : ℕ → ℕ → ℕ
month_start y m = days_before_year y + days_through y (m - 1)

-- The first day of the month, and that of the next.
unfoldable pub month_window : ℕ → ℕ → ℕ × ℕ
unfolding month_start
month_window y m =
    (month_start y m, if m == 12 then month_start (y + 1) 1 else month_start y (m + 1))
