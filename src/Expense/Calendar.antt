-- ===== src/Expense/Calendar.antt =====
-- The months of the calendar (backend/internal/expense/repository.go, monthWindow): a day counted from
-- the first day of the year 0, year by year and month by month.
use hamsa.Base.{
  ℕ, zero, suc, ◌+◌, ◌-◌, ◌*◌, ◌/◌, ◌%◌, ◌≤◌, ◌≡◌, refl, ap, ◌∙◌, Bool, true, ◌&&◌, arith, leb, ltb,
  ◌==◌, if◌then◌else◌,
}
use hamsa.Expense.Month.{
  is_leap, days_before_year, days_of_month, days_through, month_start, month_window,
}

abbrev year_length : ℕ → ℕ
year_length y = if is_leap y then 366 else 365

-- The days of the years before.
abbrev year_start : ℕ → ℕ
year_start zero = 0
year_start (suc y) = year_start y + year_length y

-- The days of the months before, in the year.
abbrev months_before : ℕ → ℕ → ℕ
months_before y zero = 0
months_before y (suc zero) = 0
months_before y (suc (suc m)) = months_before y (suc m) + days_of_month y (suc m)

-- Month m of year y has the day.
abbrev pub in_calendar : ℕ → ℕ → ℕ → Bool
in_calendar y m d =
    leb (year_start y + months_before y m) d
    && ltb d (year_start y + months_before y m + days_of_month y m)

quarter : (y : ℕ) → (y + 4) / 4 ≡ (y + 3) / 4 + (if y % 4 == 0 then 1 else 0)
quarter y = ground arith

century : (y : ℕ) → (y + 100) / 100 ≡ (y + 99) / 100 + (if y % 100 == 0 then 1 else 0)
century y = ground arith

cycle : (y : ℕ) → (y + 400) / 400 ≡ (y + 399) / 400 + (if y % 400 == 0 then 1 else 0)
cycle y = ground arith

century_leap : (y : ℕ) → y % 400 ≡ 0 → y % 100 ≡ 0
century_leap y h = omega arith

fourth : (y : ℕ) → y % 100 ≡ 0 → y % 4 ≡ 0
fourth y h = omega arith

few_centuries : (y : ℕ) → (y + 99) / 100 ≤ 365 * y
few_centuries y = omega arith

days_before_year-suc : (y : ℕ) → days_before_year (suc y) ≡ days_before_year y + year_length y
days_before_year-suc y =
    ground (arith, quarter y, century y, cycle y, century_leap y, fourth y, few_centuries y)

days_before_year-year_start : (y : ℕ) → days_before_year y ≡ year_start y
days_before_year-year_start zero = refl
days_before_year-year_start (suc y) =
    days_before_year-suc y ∙ ap (λ n. n + year_length y) (days_before_year-year_start y)

days_through-months_before : (y m : ℕ) → days_through y m ≡ months_before y (suc m)
days_through-months_before y zero = refl
days_through-months_before y (suc m) =
    ap (λ n. n + days_of_month y (suc m)) (days_through-months_before y m)

before : (m : ℕ) → suc m - 1 ≡ m
before m = omega arith

month_start_lem : (y m : ℕ) → month_start y (suc m) ≡ year_start y + months_before y (suc m)
unfolding month_start
month_start_lem y m =
    ap (λ k. days_before_year y + days_through y k) (before m)
    ∙ (λ i. days_before_year-year_start y i + days_through-months_before y m i)

-- The days of the twelve months.
full_year : (y : ℕ) → months_before y 12 + days_of_month y 12 ≡ year_length y
full_year y = ground arith

this_month : (y m : ℕ) → (month_window y (suc m)).0 ≡ year_start y + months_before y (suc m)
unfolding month_window
this_month y m = month_start_lem y m

next_month :
    (y m : ℕ)
    → leb (suc m) 12 ≡ true
    → (month_window y (suc m)).1 ≡ year_start y + months_before y (suc m) + days_of_month y (suc m)
unfolding month_window
next_month y m h = ground (arith, month_start_lem (y + 1) 0, month_start_lem y (suc m), full_year y)

-- The window of the code is the month of the calendar.
pub month_window-in_calendar :
    (y m d : ℕ)
    → leb (suc m) 12 ≡ true
    → (leb (month_window y (suc m)).0 d && ltb d (month_window y (suc m)).1)
      ≡ in_calendar y (suc m) d
month_window-in_calendar y m d h = λ i. leb (this_month y m i) d && ltb d (next_month y m h i)
