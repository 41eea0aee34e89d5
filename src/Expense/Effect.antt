-- ===== src/Expense/Effect.antt =====
-- What recording an expense does to the report of a month
-- (backend/internal/expense/service.go, Create and Report).
use hamsa.Base.{
  ℕ, zero, suc, ◌≡◌, ◌≢◌, refl, subst, leb, sym, ap, ◌∙◌, Bool, true, ◌&&◌, List, [], ◌∷◌, ◌++◌,
  Option, none, some, keep, map, arith, ◌==◌, if◌then◌else◌, Bool-cases, inl, inr,
}
use hamsa.Base.Int.{ℤ, pos, ◌+ℤ◌}
use hamsa.Base.Int64.{sub64}
use hamsa.Base.Text.{Text}
use hamsa.Server.{World}
use hamsa.Server.Rules.{Ends, imp-Ends}
use hamsa.Building.Model.{User}
use hamsa.Building.Repository.{is_live}
use hamsa.Expense.Month.{parse_month, year_month, atoi_positive, unsigned, positive, read_all}
use hamsa.Expense.Calendar.{in_calendar, month_window-in_calendar}
use hamsa.Expense.Model.{ExpenseDb, Expense, FinancialReport}
use hamsa.Expense.Service.{
  Input, number, day, income, spending, debt, sum_ℤ, report, create, is_verified,
}
use hamsa.Expense.Report.{Kept, in_month, +ℤ_assoc, +ℤ_zero, zero_+ℤ}
use hamsa.Expense.Recording.{Recorded, Reports, report-Reports, create-Recorded}

abbrev counted : ℕ → (ℕ → Bool) → Expense → Bool
counted b p e = e.building_id == b && is_live e.deleted_at && p e.expense_date

abbrev total : ℕ → (ℕ → Bool) → List Expense → ℤ
total b p xs = sum_ℤ (map (λ e. e.amount) (keep (counted b p) xs))

total_snoc :
    (b : ℕ) (p : ℕ → Bool) (xs : List Expense) (e : Expense)
    → total b p (xs ++ e ∷ []) ≡ total b p xs +ℤ (if counted b p e then e.amount else pos 0)
total_snoc b p [] e = elim (Bool-cases (counted b p e)) [
  | inl t ↦ rw t (+ℤ_zero e.amount ∙ sym (zero_+ℤ e.amount))
  | inr t ↦ rw t (sym (zero_+ℤ (pos 0)))
]
total_snoc b p (x ∷ xs) e = elim (Bool-cases (counted b p x)) [
  | inl t ↦ rw t (
      ap (λ z. x.amount +ℤ z) (total_snoc b p xs e)
      ∙ sym (+ℤ_assoc x.amount (total b p xs) (if counted b p e then e.amount else pos 0)))
  | inr t ↦ rw t (total_snoc b p xs e)
]

-- The new expense is counted exactly on the days of the test.
spending-Recorded :
    (b : ℕ) (input : Input) (p : ℕ → Bool) (db : ExpenseDb) (e : Expense) (w' : World ExpenseDb)
    → Recorded b input db e w'
    → spending b p w'.db ≡ spending b p db +ℤ (if p e.expense_date then e.amount else pos 0)
spending-Recorded b input p db e w' q =
    ap (total b p) q.3
    ∙ total_snoc b p db.expenses e
    ∙ ap (λ t. spending b p db +ℤ (if t then e.amount else pos 0)) (only_days q.0 q.1)
  where
    only_days : e.building_id ≡ b → e.deleted_at ≡ none → counted b p e ≡ p e.expense_date
    only_days h k = ground arith

income_same :
    (b : ℕ) (p : ℕ → Bool) (db db' : ExpenseDb)
    → db'.payments ≡ db.payments
    → income b p db' ≡ income b p db
income_same b p db db' h =
    ap
      (λ xs. sum_ℤ (
        map (λ x. x.amount)
          (keep (λ x. x.building_id == b && is_verified x.status && p x.paid_at) xs)))
      h

debt_same :
    (b : ℕ) (db db' : ExpenseDb)
    → db'.balances ≡ db.balances
    → db'.units ≡ db.units
    → debt b db' ≡ debt b db
debt_same b db db' h k = λ i. debt b (record db { balances = h i; units = k i })

-- The figures of the month with one expense more; the income and the debt are those of before.
abbrev Grown : Option (ℕ × ℕ) → ℕ → ExpenseDb → Expense → FinancialReport → Type 0
Grown none b db e r = ⊥
Grown (some (y, m)) b db e r =
    (r.monthly_expense
      ≡ spending b (in_calendar y m) db
        +ℤ (if in_calendar y m e.expense_date then e.amount else pos 0))
    × (r.total_expenses ≡ spending b (λ _. true) db +ℤ e.amount)
    × (r.monthly_income ≡ income b (in_calendar y m) db)
    × (r.net ≡ sub64 r.monthly_income r.monthly_expense)
    × (r.total_payments ≡ income b (λ _. true) db)
    × (r.total_debt ≡ debt b db)

-- A text names one of the twelve months.
abbrev IsMonth : Option (ℕ × ℕ) → Type 0
IsMonth none = Unit
IsMonth (some (y, zero)) = ⊥
IsMonth (some (y, suc m)) = leb (suc m) 12 ≡ true

year_month-IsMonth : (y m : Option ℕ) → m ≢ some 0 → IsMonth (year_month y m)
year_month-IsMonth none m h = tt
year_month-IsMonth (some y) none h = tt
year_month-IsMonth (some y) (some zero) h = absurd (h refl)
year_month-IsMonth (some y) (some (suc m)) h = elim (Bool-cases (leb (suc m) 12)) [
  | inl t ↦ rw t t
  | inr t ↦ rw t tt
]

positive-not_zero : (o : Option ℕ) → positive o ≢ some 0
positive-not_zero none h = ground arith
positive-not_zero (some zero) h = ground arith
positive-not_zero (some (suc n)) h = ground arith

unsigned-not_zero : (s : Text) → unsigned s ≢ some 0
unsigned-not_zero [] h = ground arith
unsigned-not_zero (c ∷ cs) h = positive-not_zero (read_all 0 (c ∷ cs)) h

atoi_positive-not_zero : (s : Text) → atoi_positive s ≢ some 0
atoi_positive-not_zero [] h = ground arith
atoi_positive-not_zero (c ∷ cs) h = elim (Bool-cases (c == b'+')) [
  | inl t ↦
      unsigned-not_zero cs
        (subst (λ b. (if b then unsigned cs else unsigned (c ∷ cs)) ≡ some 0) t h)
  | inr t ↦
      unsigned-not_zero (c ∷ cs)
        (subst (λ b. (if b then unsigned cs else unsigned (c ∷ cs)) ≡ some 0) t h)
]

parse_month-IsMonth : (t : Text) → IsMonth (parse_month t)
unfolding parse_month
parse_month-IsMonth [] = tt
parse_month-IsMonth (a ∷ []) = tt
parse_month-IsMonth (a ∷ b ∷ []) = tt
parse_month-IsMonth (a ∷ b ∷ c ∷ []) = tt
parse_month-IsMonth (a ∷ b ∷ c ∷ d ∷ []) = tt
parse_month-IsMonth (a ∷ b ∷ c ∷ d ∷ e ∷ []) = tt
parse_month-IsMonth (a ∷ b ∷ c ∷ d ∷ e ∷ f ∷ []) = tt
parse_month-IsMonth (a ∷ b ∷ c ∷ d ∷ e ∷ f ∷ g ∷ []) = elim (Bool-cases (e == b'-')) [
  | inl t ↦ rw t (
      year_month-IsMonth (atoi_positive (a ∷ b ∷ c ∷ d ∷ [])) (atoi_positive (f ∷ g ∷ []))
        (atoi_positive-not_zero (f ∷ g ∷ [])))
  | inr t ↦ rw t tt
]
parse_month-IsMonth (a ∷ b ∷ c ∷ d ∷ e ∷ f ∷ g ∷ h ∷ s) = tt

grown :
    (o : Option (ℕ × ℕ)) (b : ℕ) (input : Input) (db : ExpenseDb) (e : Expense)
    (w1 : World ExpenseDb) (r : FinancialReport)
    → IsMonth o
    → Recorded b input db e w1
    → Reports o b w1.db r
    → Grown o b db e r
grown none b input db e w1 r k q f = f
grown (some (y, zero)) b input db e w1 r k q f = absurd k
grown (some (y, suc m)) b input db e w1 r k q f =
    let same : in_month y (suc m) ≡ in_calendar y (suc m) =
      λ i d. month_window-in_calendar y m d k i in
    (
      f.1
          ∙ ap (λ p. spending b p w1.db) same
          ∙ spending-Recorded b input (in_calendar y (suc m)) db e w1 q,
      f.5 ∙ spending-Recorded b input (λ _. true) db e w1 q,
      f.0 ∙ ap (λ p. income b p w1.db) same ∙ income_same b (in_calendar y (suc m)) db w1.db q.4,
      f.2,
      f.4 ∙ income_same b (λ _. true) db w1.db q.4,
      f.3 ∙ debt_same b db w1.db q.5 q.6,
    )

-- The expense has the amount and the day of the payload, and the report that is read next counts it.
abbrev pub Counted : ℕ → User → Input → Text → ExpenseDb → Expense → World ExpenseDb → Type 0
Counted b caller input month db e w1 =
    (input.amount ≡ number e.amount)
    × (input.expense_date ≡ day e.expense_date)
    × Ends (λ r _. Grown (parse_month month) b db e r) (Kept w1) (report caller b month w1)

-- Recording an expense and reading the report. Create does not panic, and on an error the database is as it was. Where it succeeds, the expense has the amount and the day of the payload,
-- and the report of a month that is read next succeeds only for a text that names a month of the calendar; its expenses of the month have grown by the amount
-- if the expense's day lies in that month, and are as before otherwise, its total of expenses has grown by the amount,
-- the income of the month, the payments and the debt are those of before, and the net is the difference of income and expenses.
pub create-report :
    (parse_uuid : Text → Option ℕ) (caller : User) (b : ℕ) (input : Input) (month : Text)
    (w : World ExpenseDb)
    → Ends (Counted b caller input month w.db) (Kept w) (create parse_uuid caller b input w)
create-report parse_uuid caller b input month w =
    imp-Ends _ _ (Recorded b input w.db) (Kept w) (create parse_uuid caller b input w)
      (create-Recorded parse_uuid b input w caller)
      (λ e w1 q. (
        q.7,
        q.8,
        imp-Ends _ _ (λ r _. Reports (parse_month month) b w1.db r) (Kept w1)
            (report caller b month w1) (report-Reports caller b month w1)
            (λ r _ f. grown (parse_month month) b input w.db e w1 r (parse_month-IsMonth month) q f)
            (λ _ _ k. k),
      ))
      (λ _ _ k. k)
