-- ===== src/Expense/Recording.antt =====
-- Recording an expense and reading the report (backend/internal/expense/service.go, Create and Report).
use hamsa.Base.{ℕ, ◌+◌, ◌≡◌, refl, ◌∙◌, subst, true, [], ◌∷◌, ◌++◌, Option, none, some, arith}
use hamsa.Base.Int.{ℤ, pos, ltb_ℤ}
use hamsa.Base.Text.{Text}
use hamsa.Server.{
  World, ApiError, bad_request, report_month_invalid, expense_invalid, tick, pure, fail_if, ◌>>=◌,
  ◌>>◌, new_id,
}
use hamsa.Server.Rules.{Ends, bind-Ends, imp-Ends}
use hamsa.Building.Model.{User}
use hamsa.Expense.Month.{parse_month}
use hamsa.Expense.Model.{Spend, ExpenseDb, Expense, FinancialReport, Category, Approval}
use hamsa.Expense.Service.{
  Input, NumberInput, number, DateInput, day, amount_of, date_of, income, spending, debt,
  paid_within, sum_ℤ, read_report, read_month, report, managed, create, create_expense, apply_input,
  apply_receipt, blank_expense, merge, built, or_invalid,
}
use hamsa.Expense.Report.{Kept, Figures, Told, read_report-Told}

managed-Same :
    (user_id b : ℕ) (w : World ExpenseDb)
    → Ends (λ _ w'. w'.db ≡ w.db) (Kept w) (managed user_id b w)
unfolding managed hamsa.Server.Monad.query
managed-Same user_id b w = ground arith

-- The month that was asked for is one, and the report has its figures.
abbrev pub Reports : Option (ℕ × ℕ) → ℕ → ExpenseDb → FinancialReport → Type 0
Reports none b db r = ⊥
Reports (some (y, m)) b db r = Figures b y m db r

pub report-Reports :
    (caller : User) (b : ℕ) (month : Text) (w : World ExpenseDb)
    → Ends (λ r w'. Reports (parse_month month) b w.db r) (Kept w) (report caller b month w)
unfolding report
report-Reports caller b month w =
    bind-Ends _ (Kept w) (managed caller.id b) (λ _. read_month b month (parse_month month)) w
      (imp-Ends _ _ (λ _ w'. w'.db ≡ w.db) (Kept w) (managed caller.id b w)
        (managed-Same caller.id b w) (λ _ w1 d. read (parse_month month) w1 d) (λ _ _ e. e))
  where
    read :
        (o : Option (ℕ × ℕ)) (w1 : World ExpenseDb)
        → w1.db ≡ w.db
        → Ends (λ r w'. Reports o b w.db r) (Kept w) (read_month b month o w1)
    read none w1 d = d
    read (some (y, m)) w1 d =
        imp-Ends _ _ (Told b y m month w1) (Kept w1) (read_report b y m month w1)
          (read_report-Told b y m month w1) (λ r w2 q. subst (λ db. Figures b y m db r) d q.0)
          (λ _ _ e. e ∙ d)

-- The row that is stored.

built-keeps :
    (e : Expense) (input : Input) (file : Option Text) (t : Option Text) (c : Option Category)
    (a : Option ℤ) (d : Option ℕ) (s : Option Approval) (r : Expense)
    → built e input file t c a d s ≡ some r
    → (r.building_id ≡ e.building_id)
      × (r.deleted_at ≡ e.deleted_at)
      × (a ≡ some r.amount)
      × (d ≡ some r.expense_date)
built-keeps e input file t c a d s r h = ground arith

-- On creation the amount and the day are those of the payload.
amount_given : (i : NumberInput) (old z : ℤ) → amount_of true i old ≡ some z → i ≡ number z
amount_given i old z h = ground arith

day_given : (i : DateInput) (old d : ℕ) → date_of true i old ≡ some d → i ≡ day d
day_given i old d h = ground arith

-- The new row of the building, not deleted and of the given amount and day, stands behind the others; no other table that the
-- report reads is changed.
abbrev pub Recorded : ℕ → Input → ExpenseDb → Expense → World ExpenseDb → Type 0
Recorded b input db e w' =
    (e.building_id ≡ b)
    × (e.deleted_at ≡ none)
    × (ltb_ℤ (pos 0) e.amount ≡ true)
    × (w'.db.expenses ≡ db.expenses ++ e ∷ [])
    × (w'.db.payments ≡ db.payments)
    × (w'.db.balances ≡ db.balances)
    × (w'.db.units ≡ db.units)
    × (input.amount ≡ number e.amount)
    × (input.expense_date ≡ day e.expense_date)

create_expense-Recorded :
    (e : Expense) (b : ℕ) (input : Input) (w1 w : World ExpenseDb)
    → e.building_id ≡ b
    → e.deleted_at ≡ none
    → w1.db ≡ w.db
    → input.amount ≡ number e.amount
    → input.expense_date ≡ day e.expense_date
    → Ends (Recorded b input w.db) (Kept w) (create_expense e w1)
unfolding create_expense hamsa.Server.Monad.exec? hamsa.Server.Monad.time_now
create_expense-Recorded e b input w1 w h k d m n = ground arith

module _ (parse_uuid : Text → Option ℕ) (b : ℕ) (input : Input) (w : World ExpenseDb) where
  receipt-Same :
      (f : Option Text) (old : Option Text) (w1 : World ExpenseDb)
      → w1.db ≡ w.db
      → Ends (λ _ w'. w'.db ≡ w.db) (Kept w) (apply_receipt parse_uuid f old w1)
  unfolding apply_receipt hamsa.Expense.Service.receipt_path hamsa.Server.Monad.first
  receipt-Same f old w1 d = ground arith

  abbrev Kin : Expense → Expense → World ExpenseDb → Type 0
  Kin e r w' =
      (w'.db ≡ w.db)
      × (r.building_id ≡ e.building_id)
      × (r.deleted_at ≡ e.deleted_at)
      × (input.amount ≡ number r.amount)
      × (input.expense_date ≡ day r.expense_date)

  apply_input-Kin :
      (e : Expense) (w1 : World ExpenseDb)
      → w1.db ≡ w.db
      → Ends (Kin e) (Kept w) (apply_input parse_uuid e input true w1)
  unfolding apply_input
  apply_input-Kin e w1 d =
      bind-Ends (Kin e) (Kept w) (apply_receipt parse_uuid input.receipt_file_id e.receipt_file)
        (λ file. or_invalid (merge e input true file)) w1
        (imp-Ends _ _ (λ _ w'. w'.db ≡ w.db) (Kept w)
          (apply_receipt parse_uuid input.receipt_file_id e.receipt_file w1)
          (receipt-Same input.receipt_file_id e.receipt_file w1 d)
          (λ file w2 q. valid (merge e input true file) w2 q (λ r h.
            let k = built-keeps e input file _ _ _ _ _ r h in
            (
              k.0,
              k.1,
              amount_given input.amount e.amount r.amount k.2,
              day_given input.expense_date e.expense_date r.expense_date k.3,
            )))
          (λ _ _ f. f))
    where
      valid :
          (o : Option Expense) (w2 : World ExpenseDb)
          → w2.db ≡ w.db
          → ((r : Expense)
              → o ≡ some r
              → (r.building_id ≡ e.building_id)
                × (r.deleted_at ≡ e.deleted_at)
                × (input.amount ≡ number r.amount)
                × (input.expense_date ≡ day r.expense_date))
          → Ends (Kin e) (Kept w) (or_invalid o w2)
      valid none w2 q h = q
      valid (some r) w2 q h = let k = h r refl in (q, k.0, k.1, k.2, k.3)

  abbrev enter : User → ℕ → Spend Expense
  enter caller id =
      apply_input parse_uuid (blank_expense id b caller.id) input true >>= create_expense

  pub create-Recorded :
      (caller : User) → Ends (Recorded b input w.db) (Kept w) (create parse_uuid caller b input w)
  unfolding create hamsa.Server.Monad.new_id
  create-Recorded caller =
      bind-Ends (Recorded b input w.db) (Kept w) (managed caller.id b)
        (λ _. new_id >>= enter caller) w
        (imp-Ends _ _ (λ _ w'. w'.db ≡ w.db) (Kept w) (managed caller.id b w)
          (managed-Same caller.id b w)
          (λ _ w1 d.
            let e = blank_expense (w1.uuid w1.drawn) b caller.id in
            let w2 = record w1 { drawn = w1.drawn + 1 } in
            bind-Ends (Recorded b input w.db) (Kept w) (apply_input parse_uuid e input true)
              create_expense w2
              (imp-Ends _ _ (Kin e) (Kept w) (apply_input parse_uuid e input true w2)
                (apply_input-Kin e w2 d)
                (λ r w3 q. create_expense-Recorded r b input w3 w q.1 q.2 q.0 q.3 q.4)
                (λ _ _ f. f)))
          (λ _ _ f. f))
