-- ===== src/Expense/Report.antt =====
-- The financial report (backend/internal/expense/service.go, Create and Report).
use hamsa.Base.{ℕ, ◌≡◌, refl, sym, ap, ◌∙◌, subst, Bool, true, ◌&&◌, arith, leb, ltb}
use hamsa.Base.Int.{ℤ, pos, ◌+ℤ◌}
use hamsa.Base.Int64.{sub64}
use hamsa.Base.Text.{Text}
use hamsa.Server.{World, ApiError, tick, pure, fail_if, ◌>>=◌, ◌>>◌, new_id}
use hamsa.Server.Rules.{Ends, bind-Ends, imp-Ends, transaction-Ends}
use hamsa.Expense.Month.{month_window}
use hamsa.Expense.Model.{Spend, ExpenseDb, FinancialReport}
use hamsa.Expense.Service.{income, spending, debt, paid_within, scan_sum, read_report}

pub +ℤ_assoc : (a b c : ℤ) → (a +ℤ b) +ℤ c ≡ a +ℤ (b +ℤ c)
unfolding ◌+ℤ◌
+ℤ_assoc a b c = ground arith

pub +ℤ_zero : (a : ℤ) → a +ℤ pos 0 ≡ a
unfolding ◌+ℤ◌
+ℤ_zero a = ground arith

pub zero_+ℤ : (a : ℤ) → pos 0 +ℤ a ≡ a
unfolding ◌+ℤ◌
zero_+ℤ a = ground arith

abbrev pub Kept : World ExpenseDb → ApiError → World ExpenseDb → Type 0
Kept w e w' = w'.db ≡ w.db

abbrev pub in_month : ℕ → ℕ → ℕ → Bool
in_month year month d = let w = month_window year month in leb w.0 d && ltb d w.1

scan_sum-Ends :
    (f : ExpenseDb → ℤ) (w : World ExpenseDb)
    → Ends (λ z w'. (z ≡ f w.db) × (w'.db ≡ w.db)) (Kept w) (scan_sum f w)
unfolding scan_sum hamsa.Server.Monad.query
scan_sum-Ends f w = ground arith

-- The figures of the report of a month, from the tables.
abbrev pub Figures : ℕ → ℕ → ℕ → ExpenseDb → FinancialReport → Type 0
Figures building_id year month db r =
    let window = month_window year month in
    (r.monthly_income ≡ income building_id (paid_within window.0 window.1) db)
    × (r.monthly_expense ≡ spending building_id (in_month year month) db)
    × (r.net ≡ sub64 r.monthly_income r.monthly_expense)
    × (r.total_debt ≡ debt building_id db)
    × (r.total_payments ≡ income building_id (λ _. true) db)
    × (r.total_expenses ≡ spending building_id (λ _. true) db)

module _ (b y m : ℕ) (name : Text) (w : World ExpenseDb) where
  abbrev pub Told : FinancialReport → World ExpenseDb → Type 0
  Told r w' = Figures b y m w.db r × (w'.db ≡ w.db)

  -- A sum, and what is done with it.
  abbrev then_sum : {A : Type 0} → (ExpenseDb → ℤ) → (ℤ → Spend A) → Spend A
  then_sum f k = scan_sum f >>= k

  sum_step :
      (f : ExpenseDb → ℤ) (k : ℤ → Spend FinancialReport) (w1 : World ExpenseDb)
      → w1.db ≡ w.db
      → ((w2 : World ExpenseDb) → w2.db ≡ w.db → Ends Told (Kept w) (k (f w.db) w2))
      → Ends Told (Kept w) (then_sum f k w1)
  sum_step f k w1 d h = bind-Ends Told (Kept w) (scan_sum f) k w1 (
      imp-Ends _ _ (λ z w'. (z ≡ f w1.db) × (w'.db ≡ w1.db)) (Kept w1) (scan_sum f w1)
        (scan_sum-Ends f w1)
        (λ z w2 q. subst (λ z. Ends Told (Kept w) (k z w2)) (sym (q.0 ∙ ap f d)) (h w2 (q.1 ∙ d)))
        (λ _ _ e. e ∙ d))

  abbrev sums : Spend FinancialReport
  sums =
      let window = month_window y m in
      then_sum (income b (paid_within window.0 window.1)) (λ monthly_income.
        then_sum (spending b (in_month y m)) (λ monthly_expense. then_sum (debt b) (λ total_debt.
          then_sum (income b (λ _. true)) (λ total_payments.
            then_sum (spending b (λ _. true)) (λ total_expenses. pure (record {
              month = name;
              monthly_income = monthly_income;
              monthly_expense = monthly_expense;
              net = sub64 monthly_income monthly_expense;
              total_debt = total_debt;
              total_payments = total_payments;
              total_expenses = total_expenses;
            }))))))

  sums-Told : Ends Told (Kept w) (sums w)
  sums-Told = sum_step _ _ w refl (λ w1 d1. sum_step _ _ w1 d1 (λ w2 d2.
      sum_step _ _ w2 d2 (λ w3 d3.
        sum_step _ _ w3 d3
          (λ w4 d4. sum_step _ _ w4 d4 (λ w5 d5. ((refl, refl, refl, refl, refl, refl), d5))))))

  pub read_report-Told : Ends Told (Kept w) (read_report b y m name w)
  unfolding read_report
  read_report-Told =
      transaction-Ends Told (Kept w) sums w
        (imp-Ends _ _ Told (Kept w) (sums w) sums-Told (λ r w' q. (q, refl)) (λ _ _ _. refl))
