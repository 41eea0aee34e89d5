-- ===== src/Expense/Service/Sums.antt =====
-- The sums of the financial report (backend/internal/expense/repository.go).
use hamsa.Base.{ℕ, Bool, true, false, ◌&&◌, not, List, [], ◌∷◌, exists, keep, map, leb, ltb, ◌==◌}
use hamsa.Base.Int.{ℤ, pos, negsuc, ◌+ℤ◌, ltb_ℤ, leb_ℤ}
use hamsa.Base.Int64.{sub64}
use hamsa.Base.Text.{Text}
use hamsa.Server.{database, pure, fail_if, ◌>>=◌, ◌>>◌, query, transaction}
use hamsa.Building.Repository.{is_live}
use hamsa.Payment.Model.{PaymentStatus, verified}
use hamsa.Expense.Month.{month_window}
use hamsa.Expense.Model.{Spend, ExpenseDb, FinancialReport}

-- The sums of the report.

abbrev pub sum_ℤ : List ℤ → ℤ
sum_ℤ [] = pos 0
sum_ℤ (x ∷ xs) = x +ℤ sum_ℤ xs

abbrev pub is_verified : PaymentStatus → Bool
is_verified verified = true
is_verified _ = false

-- The column paid_at is a date, as is that of an expense.
abbrev pub paid_within : ℕ → ℕ → ℕ → Bool
paid_within from to d = leb from d && ltb d to

abbrev pub income : ℕ → (ℕ → Bool) → ExpenseDb → ℤ
income building_id p db = sum_ℤ (
    map (λ x. x.amount)
      (keep (λ x. x.building_id == building_id && is_verified x.status && p x.paid_at) db.payments))

abbrev pub spending : ℕ → (ℕ → Bool) → ExpenseDb → ℤ
spending building_id p db = sum_ℤ (
    map (λ e. e.amount)
      (keep (λ e. e.building_id == building_id && is_live e.deleted_at && p e.expense_date)
        db.expenses))

-- The live units of the building that owe something.
abbrev pub debt : ℕ → ExpenseDb → ℤ
debt building_id db = sum_ℤ (
    map (λ b. b.balance)
      (keep
        (λ b.
          ltb_ℤ (pos 0) b.balance
          && exists (λ u. u.id == b.unit_id && u.building_id == building_id && is_live u.deleted_at)
              db.units)
        db.balances))

-- A sum is scanned into an int64.
abbrev fits64 : ℤ → Bool
fits64 z = leb_ℤ (negsuc 9223372036854775807) z && leb_ℤ z (pos 9223372036854775807)

unfoldable pub scan_sum : (ExpenseDb → ℤ) → Spend ℤ
scan_sum f = query f >>= λ z. fail_if (not (fits64 z)) database >> pure z

unfoldable pub read_report : ℕ → ℕ → ℕ → Text → Spend FinancialReport
unfolding scan_sum month_window
read_report building_id year month name = transaction (do
  let w = month_window year month
  monthly_income ← scan_sum (income building_id (paid_within w.0 w.1))
  monthly_expense ← scan_sum (spending building_id (λ d. leb w.0 d && ltb d w.1))
  total_debt ← scan_sum (debt building_id)
  total_payments ← scan_sum (income building_id (λ _. true))
  total_expenses ← scan_sum (spending building_id (λ _. true))
  pure (record {
    month = name;
    monthly_income = monthly_income;
    monthly_expense = monthly_expense;
    net = sub64 monthly_income monthly_expense;
    total_debt = total_debt;
    total_payments = total_payments;
    total_expenses = total_expenses;
  }))
