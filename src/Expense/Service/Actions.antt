-- ===== src/Expense/Service/Actions.antt =====
-- The operations of backend/internal/expense/service.go.
use hamsa.Base.{ℕ, Bool, true, false, [], ◌∷◌, Option, none, some}
use hamsa.Base.Text.{Text}
use hamsa.Server.{bad_request, report_month_invalid, pure, fail, ◌>>=◌, ◌>>◌, new_id}
use hamsa.Building.Model.{User}
use hamsa.Expense.Month.{parse_month}
use hamsa.Expense.Model.{Spend, Expense, FinancialReport}
use hamsa.Expense.Service.Merging.{Input, merge, blank_expense}
use hamsa.Expense.Service.Rows.{
  receipt_path, or_invalid, managed, find_expense, create_expense, save_expense,
  soft_delete_expense,
}
use hamsa.Expense.Service.Sums.{read_report}

module _ (parse_uuid : Text → Option ℕ) where
  unfoldable pub apply_receipt : Option Text → Option Text → Spend (Option Text)
  unfolding receipt_path
  apply_receipt none old = pure old
  apply_receipt (some []) old = pure none
  apply_receipt (some (c ∷ cs)) old =
      receipt_path (parse_uuid (c ∷ cs)) >>= λ path. pure (some path)

  unfoldable pub apply_input : Expense → Input → Bool → Spend Expense
  unfolding apply_receipt
  apply_input e input create = do
    file ← apply_receipt input.receipt_file_id e.receipt_file
    or_invalid (merge e input create file)

  unfoldable pub create : User → ℕ → Input → Spend Expense
  unfolding managed apply_input create_expense
  create caller building_id input = do
    managed caller.id building_id
    id ← new_id
    e ← apply_input (blank_expense id building_id caller.id) input true
    create_expense e

  unfoldable pub edit : User → ℕ → Input → Spend Expense
  unfolding find_expense managed apply_input save_expense
  edit caller id input = do
    before ← find_expense id
    managed caller.id before.building_id
    e ← apply_input before input false
    save_expense e

unfoldable pub get : User → ℕ → Spend Expense
unfolding find_expense managed
get caller id = do e ← find_expense id; managed caller.id e.building_id; pure e

unfoldable pub remove : User → ℕ → Spend (Unit {0})
unfolding find_expense managed soft_delete_expense
remove caller id = do e ← find_expense id; managed caller.id e.building_id; soft_delete_expense id

abbrev pub read_month : ℕ → Text → Option (ℕ × ℕ) → Spend FinancialReport
read_month building_id name none = fail (bad_request report_month_invalid)
read_month building_id name (some (y, m)) = read_report building_id y m name

unfoldable pub report : User → ℕ → Text → Spend FinancialReport
unfolding managed read_report
report caller building_id month =
    managed caller.id building_id >> read_month building_id month (parse_month month)
