-- ===== src/Expense/Service.antt =====
-- Expenses and the financial report (backend/internal/expense/service.go and repository.go). uuid.Parse
-- is a parameter; an amount and a date are what strconv.ParseInt and time.Parse make of their texts.
mod Merging
mod Rows
mod Sums
mod Actions
pub use Merging.{
  DateInput, Input, NumberInput, amount_of, blank_expense, built, date_of, day, merge, number,
}
unfoldable pub use Rows.{receipt_path, managed, create_expense}
pub use Rows.{or_invalid}
unfoldable pub use Sums.{scan_sum, read_report}
pub use Sums.{sum_ℤ, is_verified, paid_within, income, spending, debt}
unfoldable pub use Actions.{apply_receipt, apply_input, create, report}
pub use Actions.{read_month}
