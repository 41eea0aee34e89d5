-- ===== src/Expense/Listing.antt =====
-- The list of expenses (backend/internal/expense/service.go, List, and repository.go, ListExpenses).
use hamsa.Base.{
  ℕ, ◌-◌, ◌*◌, Bool, true, ◌&&◌, ◌||◌, List, Option, none, some, keep, length, take, drop, sort_by,
  leb, ltb, ◌==◌, if◌then◌else◌,
}
use hamsa.Server.{pure, ◌>>=◌, ◌>>◌, query}
use hamsa.Building.Model.{User}
use hamsa.Building.Repository.{is_live}
use hamsa.Expense.Model.{
  Spend, Expense, Category, water, electricity, gas, elevator, cleaning, security, repair,
  insurance, equipment, other, Approval, pending, approved, rejected,
}
use hamsa.Expense.Service.{managed}

-- A part that is absent is no condition.
pub record ExpenseFilter : Type 0 where
  pub category : Option Category
  pub approval : Option Approval
  pub from : Option ℕ
  pub to : Option ℕ
  pub page : ℕ
  pub size : ℕ

abbrev category_code : Category → ℕ
category_code water = 0
category_code electricity = 1
category_code gas = 2
category_code elevator = 3
category_code cleaning = 4
category_code security = 5
category_code repair = 6
category_code insurance = 7
category_code equipment = 8
category_code other = 9

abbrev approval_code : Approval → ℕ
approval_code pending = 0
approval_code approved = 1
approval_code rejected = 2

abbrev category_passes : Option Category → Category → Bool
category_passes none c = true
category_passes (some d) c = category_code c == category_code d

abbrev approval_passes : Option Approval → Approval → Bool
approval_passes none s = true
approval_passes (some t) s = approval_code s == approval_code t

abbrev not_before : Option ℕ → ℕ → Bool
not_before none d = true
not_before (some f) d = leb f d

abbrev not_after : Option ℕ → ℕ → Bool
not_after none d = true
not_after (some t) d = leb d t

abbrev passes : ℕ → ExpenseFilter → Expense → Bool
passes building_id f e =
    e.building_id == building_id
    && is_live e.deleted_at
    && category_passes f.category e.category
    && approval_passes f.approval e.approval_status
    && not_before f.from e.expense_date
    && not_after f.to e.expense_date

-- `ORDER BY expense_date DESC, created_at DESC`
abbrev newer : Expense → Expense → Bool
newer a b =
    ltb b.expense_date a.expense_date
    || (a.expense_date == b.expense_date && leb b.created_at a.created_at)

-- A page below 1 is the first; a size below 1 or above 100 is 20.
abbrev clamp_size : ℕ → ℕ
clamp_size size = if size == 0 || ltb 100 size then 20 else size

unfoldable list_expenses : ℕ → ExpenseFilter → Spend (List Expense × ℕ)
list_expenses building_id f = do
  total ← query (λ db. length (keep (passes building_id f) db.expenses))
  items ← query (λ db. take (clamp_size f.size) (
      drop ((f.page - 1) * clamp_size f.size)
        (sort_by newer (keep (passes building_id f) db.expenses))))
  pure (items, total)

unfoldable list : User → ℕ → ExpenseFilter → Spend (List Expense × ℕ)
unfolding managed list_expenses
list caller building_id f = managed caller.id building_id >> list_expenses building_id f
