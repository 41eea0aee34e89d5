-- ===== src/Expense/Service/Rows.antt =====
-- The rows of expenses (backend/internal/expense/repository.go).
use hamsa.Base.{
  ℕ, Bool, true, ◌&&◌, not, [], ◌∷◌, ◌++◌, Option, none, some, exists, find, update_where, is_empty,
  ◌==◌, if◌then◌else◌,
}
use hamsa.Base.Int.{pos, ltb_ℤ}
use hamsa.Base.Text.{Text}
use hamsa.Server.{
  ApiError, bad_request, forbidden, record_not_found, no_building_access, expense_invalid,
  receipt_not_found, pure, fail, fail_if, ◌>>=◌, ◌>>◌, query, exec, exec?, first, map_error,
  time_now,
}
use hamsa.Building.Repository.{is_grant, is_live}
use hamsa.Announcement.Repository.{path_of}
use hamsa.Expense.Model.{Spend, ExpenseDb, Expense}

abbrev receipt_error : ApiError → ApiError
receipt_error record_not_found = bad_request receipt_not_found
receipt_error e = e

-- A file without a path counts as missing.
abbrev filled_path : Option Text → Option Text
filled_path none = none
filled_path (some p) = if is_empty p then none else some p

unfoldable pub receipt_path : Option ℕ → Spend Text
receipt_path none = fail (bad_request receipt_not_found)
receipt_path (some id) =
    map_error receipt_error (first (λ db. filled_path (path_of (find (λ f. f.id == id) db.files))))

abbrev pub or_invalid : Option Expense → Spend Expense
or_invalid none = fail (bad_request expense_invalid)
or_invalid (some e) = pure e

unfoldable pub managed : ℕ → ℕ → Spend (Unit {0})
managed user_id building_id = do
  allowed ← query (λ db. exists (is_grant user_id building_id) db.grants)
  fail_if (not allowed) (forbidden no_building_access)

unfoldable pub find_expense : ℕ → Spend Expense
find_expense id = first (λ db. find (λ e. e.id == id && is_live e.deleted_at) db.expenses)

-- The foreign key of the payer.
abbrev payer_known : Option ℕ → ExpenseDb → Bool
payer_known none db = true
payer_known (some p) db = exists (λ q. q == p) db.persons

abbrev add_row : Expense → ExpenseDb → Option ExpenseDb
add_row e db =
    if payer_known e.payer_person_id db && ltb_ℤ (pos 0) e.amount
    then some (record db { expenses = db.expenses ++ e ∷ [] })
    else none

unfoldable pub create_expense : Expense → Spend Expense
create_expense e = do
  now ← time_now
  let row = record e { created_at = now; updated_at = now }
  exec? (add_row row)
  pure row

abbrev put_row : Expense → ExpenseDb → Option ExpenseDb
put_row e db =
    if payer_known e.payer_person_id db && ltb_ℤ (pos 0) e.amount
    then some (record db { expenses = update_where (λ f. f.id == e.id) (λ _. e) db.expenses })
    else none

unfoldable pub save_expense : Expense → Spend Expense
save_expense e = do
  now ← time_now
  let row = record e { updated_at = now }
  exec? (put_row row)
  pure row

abbrev pub stamp : ℕ → ℕ → ExpenseDb → ExpenseDb
stamp id now db = record db {
  expenses =
      update_where (λ e. e.id == id && is_live e.deleted_at)
        (λ e. record e { deleted_at = some now; updated_at = now }) db.expenses;
}

unfoldable pub soft_delete_expense : ℕ → Spend (Unit {0})
soft_delete_expense id = time_now >>= λ now. exec (stamp id now)
