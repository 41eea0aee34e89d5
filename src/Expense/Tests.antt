-- ===== src/Expense/Tests.antt =====
-- Examples for backend/internal/expense: a building with a manager and one paid expense.
use hamsa.Base.{ℕ, ◌+◌, ◌≡◌, refl, Bool, true, false, List, [], ◌∷◌, Option, none, some}
use hamsa.Base.Int.{pos}
use hamsa.Base.Text.{Text, codes}
use hamsa.Base.Results.{is_ok}
use hamsa.Server.{World}
use hamsa.Server.Rules.{Ends}
use hamsa.Building.Model.{User, role_manager}
use hamsa.Expense.Month.{parse_month, month_start}
use hamsa.Expense.Model.{ExpenseDb}
use hamsa.Expense.Service.{Input, number, day, create, report}
use hamsa.Expense.Report.{Kept}
use hamsa.Expense.Effect.{Counted, create-report}

abbrev no_uuid : Text → Option ℕ
no_uuid s = none

abbrev treasurer : User
treasurer = record {
  id = 9;
  phone = codes "09120000001";
  name = codes "a";
  role = role_manager;
  is_active = true;
  deleted_at = none;
}

abbrev world : World ExpenseDb
world = record {
  db = record {
    expenses = [];
    grants = record { user_id = 9; building_id = 1; granted_at = 1 } ∷ [];
    files = [];
    persons = [];
    payments = [];
    balances = [];
    units = [];
  };
  faults = λ _. false;
  calls = 0;
  uuid = λ k. 100 + k;
  drawn = 0;
  now = 20;
}

-- The first of March 2024, and of January of the year 1.
march : month_start 2024 3 ≡ 739311
unfolding month_start
march = refl

first_year : month_start 1 1 ≡ 366
unfolding month_start
first_year = refl

march_parsed : parse_month (codes "2024-03") ≡ some (2024, 3)
unfolding parse_month
march_parsed = refl

-- Plus signs are read.
plus_parsed : parse_month (codes "+024-+3") ≡ some (24, 3)
unfolding parse_month
plus_parsed = refl

abbrev cleaning_bill : Input
cleaning_bill = record {
  title = codes "stairs";
  category = codes "cleaning";
  amount = number (pos 500);
  expense_date = day 739315;
  description = none;
  payer_person_id = none;
  receipt_file_id = none;
  approval_status = [];
}

create_runs : is_ok (create no_uuid treasurer 1 cleaning_bill world).0 ≡ true
unfolding create hamsa.Expense.Service.managed hamsa.Expense.Service.apply_input
    hamsa.Expense.Service.apply_receipt hamsa.Expense.Service.create_expense
    hamsa.Expense.Model.parse_category hamsa.Base.Text.trim_space hamsa.Server.Monad.query
    hamsa.Server.Monad.exec? hamsa.Server.Monad.new_id hamsa.Server.Monad.time_now
create_runs = refl

report_runs : is_ok (report treasurer 1 (codes "2024-03") world).0 ≡ true
unfolding report hamsa.Expense.Service.managed hamsa.Expense.Service.read_report
    hamsa.Expense.Service.scan_sum hamsa.Expense.Month.month_window month_start parse_month
    hamsa.Server.Monad.query hamsa.Server.Monad.transaction
report_runs = refl

create-report_example :
    Ends
      (Counted 1 treasurer cleaning_bill (codes "2024-03") world.db)
      (Kept world)
      (create no_uuid treasurer 1 cleaning_bill world)
create-report_example = create-report no_uuid treasurer 1 cleaning_bill (codes "2024-03") world
