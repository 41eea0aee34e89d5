-- ===== src/Expense/Model.antt =====
-- Rows of expenses (backend/internal/expense/models.go).
use hamsa.Base.{ℕ, List, Option, none, some, if◌then◌else◌}
use hamsa.Base.Int.{ℤ}
use hamsa.Base.Text.{Text, codes, text_eq}
use hamsa.Server.{M}
use hamsa.Building.Model.{BuildingUnit, UserBuilding}
use hamsa.Payment.Model.{Payment, UnitBalance}
use hamsa.Announcement.Model.{File}

pub data Category : Type 0 where
  water electricity gas elevator cleaning security repair insurance equipment other : Category

pub data Approval : Type 0 where
  pending approved rejected : Approval

-- `validCategory`: the value that a text names.
unfoldable pub parse_category : Text → Option Category
parse_category s =
    if text_eq s (codes "water")
    then some water
    else if text_eq s (codes "electricity")
    then some electricity
    else if text_eq s (codes "gas")
    then some gas
    else if text_eq s (codes "elevator")
    then some elevator
    else if text_eq s (codes "cleaning")
    then some cleaning
    else if text_eq s (codes "security")
    then some security
    else if text_eq s (codes "repair")
    then some repair
    else if text_eq s (codes "insurance")
    then some insurance
    else if text_eq s (codes "equipment")
    then some equipment
    else if text_eq s (codes "other")
    then some other
    else none

unfoldable pub parse_approval : Text → Option Approval
parse_approval s =
    if text_eq s (codes "pending")
    then some pending
    else if text_eq s (codes "approved")
    then some approved
    else if text_eq s (codes "rejected")
    then some rejected
    else none

pub record Expense : Type 0 where
  pub id : ℕ
  pub building_id : ℕ
  pub title : Text
  pub category : Category
  pub amount : ℤ
  pub expense_date : ℕ
  pub description : Option Text
  pub payer_person_id : Option ℕ
  pub receipt_file : Option Text
  pub approval_status : Approval
  pub created_by : ℕ
  pub created_at : ℕ
  pub updated_at : ℕ
  pub deleted_at : Option ℕ

pub record FinancialReport : Type 0 where
  pub month : Text
  pub monthly_income : ℤ
  pub monthly_expense : ℤ
  pub net : ℤ
  pub total_debt : ℤ
  pub total_payments : ℤ
  pub total_expenses : ℤ

-- `persons` holds the ids that payer_person_id may refer to.
pub record ExpenseDb : Type 0 where
  pub expenses : List Expense
  pub grants : List UserBuilding
  pub files : List File
  pub persons : List ℕ
  pub payments : List Payment
  pub balances : List UnitBalance
  pub units : List BuildingUnit

abbrev pub Spend : Type 0 → Type 0
Spend = M ExpenseDb
