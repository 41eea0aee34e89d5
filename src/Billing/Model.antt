-- ===== src/Billing/Model.antt =====
-- The rows of the billing tables (backend/internal/billing/models.go, backend/internal/building/models.go)
-- and the database that the billing services work on.
use Prim.Native.String.{String}
use hamsa.Base.{ℕ, Bool, List, Option}
use hamsa.Base.Int.{ℤ}
use hamsa.Engine.Rat.{Rat}
use hamsa.Engine.Model.{Method}

pub data PeriodStatus : Type 0 where
  draft calculated issued closed : PeriodStatus

pub data InvoiceStatus : Type 0 where
  unpaid partial paid expired cancelled : InvoiceStatus

-- The texts of `late_fee_type`: `blank` is "", and `other_fee` every text that is no fee type.
pub data LateFeeType : Type 0 where
  blank no_fee fixed_fee percent per_day other_fee : LateFeeType

pub data ItemKind : Type 0 where
  charge late_fee adjustment : ItemKind

-- `other_kind` is every text but "debit" and "credit".
pub data AdjustmentKind : Type 0 where
  debit credit other_kind : AdjustmentKind

-- The text of `invoice_items.method`: a cost method or a fee type.
pub data ItemMethod : Type 0 where
  cost_method : Method → ItemMethod
  fee_type : LateFeeType → ItemMethod

-- Dates are day numbers, times are seconds. A float64 is the rational number that it stands for (JSON carries no NaN and no infinity).
pub record BillingPeriod : Type 0 where
  pub id : ℕ
  pub building_id : ℕ
  pub title : String
  pub start_date : ℕ
  pub end_date : ℕ
  pub due_date : ℕ
  pub late_fee_type : LateFeeType
  pub late_fee_value : Rat
  pub status : PeriodStatus
  pub issued_at : Option ℕ
  pub closed_at : Option ℕ

pub record Weight : Type 0 where
  pub method : Method
  pub weight : ℤ
  pub fixed_amount_per_unit : ℤ

pub record CostItem : Type 0 where
  pub id : ℕ
  pub period_id : ℕ
  pub title : String
  pub total_amount : ℤ
  pub method : Method
  pub fixed_amount_per_unit : Option ℤ
  pub combo_weights : List Weight
  pub include_vacant : Bool
  pub unit_ids : List ℕ

pub record CostItemShare : Type 0 where
  pub id : ℕ
  pub cost_item_id : ℕ
  pub unit_id : ℕ
  pub exact_share : Rat
  pub rounded_share : ℤ

-- A draft carries a placeholder, an issued invoice `BLD-<year>-<seq>`.
pub data InvoiceNumber : Type 0 where
  draft_number : ℕ → InvoiceNumber
  building_number : ℕ → ℤ → InvoiceNumber

pub record Invoice : Type 0 where
  pub id : ℕ
  pub invoice_number : InvoiceNumber
  pub building_id : ℕ
  pub period_id : ℕ
  pub unit_id : ℕ
  pub base_amount : ℤ
  pub prior_debt : ℤ
  pub late_fee_amount : ℤ
  pub credit_amount : ℤ
  pub final_amount : ℤ
  pub issue_date : Option ℕ
  pub due_date : Option ℕ
  pub status : InvoiceStatus
  pub paid_amount : ℤ
  pub inputs_frozen_at : Option ℕ

pub record InvoiceItem : Type 0 where
  pub id : ℕ
  pub invoice_id : ℕ
  pub kind : ItemKind
  pub cost_item_id : Option ℕ
  pub amount : ℤ
  pub method : Option ItemMethod
  pub adjustment_id : Option ℕ

pub record InvoiceAdjustment : Type 0 where
  pub id : ℕ
  pub invoice_id : ℕ
  pub kind : AdjustmentKind
  pub amount : ℤ
  pub reason : String
  pub created_by : Option ℕ

pub record BuildingUnit : Type 0 where
  pub id : ℕ
  pub building_id : ℕ
  pub number : String
  pub area_m2 : ℤ
  pub vacant : Bool
  pub deleted : Bool

-- One row of user_buildings.
pub record UserBuilding : Type 0 where
  pub user_id : ℕ
  pub building_id : ℕ

pub record OccupantCount : Type 0 where
  pub unit_id : ℕ
  pub occupant_count : ℤ
  pub effective_from : ℕ

pub data AuditAction : Type 0 where
  invoice_issued invoice_adjusted invoice_voided : AuditAction

pub record AuditEntry : Type 0 where
  pub user_id : ℕ
  pub action : AuditAction
  pub object_id : ℕ

pub record Notification : Type 0 where
  pub id : ℕ
  pub user_id : ℕ
  pub ref_id : ℕ

-- One row of the join of users, persons and active occupancies.
pub record Resident : Type 0 where
  pub unit_id : ℕ
  pub user_id : ℕ

pub record BillingDb : Type 0 where
  pub periods : List BillingPeriod
  pub cost_items : List CostItem
  pub shares : List CostItemShare
  pub invoices : List Invoice
  pub items : List InvoiceItem
  pub adjustments : List InvoiceAdjustment
  pub units : List BuildingUnit
  pub grants : List UserBuilding
  pub occupant_counts : List OccupantCount
  pub audit_log : List AuditEntry
  pub notifications : List Notification
  pub residents : List Resident
