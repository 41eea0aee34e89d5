-- ===== src/Payment/Model.antt =====
-- The rows of the payment tables (backend/internal/payment/models.go, repository.go lines 24-44 and
-- 237-254). The invoices and adjustments are those of the billing tables.
use hamsa.Base.{ℕ, List, Option}
use hamsa.Base.Int.{ℤ}
use hamsa.Base.Int64.{add64, sub64}
use hamsa.Billing.Model.{
  InvoiceStatus, Invoice, InvoiceAdjustment, UserBuilding, Resident, Notification,
}

pub data PaymentMethod : Type 0 where
  manual gateway : PaymentMethod

pub data PaymentStatus : Type 0 where
  recorded verified failed reversed : PaymentStatus

pub record Payment : Type 0 where
  pub id : ℕ
  pub building_id : ℕ
  pub unit_id : ℕ
  pub invoice_id : Option ℕ
  pub method : PaymentMethod
  pub amount : ℤ
  pub paid_at : ℕ
  pub tracking_number : Option ℕ
  pub authority : Option ℕ
  pub recorded_by : Option ℕ
  pub status : PaymentStatus

pub record UnitBalance : Type 0 where
  pub unit_id : ℕ
  pub prior_debt : ℤ
  pub current_invoice_amount : ℤ
  pub late_fee_total : ℤ
  pub credit : ℤ
  pub paid_total : ℤ
  pub credit_asset : ℤ
  pub balance : ℤ
  pub updated_at : ℕ

pub record LedgerInvoice : Type 0 where
  pub id : ℕ
  pub building_id : ℕ
  pub unit_id : ℕ
  pub status : InvoiceStatus
  pub paid_amount : ℤ
  pub final_amount : ℤ
  pub debit_adj : ℤ
  pub credit_adj : ℤ

-- `effective()`
unfoldable pub effective : LedgerInvoice → ℤ
effective l = sub64 (add64 l.final_amount l.debit_adj) l.credit_adj

pub record PaymentUnit : Type 0 where
  pub id : ℕ
  pub building_id : ℕ

-- A phone that currently occupies a unit (persons and active occupancies).
pub record Occupancy : Type 0 where
  pub phone : ℕ
  pub unit_id : ℕ

pub record PaymentDb : Type 0 where
  pub invoices : List Invoice
  pub adjustments : List InvoiceAdjustment
  pub payments : List Payment
  pub balances : List UnitBalance
  pub units : List PaymentUnit
  pub grants : List UserBuilding
  pub occupancies : List Occupancy
  pub residents : List Resident
  pub notifications : List Notification
