-- ===== src/Billing/Periods/Corrections.antt =====
-- Issuance, cancellation and adjustments of invoices (period_service.go), with the audit log and the
-- notifications.
use Prim.Native.String.{String}
use text.Mathlib.Text.{◌==◌ as str_eq}
use hamsa.Base.{ℕ, Bool, true, false, not, List, [], ◌∷◌, map, none, some}
use hamsa.Base.Int.{ℤ, pos, leb_ℤ}
use hamsa.Server.{
  ApiError, bad_request, not_found, conflict, not_calculable, record_not_found, period_not_found,
  period_not_calculated, invoice_not_found, invoice_not_cancellable, invoice_cancelled,
  adjust_kind_invalid, adjust_amount_invalid, adjust_reason_required, pure, fail_if, ◌>>=◌, ◌>>◌,
  exec, map_error, or_not_found, best_effort, new_id, time_now, for_each,
}
use hamsa.Billing.Model.{
  InvoiceStatus, unpaid, partial, expired, cancelled, AdjustmentKind, debit, credit, adjustment,
  Invoice, InvoiceItem, InvoiceAdjustment, AuditAction, invoice_issued, invoice_adjusted,
  invoice_voided,
}
use hamsa.Billing.Repository.{
  Billing, InvoiceDetails, is_calculated, get_invoice, issue_invoices, set_invoice_status,
  create_adjustment, occupant_user_ids,
}
use hamsa.Billing.Periods.Access.{authorize_building, get_authorized_period}

pub record AdjustmentInput : Type 0 where
  pub kind : AdjustmentKind
  pub amount : ℤ
  pub reason : String

-- The audit log and the notifications, which never fail the operation.
unfoldable pub append_audit : ℕ → AuditAction → ℕ → Billing (Unit {0})
append_audit actor action object = exec (λ db. record db {
  audit_log = record { user_id = actor; action = action; object_id = object } ∷ db.audit_log;
})

unfoldable pub notify : ℕ → ℕ → Billing (Unit {0})
notify user_id invoice_id = do
  id ← new_id
  exec (λ db. record db {
    notifications = record { id = id; user_id = user_id; ref_id = invoice_id } ∷ db.notifications;
  })

unfoldable notify_occupants : Invoice → Billing (Unit {0})
unfolding notify
notify_occupants inv =
    best_effort
      do users ← occupant_user_ids inv.unit_id; for_each (λ u. best_effort (notify u inv.id)) users

-- The errors of issuance, as `Issue` reports them.
abbrev issue_error : ApiError → ApiError
issue_error record_not_found = not_found period_not_found
issue_error not_calculable = conflict period_not_calculated
issue_error e = e

-- Corrections of invoices.

unfoldable pub authorized_invoice : ℕ → ℕ → Billing InvoiceDetails
unfolding authorize_building
authorized_invoice manager id = do
  d ← map_error (or_not_found invoice_not_found) (get_invoice id)
  authorize_building manager d.invoice.building_id
  pure d

abbrev pub is_cancellable : InvoiceStatus → Bool
is_cancellable unpaid = true
is_cancellable partial = true
is_cancellable expired = true
is_cancellable _ = false

abbrev is_cancelled : InvoiceStatus → Bool
is_cancelled cancelled = true
is_cancelled _ = false

abbrev is_adjustment_kind : AdjustmentKind → Bool
is_adjustment_kind debit = true
is_adjustment_kind credit = true
is_adjustment_kind _ = false

abbrev new_adjustment : ℕ → ℕ → ℕ → AdjustmentInput → InvoiceAdjustment
new_adjustment id invoice_id manager input = record {
  id = id;
  invoice_id = invoice_id;
  kind = input.kind;
  amount = input.amount;
  reason = input.reason;
  created_by = some manager;
}

abbrev adjustment_item : ℕ → ℕ → AdjustmentInput → InvoiceItem
adjustment_item id invoice_id input = record {
  id = id;
  invoice_id = invoice_id;
  kind = adjustment;
  cost_item_id = none;
  amount = input.amount;
  method = none;
  adjustment_id = none;
}

-- `recompute` is the interface BalanceRecomputer: `pure tt` where none is wired.
module _ (recompute : ℕ → Billing (Unit {0})) where
  unfoldable pub recompute_balances : List ℕ → Billing (Unit {0})
  recompute_balances = for_each (λ id. best_effort (recompute id))

  unfoldable pub issue : (ℕ → ℕ) → ℕ → ℕ → Billing (List Invoice)
  unfolding get_authorized_period append_audit notify_occupants recompute_balances
  issue year_of manager id = do
    p ← get_authorized_period manager id
    fail_if (not (is_calculated p.status)) (conflict period_not_calculated)
    now ← time_now
    invoices ← map_error issue_error (issue_invoices id (year_of now) now)
    for_each notify_occupants invoices
    for_each (λ i. best_effort (append_audit manager invoice_issued i.id)) invoices
    recompute_balances (map (λ i. i.id) invoices)
    pure invoices

  unfoldable pub cancel_invoice : ℕ → ℕ → Billing InvoiceDetails
  unfolding authorized_invoice append_audit recompute_balances
  cancel_invoice manager id = do
    d ← authorized_invoice manager id
    fail_if (not (is_cancellable d.invoice.status)) (conflict invoice_not_cancellable)
    set_invoice_status id cancelled
    best_effort (append_audit manager invoice_voided id)
    recompute_balances (id ∷ [])
    pure (record d { invoice = record d.invoice { status = cancelled } })

  unfoldable add_adjustment : ℕ → ℕ → AdjustmentInput → Billing InvoiceAdjustment
  unfolding authorized_invoice append_audit recompute_balances
  add_adjustment manager id input = do
    d ← authorized_invoice manager id
    fail_if (is_cancelled d.invoice.status) (conflict invoice_cancelled)
    fail_if (not (is_adjustment_kind input.kind)) (bad_request adjust_kind_invalid)
    fail_if (leb_ℤ input.amount (pos 0)) (bad_request adjust_amount_invalid)
    fail_if (str_eq input.reason "") (bad_request adjust_reason_required)
    adj_id ← new_id
    item_id ← new_id
    create_adjustment (new_adjustment adj_id id manager input) (adjustment_item item_id id input)
    best_effort (append_audit manager invoice_adjusted id)
    recompute_balances (id ∷ [])
    pure (new_adjustment adj_id id manager input)
