-- ===== src/Payment/Service/Settling.antt =====
-- The transaction that settles an invoice, and its notifications (backend/internal/payment/service.go).
use hamsa.Base.{ℕ, List, [], ◌∷◌, exists, keep, ◌==◌, if◌then◌else◌}
use hamsa.Base.Int.{ℤ}
use hamsa.Base.Int64.{add64}
use hamsa.Server.{pure, ◌>>=◌, ◌>>◌, query, exec, best_effort, new_id, for_each}
use hamsa.Billing.Model.{Resident}
use hamsa.Payment.Model.{Payment, LedgerInvoice}
use hamsa.Payment.Balance.{Pay, recompute_balance}
use hamsa.Payment.Service.Ledger.{apply_invoice_paid, apply_to_invoice}

-- `notifyRecorded`: it never fails the payment.
abbrev pub distinct_users : List Resident → List ℕ
distinct_users [] = []
distinct_users (r ∷ rs) =
    let rest = distinct_users rs in
    if exists (λ u. u == r.user_id) rest then rest else r.user_id ∷ rest

unfoldable pub notify_user : ℕ → ℕ → Pay (Unit {0})
notify_user payment_id user_id = do
  id ← new_id
  exec (λ db. record db {
    notifications = record { id = id; user_id = user_id; ref_id = payment_id } ∷ db.notifications;
  })

unfoldable pub notify_recorded : Payment → Pay (Unit {0})
unfolding notify_user
notify_recorded p = best_effort do
  users ← query (λ db. distinct_users (keep (λ r. r.unit_id == p.unit_id) db.residents))
  for_each (λ u. best_effort (notify_user p.id u)) users

-- The body of the transactions of `RecordManual` and `HandleCallback`.
unfoldable pub settle_invoice : LedgerInvoice → ℤ → Pay (Unit {0})
unfolding apply_to_invoice apply_invoice_paid recompute_balance
settle_invoice inv amount = do
  let app = apply_to_invoice inv amount
  apply_invoice_paid inv.id (add64 inv.paid_amount app.applied) app.status
  b ← recompute_balance inv.unit_id
  pure tt
