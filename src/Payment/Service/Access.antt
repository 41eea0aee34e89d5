-- ===== src/Payment/Service/Access.antt =====
-- Who may see an invoice or a unit (backend/internal/payment/service.go).
use hamsa.Base.{
  ℕ, Bool, true, false, ◌&&◌, not, List, [], ◌∷◌, exists, keep, find, ◌==◌, if◌then◌else◌,
}
use hamsa.Server.{
  forbidden, not_permitted, invoice_not_found, unit_not_found, pure, fail_if, ◌>>=◌, ◌>>◌, query,
  first, map_error, or_not_found,
}
use hamsa.Billing.Model.{InvoiceStatus, cancelled}
use hamsa.Payment.Model.{LedgerInvoice, UnitBalance, Occupancy}
use hamsa.Payment.Balance.{Pay, recompute_balance}
use hamsa.Payment.Service.Ledger.{invoice_for_update}

-- Who calls: `auth.User`, with the role manager or another.
pub record User : Type 0 where
  pub id : ℕ
  pub phone : ℕ
  pub is_manager : Bool

-- Access.

abbrev units_of : List Occupancy → List ℕ
units_of [] = []
units_of (o ∷ os) = o.unit_id ∷ units_of os

unfoldable pub resident_unit_ids : ℕ → Pay (List ℕ)
resident_unit_ids phone = query (λ db. units_of (keep (λ o. o.phone == phone) db.occupancies))

unfoldable pub can_access_unit : User → ℕ → Pay Bool
unfolding resident_unit_ids
can_access_unit u unit_id = do
  unit ← first (λ db. find (λ x. x.id == unit_id) db.units)
  if u.is_manager
      then query
          (λ db. exists (λ g. g.user_id == u.id && g.building_id == unit.building_id) db.grants)
      else do units ← resident_unit_ids u.phone; pure (exists (λ id. id == unit_id) units)

unfoldable pub authorized_invoice : User → ℕ → Pay LedgerInvoice
unfolding invoice_for_update can_access_unit
authorized_invoice u id = do
  inv ← map_error (or_not_found invoice_not_found) (invoice_for_update id)
  allowed ← can_access_unit u inv.unit_id
  fail_if (not allowed) (forbidden not_permitted)
  pure inv

abbrev pub is_void : InvoiceStatus → Bool
is_void cancelled = true
is_void _ = false

-- Reads.

unfoldable unit_balance_for : User → ℕ → Pay UnitBalance
unfolding can_access_unit recompute_balance
unit_balance_for u unit_id = do
  allowed ← map_error (or_not_found unit_not_found) (can_access_unit u unit_id)
  fail_if (not allowed) (forbidden not_permitted)
  recompute_balance unit_id
