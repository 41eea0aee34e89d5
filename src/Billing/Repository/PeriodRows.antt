-- ===== src/Billing/Repository/PeriodRows.antt =====
-- The rows of periods (backend/internal/billing/repository.go).
use hamsa.Base.{
  ℕ, Bool, true, false, List, [], ◌∷◌, ◌++◌, Option, keep, reverse, find, update_where, ◌==◌,
}
use hamsa.Server.{M, query, exec, first}
use hamsa.Billing.Model.{PeriodStatus, draft, calculated, issued, closed, BillingPeriod, BillingDb}

abbrev pub Billing : Type 0 → Type 0
Billing = M BillingDb

abbrev pub is_draft : PeriodStatus → Bool
is_draft draft = true
is_draft _ = false

abbrev pub is_calculated : PeriodStatus → Bool
is_calculated calculated = true
is_calculated _ = false

abbrev pub is_issued : PeriodStatus → Bool
is_issued issued = true
is_issued _ = false

-- `period_status IN ('issued', 'closed')`
abbrev pub is_frozen : PeriodStatus → Bool
is_frozen issued = true
is_frozen closed = true
is_frozen _ = false

-- Periods.

abbrev pub find_period : ℕ → BillingDb → Option BillingPeriod
find_period id db = find (λ p. p.id == id) db.periods

unfoldable pub create_period : BillingPeriod → Billing (Unit {0})
create_period p = exec (λ db. record db { periods = db.periods ++ p ∷ [] })

unfoldable pub get_period : ℕ → Billing BillingPeriod
get_period id = first (find_period id)

-- `Order("created_at DESC")`: the newest row is the last of the table.
unfoldable pub list_periods : ℕ → Billing (List BillingPeriod)
list_periods building_id =
    query (λ db. reverse (keep (λ p. p.building_id == building_id) db.periods))

abbrev pub put_period : BillingPeriod → BillingDb → BillingDb
put_period p db = record db { periods = update_where (λ q. q.id == p.id) (λ _. p) db.periods }

unfoldable pub save_period : BillingPeriod → Billing (Unit {0})
save_period p = exec (put_period p)
