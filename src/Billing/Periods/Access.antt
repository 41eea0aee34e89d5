-- ===== src/Billing/Periods/Access.antt =====
-- What every operation of period_service.go asks first: may the manager see the building?
use hamsa.Base.{ℕ, not}
use hamsa.Server.{
  forbidden, no_building_access, period_not_found, pure, fail_if, ◌>>=◌, ◌>>◌, map_error,
  or_not_found,
}
use hamsa.Billing.Model.{BillingPeriod}
use hamsa.Billing.Repository.{Billing, get_period, is_manager_of}

unfoldable pub authorize_building : ℕ → ℕ → Billing (Unit {0})
authorize_building manager building_id = do
  allowed ← is_manager_of manager building_id
  fail_if (not allowed) (forbidden no_building_access)

unfoldable pub get_authorized_period : ℕ → ℕ → Billing BillingPeriod
unfolding authorize_building
get_authorized_period manager id = do
  p ← map_error (or_not_found period_not_found) (get_period id)
  authorize_building manager p.building_id
  pure p
