-- ===== src/Billing/Periods/Life.antt =====
-- The life of a period (period_service.go): creation, changes, reopening and closing.
use Prim.Native.String.{String}
use hamsa.Base.{ℕ, Bool, true, false, ◌||◌, not, List, none, some, ltb}
use hamsa.Engine.Rat.{Rat}
use hamsa.Server.{
  bad_request, conflict, period_dates_invalid, period_not_draft, period_not_calculated,
  period_not_issued, item_method_invalid, pure, fail_if, ◌>>=◌, ◌>>◌, new_id, time_now,
}
use hamsa.Billing.Model.{
  draft, closed, LateFeeType, blank, no_fee, fixed_fee, percent, per_day, BillingPeriod,
}
use hamsa.Billing.Repository.{
  Billing, is_draft, is_calculated, is_issued, create_period, list_periods, save_period,
  discard_calculation,
}
use hamsa.Billing.Periods.Access.{authorize_building, get_authorized_period}

pub record PeriodInput : Type 0 where
  pub title : String
  pub start_date : ℕ
  pub end_date : ℕ
  pub due_date : ℕ
  pub late_fee_type : LateFeeType
  pub late_fee_value : Rat

-- `lf := in.LateFeeType; if lf == "" { lf = "none" }`
abbrev default_fee : LateFeeType → LateFeeType
default_fee blank = no_fee
default_fee t = t

abbrev pub is_valid_fee : LateFeeType → Bool
is_valid_fee no_fee = true
is_valid_fee fixed_fee = true
is_valid_fee percent = true
is_valid_fee per_day = true
is_valid_fee _ = false

unfoldable pub apply_period_input : BillingPeriod → PeriodInput → Billing BillingPeriod
apply_period_input p input = do
  fail_if (ltb input.end_date input.start_date || ltb input.due_date input.end_date)
      (bad_request period_dates_invalid)
  fail_if (not (is_valid_fee (default_fee input.late_fee_type))) (bad_request item_method_invalid)
  pure (record p {
    title = input.title;
    start_date = input.start_date;
    end_date = input.end_date;
    due_date = input.due_date;
    late_fee_type = default_fee input.late_fee_type;
    late_fee_value = input.late_fee_value;
  })

abbrev new_period : ℕ → ℕ → PeriodInput → BillingPeriod
new_period id building_id input = record {
  id = id;
  building_id = building_id;
  title = input.title;
  start_date = input.start_date;
  end_date = input.end_date;
  due_date = input.due_date;
  late_fee_type = input.late_fee_type;
  late_fee_value = input.late_fee_value;
  status = draft;
  issued_at = none;
  closed_at = none;
}

unfoldable pub create : ℕ → ℕ → PeriodInput → Billing BillingPeriod
unfolding authorize_building apply_period_input
create manager building_id input = do
  authorize_building manager building_id
  id ← new_id
  p ← apply_period_input (new_period id building_id input) input
  create_period p
  pure p

unfoldable pub list : ℕ → ℕ → Billing (List BillingPeriod)
unfolding authorize_building
list manager building_id = do authorize_building manager building_id; list_periods building_id

-- The saved period, and the one before.
unfoldable pub update : ℕ → ℕ → PeriodInput → Billing (BillingPeriod × BillingPeriod)
unfolding get_authorized_period apply_period_input
update manager id input = do
  p ← get_authorized_period manager id
  fail_if (not (is_draft p.status)) (conflict period_not_draft)
  p' ← apply_period_input p input
  save_period p'
  pure (p', p)

-- The state machine.

unfoldable reopen : ℕ → ℕ → Billing BillingPeriod
unfolding get_authorized_period
reopen manager id = do
  p ← get_authorized_period manager id
  fail_if (not (is_calculated p.status)) (conflict period_not_calculated)
  discard_calculation id
  save_period (record p { status = draft })
  pure (record p { status = draft })

unfoldable pub close : ℕ → ℕ → Billing BillingPeriod
unfolding get_authorized_period
close manager id = do
  p ← get_authorized_period manager id
  fail_if (not (is_issued p.status)) (conflict period_not_issued)
  now ← time_now
  save_period (record p { status = closed; closed_at = some now })
  pure (record p { status = closed; closed_at = some now })
