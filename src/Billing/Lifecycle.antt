-- ===== src/Billing/Lifecycle.antt =====
-- The life of a billing period (backend/internal/billing/period_service.go, lines 99-386 and 444-460).
use hamsa.Base.{arith, ◌≡◌, ap, Bool, true, ◌&&◌, not, some, ℕ, exists, ◌==◌, [], ◌∷◌, ◌++◌, ◌≤◌}
use hamsa.Server.{
  ApiError, World, conflict, period_not_draft, transaction, ◌>>◌, ◌>>=◌, fail_if, time_now, pure,
  exec, period_not_issued, period_not_calculated,
}
use hamsa.Server.Rules.{Ends, bind-Ends, imp-Ends, fail_if-Ends, exec-Ends, guard_lem}
use hamsa.Billing.Model.{PeriodStatus, draft, calculated, issued, closed, BillingPeriod, BillingDb}
use hamsa.Billing.Repository.{
  Billing, find_period, put_period, is_calculated, is_issued, get_period, is_manager_of,
  save_period, create_period,
}
use hamsa.Billing.Periods.{
  PeriodInput, is_valid_fee, apply_period_input, create, update, close, get_authorized_period,
  authorize_building,
}

abbrev pub BWorld : Type 0
BWorld = World BillingDb

abbrev pub Unchanged : BWorld → ApiError → BWorld → Type 0
Unchanged w e w' = w'.db ≡ w.db

abbrev pub manages : ℕ → ℕ → BillingDb → Bool
manages user_id building_id db =
    exists (λ g. g.user_id == user_id && g.building_id == building_id) db.grants

-- The stored period, of a building that the user manages.
abbrev pub Owned : ℕ → ℕ → BillingDb → BillingPeriod → Type 0
Owned manager id db p = (find_period id db ≡ some p) × (manages manager p.building_id db ≡ true)

-- Dates in order, and a known kind of late fee.
abbrev pub Valid : BillingPeriod → Type 0
Valid p =
    (p.start_date ≤ p.end_date) × (p.end_date ≤ p.due_date) × (is_valid_fee p.late_fee_type ≡ true)

-- Creating a period succeeds only for a manager of the building. The period is a draft of it with dates in
-- order and a known late fee, and is the last row of the table. Otherwise the database is as it
-- was.
pub create-Created :
    (manager building_id : ℕ) (input : PeriodInput) (w : BWorld)
    → Ends
        (λ p w'.
          (manages manager building_id w.db ≡ true)
          × Valid p
          × (p.status ≡ draft)
          × (p.building_id ≡ building_id)
          × (w'.db ≡ record w.db { periods = w.db.periods ++ p ∷ [] }))
        (Unchanged w)
        (create manager building_id input w)
unfolding create authorize_building is_manager_of apply_period_input create_period
    hamsa.Server.Monad.query hamsa.Server.Monad.exec hamsa.Server.Monad.new_id
create-Created manager building_id input w = ground arith

-- Changing a period succeeds only for a stored draft of a building that the user manages. It stays a
-- draft with the same id, its dates are in order and its late fee is known, and exactly
-- its row is replaced. Otherwise the database is as it was.
pub update-stays_draft :
    (manager id : ℕ) (input : PeriodInput) (w : BWorld)
    → Ends
        (λ r w'.
          Owned manager id w.db r.1
          × (r.1.status ≡ draft)
          × (r.0.status ≡ draft)
          × (r.0.id ≡ r.1.id)
          × Valid r.0
          × (w'.db ≡ put_period r.0 w.db))
        (Unchanged w)
        (update manager id input w)
unfolding update get_authorized_period get_period authorize_building is_manager_of
    apply_period_input save_period hamsa.Server.Monad.query hamsa.Server.Monad.first
    hamsa.Server.Monad.exec
update-stays_draft manager id input w = ground arith

abbrev pub Closed : ℕ → ℕ → BWorld → BillingPeriod → BWorld → Type 0
Closed manager id w p' w' =
    (p : BillingPeriod) × (find_period id w.db ≡ some p)
    × (manages manager p.building_id w.db ≡ true)
    × (p.status ≡ issued)
    × (p' ≡ record p { status = closed; closed_at = some w.now })
    × (w'.db ≡ put_period p' w.db)

get_authorized_period-Ends :
    (manager id : ℕ) (w : BWorld)
    → Ends
        (λ p w'. Owned manager id w.db p × (w'.db ≡ w.db) × (w'.now ≡ w.now))
        (Unchanged w)
        (get_authorized_period manager id w)
unfolding get_authorized_period get_period authorize_building is_manager_of hamsa.Server.Monad.query
    hamsa.Server.Monad.first
get_authorized_period-Ends manager id w = ground arith

-- What follows the access check.
pub with_period :
    {A : Type 0} (Q : A → BWorld → Type 0) (manager id : ℕ) (w : BWorld)
    (f : BillingPeriod → Billing A)
    → ((p : BillingPeriod) (w1 : BWorld)
        → Owned manager id w.db p
        → w1.db ≡ w.db
        → w1.now ≡ w.now
        → Ends Q (Unchanged w) (f p w1))
    → Ends Q (Unchanged w) ((get_authorized_period manager id >>= f) w)
with_period Q manager id w f k = bind-Ends Q (Unchanged w) (get_authorized_period manager id) f w (
    imp-Ends _ _ (λ p w'. Owned manager id w.db p × (w'.db ≡ w.db) × (w'.now ≡ w.now)) (Unchanged w)
      (get_authorized_period manager id w) (get_authorized_period-Ends manager id w)
      (λ p w1 q. k p w1 q.0 q.1 q.2) (λ _ _ e. e))

is_issued_lem : (s : PeriodStatus) → is_issued s ≡ true → s ≡ issued
is_issued_lem s h = ground arith

is_calculated_lem : (s : PeriodStatus) → is_calculated s ≡ true → s ≡ calculated
is_calculated_lem s h = ground arith

-- Closing a period succeeds only for a stored and issued period of a building that the user manages. It returns
-- the period as closed at this time, and replaces exactly that row. Otherwise the database is as
-- it was.
pub close-Closed :
    (manager id : ℕ) (w : BWorld) → Ends (Closed manager id w) (Unchanged w) (close manager id w)
unfolding close save_period hamsa.Server.Monad.time_now
close-Closed manager id w =
    with_period (Closed manager id w) manager id w
      (λ p.
        fail_if (not (is_issued p.status)) (conflict period_not_issued)
        >> (time_now >>= λ now.
            save_period (record p { status = closed; closed_at = some now })
            >> pure (record p { status = closed; closed_at = some now })))
      (λ p w1 o d n.
        bind-Ends (Closed manager id w) (Unchanged w)
          (fail_if (not (is_issued p.status)) (conflict period_not_issued))
          (λ _. time_now >>= λ now.
            save_period (record p { status = closed; closed_at = some now })
            >> pure (record p { status = closed; closed_at = some now }))
          w1
          (fail_if-Ends _ (Unchanged w) (not (is_issued p.status)) (conflict period_not_issued) w1
            (λ h.
              bind-Ends (Closed manager id w) (Unchanged w)
                (save_period (record p { status = closed; closed_at = some w1.now }))
                (λ _. pure (record p { status = closed; closed_at = some w1.now })) w1
                (exec-Ends
                  (λ _ w'.
                    Closed manager id w (record p { status = closed; closed_at = some w1.now }) w')
                  (Unchanged w) (put_period (record p { status = closed; closed_at = some w1.now }))
                  w1
                  (
                    p,
                    o.0,
                    o.1,
                    is_issued_lem p.status (guard_lem _ h),
                    (λ i. record p { status = closed; closed_at = some (n i) }),
                    ap (put_period (record p { status = closed; closed_at = some w1.now })) d,
                  )
                  d))
            (λ _. d)))
