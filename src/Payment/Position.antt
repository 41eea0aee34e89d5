-- ===== src/Payment/Position.antt =====
-- The recomputed balance of a unit (backend/internal/payment/repository.go, lines 256-349).
use hamsa.Base.{arith, ◌≡◌, refl, ap, ◌∙◌, sym, false, some, ℕ, find, ◌==◌, List, [], ◌∷◌, map}
use hamsa.Base.Int.{ℤ, pos, ◌≤ℤ◌}
use hamsa.Base.Int64.{add64, sub64}
use hamsa.Server.{ApiError, World}
use hamsa.Server.Rules.{Ends, imp-Ends}
use hamsa.Payment.Model.{PaymentDb, UnitBalance}
use hamsa.Payment.Balance.{
  BalanceAggregates, balance_aggregates, unit_balance, upsert, recompute_balance, find_balance,
}
use hamsa.Payment.Books.{PWorld, with_balance}
use hamsa.Payment.Statement.{
  open_total, live_total, debits, credits, received, positive_part, balance_aggregates-Totals,
  Totals, clamp-positive_part, positive_part-nonneg,
}

find-upsert :
    (b : UnitBalance) (xs : List UnitBalance)
    → find (λ x. x.unit_id == b.unit_id) (upsert b xs) ≡ some b
find-upsert b [] = ground arith
find-upsert b (x ∷ xs) = ground (arith, find-upsert b xs)

find-upsert_other :
    (u : ℕ) (b : UnitBalance) (xs : List UnitBalance)
    → (u == b.unit_id) ≡ false
    → find (λ x. x.unit_id == u) (upsert b xs) ≡ find (λ x. x.unit_id == u) xs
find-upsert_other u b [] h = ground arith
find-upsert_other u b (x ∷ xs) h = ground (arith, find-upsert_other u b xs)

abbrev unstamped : UnitBalance → UnitBalance
unstamped b = record b { updated_at = 0 }

upsert_again :
    (b : UnitBalance) (now : ℕ) (xs : List UnitBalance)
    → map unstamped (upsert (record b { updated_at = now }) (upsert b xs))
      ≡ map unstamped (upsert b xs)
upsert_again b now [] = ground arith
upsert_again b now (x ∷ xs) = ground (arith, upsert_again b now xs)

pub recompute_balance-Ends :
    (u : ℕ) (w : PWorld)
    → Ends
        (λ b w'.
          (b ≡ unit_balance u (balance_aggregates u w.db) w.now)
          × (w'.db ≡ with_balance u w.now w.db))
        (λ _ w'. w'.db ≡ w.db)
        (recompute_balance u w)
unfolding recompute_balance hamsa.Server.Monad.query hamsa.Server.Monad.exec
    hamsa.Server.Monad.time_now
recompute_balance-Ends u w = ground arith

abbrev without_balances : PaymentDb → PaymentDb
without_balances db = record db { balances = [] }

-- The stored row of the unit is b. Its parts are sums over the tables, with the carry of an int64:
-- what the open invoices of the unit say, the adjustments of its invoices that are not cancelled,
-- and its verified payments. The rows of other units, and all other tables, stay.
pub record Position (u : ℕ) (w : PWorld) (b : UnitBalance) (w' : PWorld) : Type 0 where
  pub prior : b.prior_debt ≡ add64 (open_total u (λ i. i.prior_debt) w.db) (debits u w.db)
  pub current : b.current_invoice_amount ≡ open_total u (λ i. i.base_amount) w.db
  pub late : b.late_fee_total ≡ open_total u (λ i. i.late_fee_amount) w.db
  pub paid : b.paid_total ≡ open_total u (λ i. i.paid_amount) w.db
  pub credited : b.credit ≡ add64 (open_total u (λ i. i.credit_amount) w.db) (credits u w.db)
  pub owed :
      b.balance
      ≡ positive_part (
          sub64
            (sub64
              (add64 (add64 b.prior_debt b.current_invoice_amount) b.late_fee_total)
              b.paid_total)
            b.credit)
  pub held :
      b.credit_asset
      ≡ positive_part (
          sub64 (received u w.db) (
            add64
              (live_total u (λ i. i.paid_amount) w.db)
              (live_total u (λ i. i.credit_amount) w.db)))
  pub not_negative : (pos 0 ≤ℤ b.balance) × (pos 0 ≤ℤ b.credit_asset)
  pub stamped : b.updated_at ≡ w.now
  pub stored : find_balance u w'.db ≡ some b
  pub others : (v : ℕ) → (v == u) ≡ false → find_balance v w'.db ≡ find_balance v w.db
  pub tables : without_balances w'.db ≡ without_balances w.db

find-unit_balance :
    (u : ℕ) (agg : BalanceAggregates) (now : ℕ) (xs : List UnitBalance)
    → find (λ x. x.unit_id == u) (upsert (unit_balance u agg now) xs)
      ≡ some (unit_balance u agg now)
unfolding unit_balance
find-unit_balance u agg now xs = find-upsert (unit_balance u agg now) xs

find-unit_balance_other :
    (u v : ℕ) (agg : BalanceAggregates) (now : ℕ) (xs : List UnitBalance)
    → (v == u) ≡ false
    → find (λ x. x.unit_id == v) (upsert (unit_balance u agg now) xs)
      ≡ find (λ x. x.unit_id == v) xs
unfolding unit_balance
find-unit_balance_other u v agg now xs h = find-upsert_other v (unit_balance u agg now) xs h

-- The balance and the credit asset before a negative one becomes 0.
abbrev net : BalanceAggregates → ℤ
net agg =
    sub64 (sub64 (add64 (add64 (add64 agg.prior agg.debit_adj) agg.current) agg.late) agg.paid)
      (add64 agg.credit agg.credit_adj)

abbrev surplus : BalanceAggregates → ℤ
surplus agg = sub64 agg.verified (add64 agg.absorbed_paid agg.absorbed_credit)

position :
    (u : ℕ) (w : PWorld) (agg : BalanceAggregates) (b : UnitBalance) (w' : PWorld)
    → Totals u w.db agg
    → b ≡ unit_balance u agg w.now
    → w'.db ≡ record w.db { balances = upsert (unit_balance u agg w.now) w.db.balances }
    → Position u w b w'
unfolding unit_balance
position u w agg b w' t e d = record {
  prior = ap (λ x. x.prior_debt) e ∙ (λ i. add64 (t.prior i) (t.debits i));
  current = ap (λ x. x.current_invoice_amount) e ∙ t.current;
  late = ap (λ x. x.late_fee_total) e ∙ t.late;
  paid = ap (λ x. x.paid_total) e ∙ t.paid;
  credited = ap (λ x. x.credit) e ∙ (λ i. add64 (t.credit i) (t.credits i));
  owed = rw e (clamp-positive_part (net agg));
  held = ap (λ x. x.credit_asset) e ∙ clamp-positive_part (surplus agg) ∙ (λ i.
      positive_part (sub64 (t.received i) (add64 (t.absorbed_paid i) (t.absorbed_credit i))));
  not_negative = rw e (positive_part-nonneg (net agg), positive_part-nonneg (surplus agg));
  stamped = ap (λ x. x.updated_at) e;
  stored = ap (find_balance u) d ∙ find-unit_balance u agg w.now w.db.balances ∙ ap some (sym e);
  others = λ v h. ap (find_balance v) d ∙ find-unit_balance_other u v agg w.now w.db.balances h;
  tables = ap without_balances d;
}

-- A recomputation that succeeds returns and stores the row of the unit, stamped with the time. In int64 arithmetic
-- its prior debt is that of the unit's open invoices (unpaid, partial or expired) and the debit adjustments of the
-- invoices of the unit that are not cancelled, its credit likewise with the credit adjustments, and its current amount, late fees and
-- payments are those of the open invoices. The balance is prior debt, current amount and late fees less payments and
-- credit; the credit asset is the verified payments of the unit less what its invoices that are not cancelled
-- absorbed; and a negative result of either is stored as 0. The rows of other units and all other tables stay. One that
-- fails leaves the database as it was.
pub recompute_balance-Position :
    (u : ℕ) (w : PWorld) → Ends (Position u w) (λ _ w'. w'.db ≡ w.db) (recompute_balance u w)
recompute_balance-Position u w =
    imp-Ends _ _
      (λ b w'.
        (b ≡ unit_balance u (balance_aggregates u w.db) w.now)
        × (w'.db ≡ with_balance u w.now w.db))
      (λ _ w'. w'.db ≡ w.db) (recompute_balance u w) (recompute_balance-Ends u w)
      (λ b w' q.
        position u w (balance_aggregates u w.db) b w' (balance_aggregates-Totals u w.db) q.0 q.1)
      (λ _ _ e. e)

-- The tables, with the stamps of the balances left out.
abbrev timeless : PaymentDb → PaymentDb
timeless db = record db { balances = map unstamped db.balances }

-- The row of the unit is b again, stamped with the time; every other row, and every other column of the tables, stays.
abbrev pub Restamped : ℕ → UnitBalance → PWorld → UnitBalance → PWorld → Type 0
Restamped u b w b' w' =
    (b' ≡ record b { updated_at = w.now })
    × (timeless w'.db ≡ timeless w.db)
    × ((v : ℕ) → (v == u) ≡ false → find_balance v w'.db ≡ find_balance v w.db)

restamped :
    (u : ℕ) (agg : BalanceAggregates) (now later : ℕ) (db : PaymentDb)
    → timeless (record db {
      balances = upsert (unit_balance u agg later) (upsert (unit_balance u agg now) db.balances);
    })
      ≡ timeless (record db { balances = upsert (unit_balance u agg now) db.balances })
unfolding unit_balance
restamped u agg now later db =
    ap (λ bs. record db { balances = bs }) (upsert_again (unit_balance u agg now) later db.balances)

aggregates_same :
    (u now : ℕ) (db : PaymentDb)
    → balance_aggregates u (with_balance u now db) ≡ balance_aggregates u db
unfolding balance_aggregates
aggregates_same u now db = refl

again :
    (u : ℕ) (w w1 later : PWorld) (b b' : UnitBalance) (w2 : PWorld)
    → b ≡ unit_balance u (balance_aggregates u w.db) w.now
    → w1.db ≡ with_balance u w.now w.db
    → b' ≡ unit_balance u (balance_aggregates u w1.db) later.now
    → w2.db ≡ with_balance u later.now w1.db
    → Restamped u b (record later { db = w1.db }) b' w2
unfolding unit_balance
again u w w1 later b b' w2 p q r s =
    let same = ap (balance_aggregates u) q ∙ aggregates_same u w.now w.db in
    (
      r
          ∙ ap (λ a. unit_balance u a later.now) same
          ∙ ap {A = UnitBalance} (λ x. record x { updated_at = later.now }) (sym p),
      ap timeless s
          ∙ (λ i. timeless (record (q i) {
            balances = upsert (unit_balance u (same i) later.now) (q i).balances;
          }))
          ∙ restamped u (balance_aggregates u w.db) w.now later.now w.db
          ∙ ap timeless (sym q),
      λ v h.
          ap (find_balance v) s
          ∙ find-unit_balance_other u v (balance_aggregates u w1.db) later.now w1.db.balances h,
    )

-- A second recomputation on the same tables, at any time and whatever faults the database then has, returns the row of the first with
-- the stamp of the new time where it succeeds, and changes nothing but that stamp; where it fails it changes nothing.
pub recompute_balance-recompute_balance :
    (u : ℕ) (w later : PWorld)
    → Ends
        (λ b w1.
          Ends
            (Restamped u b (record later { db = w1.db }))
            (λ _ w2. w2.db ≡ w1.db)
            (recompute_balance u (record later { db = w1.db })))
        (λ _ w'. w'.db ≡ w.db)
        (recompute_balance u w)
recompute_balance-recompute_balance u w later =
    imp-Ends _ _
      (λ b w'.
        (b ≡ unit_balance u (balance_aggregates u w.db) w.now)
        × (w'.db ≡ with_balance u w.now w.db))
      (λ _ w'. w'.db ≡ w.db) (recompute_balance u w) (recompute_balance-Ends u w)
      (λ b w1 q.
        imp-Ends _ _
          (λ b' w2.
            (b' ≡ unit_balance u (balance_aggregates u w1.db) later.now)
            × (w2.db ≡ with_balance u later.now w1.db))
          (λ _ w2. w2.db ≡ w1.db) (recompute_balance u (record later { db = w1.db }))
          (recompute_balance-Ends u (record later { db = w1.db }))
          (λ b' w2 r. again u w w1 later b b' w2 q.0 q.1 r.0 r.1) (λ _ _ e. e))
      (λ _ _ e. e)
