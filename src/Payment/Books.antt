-- ===== src/Payment/Books.antt =====
-- The building blocks of the payment transactions: access, settling an invoice, and
-- notifications (backend/internal/payment/service.go).
use hamsa.Base.{keep, ◌==◌, arith, ◌≡◌, refl, ◌∙◌, ◌++◌, List, [], ◌∷◌, some, ℕ}
use hamsa.Base.Int.{ℤ}
use hamsa.Base.Int64.{add64}
use hamsa.Server.{
  ApiError, database, World, for_each, best_effort, ◌>>◌, ◌>>=◌, query, transaction, tick,
}
use hamsa.Server.Rules.{Ends, bind-Ends, imp-Ends, query-Ends, world-Ends}
use hamsa.Payment.Model.{Payment, LedgerInvoice, PaymentDb}
use hamsa.Payment.Balance.{recompute_balance, balance_aggregates, unit_balance, upsert}
use hamsa.Payment.Service.{
  User, settle_invoice, set_paid, apply_to_invoice, notify_user, notify_recorded, distinct_users,
  authorized_invoice, ledger_row, create_payment, can_access_unit, invoice_for_update,
  resident_unit_ids,
}

abbrev pub PWorld : Type 0
PWorld = World PaymentDb

-- The database without its notifications.
abbrev pub books : PaymentDb → PaymentDb
books db = record db { notifications = [] }

-- The balance of the unit is recomputed, and stamped with the time.
abbrev pub with_balance : ℕ → ℕ → PaymentDb → PaymentDb
with_balance unit_id now db = record db {
  balances = upsert (unit_balance unit_id (balance_aggregates unit_id db) now) db.balances;
}

-- The invoice has the payment counted, and its unit the balance that follows.
abbrev pub settled : LedgerInvoice → ℤ → ℕ → PaymentDb → PaymentDb
settled inv amount now db = with_balance inv.unit_id now (
    set_paid inv.id (add64 inv.paid_amount (apply_to_invoice inv amount).applied)
      (apply_to_invoice inv amount).status db)

pub settle_invoice-Ends :
    (inv : LedgerInvoice) (amount : ℤ) (w : PWorld)
    → Ends
        (λ _ w'. w'.db ≡ settled inv amount w.now w.db)
        (λ e _. e ≡ database)
        (settle_invoice inv amount w)
unfolding settle_invoice hamsa.Payment.Service.apply_invoice_paid recompute_balance
    hamsa.Server.Monad.query hamsa.Server.Monad.exec hamsa.Server.Monad.time_now
settle_invoice-Ends inv amount w = ground arith

pub authorized_invoice-Ends :
    (u : User) (id : ℕ) (w : PWorld)
    → Ends
        (λ inv w'. (ledger_row id w.db ≡ some inv) × (w'.db ≡ w.db) × (w'.now ≡ w.now))
        (λ _ w'. w'.db ≡ w.db)
        (authorized_invoice u id w)
unfolding authorized_invoice can_access_unit invoice_for_update resident_unit_ids
    hamsa.Server.Monad.query hamsa.Server.Monad.first
authorized_invoice-Ends u id w = ground arith

abbrev KeepsBooks : PWorld → Unit {0} → PWorld → Type 0
KeepsBooks w _ w' = books w'.db ≡ books w.db

notify_user-books :
    (id u : ℕ) (w : PWorld) → Ends (KeepsBooks w) (λ _ _. ⊥) (best_effort (notify_user id u) w)
unfolding notify_user hamsa.Server.Monad.exec hamsa.Server.Monad.best_effort
    hamsa.Server.Monad.new_id
notify_user-books id u w = ground arith

notify_all-books :
    (id : ℕ) (us : List ℕ) (w : PWorld)
    → Ends (KeepsBooks w) (λ _ _. ⊥) (for_each (λ u. best_effort (notify_user id u)) us w)
notify_all-books id [] w = refl
notify_all-books id (u ∷ us) w =
    bind-Ends (KeepsBooks w) (λ _ _. ⊥) (best_effort (notify_user id u))
      (λ _. for_each (λ v. best_effort (notify_user id v)) us) w
      (imp-Ends _ _ (KeepsBooks w) (λ _ _. ⊥) (best_effort (notify_user id u) w)
        (notify_user-books id u w)
        (λ _ w1 e.
          imp-Ends _ _ (KeepsBooks w1) (λ _ _. ⊥)
            (for_each (λ v. best_effort (notify_user id v)) us w1) (notify_all-books id us w1)
            (λ _ w2 f. f ∙ e) (λ _ _ f. f))
        (λ _ _ f. f))

abbrev residents_of : Payment → PaymentDb → List ℕ
residents_of p db = distinct_users (keep (λ r. r.unit_id == p.unit_id) db.residents)

pub notify_recorded-books :
    (p : Payment) (w : PWorld) → Ends (KeepsBooks w) (λ _ _. ⊥) (notify_recorded p w)
unfolding notify_recorded hamsa.Server.Monad.best_effort
notify_recorded-books p w =
    world-Ends (λ w'. books w'.db ≡ books w.db) _
      (bind-Ends (KeepsBooks w) (λ _ w'. books w'.db ≡ books w.db) (query (residents_of p))
        (λ us. for_each (λ u. best_effort (notify_user p.id u)) us) w
        (query-Ends
          (λ us w1.
            Ends (KeepsBooks w) (λ _ w'. books w'.db ≡ books w.db)
              (for_each (λ u. best_effort (notify_user p.id u)) us w1))
          (λ _ w'. books w'.db ≡ books w.db) (residents_of p) w
          (imp-Ends _ _ (KeepsBooks w) (λ _ _. ⊥)
            (for_each (λ u. best_effort (notify_user p.id u)) (residents_of p w.db) (tick w))
            (notify_all-books p.id (residents_of p w.db) (tick w)) (λ _ w2 e. e)
            (λ _ _ e. absurd e))
          refl))

abbrev pub booked : Payment → LedgerInvoice → ℤ → ℕ → PaymentDb → PaymentDb
booked p inv amount now db = settled inv amount now (record db { payments = db.payments ++ p ∷ [] })

pub booking-Ends :
    (p : Payment) (inv : LedgerInvoice) (amount : ℤ) (w : PWorld)
    → Ends
        (λ _ w'. w'.db ≡ booked p inv amount w.now w.db)
        (λ _ w'. w'.db ≡ w.db)
        (transaction (create_payment p >> settle_invoice inv amount) w)
unfolding settle_invoice hamsa.Payment.Service.apply_invoice_paid recompute_balance create_payment
    hamsa.Server.Monad.query hamsa.Server.Monad.exec hamsa.Server.Monad.transaction
    hamsa.Server.Monad.time_now
booking-Ends p inv amount w = ground arith
