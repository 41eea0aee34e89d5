-- ===== src/Payment/Callback.antt =====
-- The gateway's callback (backend/internal/payment/service.go, lines 334-401).
use hamsa.Base.{
  arith, ◌≡◌, refl, ap, ◌∙◌, subst, Bool, true, false, ◌&&◌, not, Option, none, some, ℕ, find,
  if◌then◌else◌,
}
use hamsa.Base.Int.{ℤ}
use hamsa.Server.{
  ApiError, database, World, ◌>>◌, ◌>>=◌, exec, transaction, pure, first, map_error, not_found,
  callback_unknown, tick,
}
use hamsa.Server.Rules.{Ends, bind-Ends, imp-Ends, transaction-Ends, exec-Ends}
use hamsa.Payment.Model.{Payment, failed, verified, LedgerInvoice, PaymentDb}
use hamsa.Payment.Balance.{put_payment, find_payment}
use hamsa.Payment.Service.{
  Gateway, CallbackParams, by_payment_id, by_authority, missing, is_recorded, is_gateway,
  has_authority, ledger_row, settle_payment, settle_invoice, finish_callback, verify_payment,
  handle_callback, callback_payment, notify_recorded, invoice_for_update,
}
use hamsa.Payment.Books.{PWorld, books, settled, settle_invoice-Ends, notify_recorded-books}
use hamsa.Payment.Manual.{NoWrite}

-- The row that a callback names.
abbrev pub named : CallbackParams → PaymentDb → Option Payment
named (by_payment_id none) db = none
named (by_payment_id (some id)) db = find_payment id db
named (by_authority a) db =
    find (λ p. has_authority a p.authority && is_recorded p.status) db.payments
named missing db = none

-- A gateway payment that waits for its verification.
abbrev pub is_pending : Payment → Bool
is_pending p = is_recorded p.status && is_gateway p.method

abbrev says_paid : Option (Bool × ℕ) → Bool
says_paid none = false
says_paid (some (b, ref)) = b

-- What the transaction of a verified payment does to the tables.
abbrev Settles : ℤ → ℕ → Option ℕ → PaymentDb → PaymentDb → Type 0
Settles amount now none d d' = books d' ≡ books d
Settles amount now (some id) d d' =
    (inv : LedgerInvoice) × (ledger_row id d ≡ some inv)
    × (books d' ≡ books (settled inv amount now d))

pub data Finalized (gw : Gateway) (w : PWorld) (p : Payment) (p' : Payment) (w' : PWorld)
    : Type 0 where
  unlinked : p.authority ≡ none → p' ≡ p → w'.db ≡ w.db → Finalized gw w p p' w'
  replayed : is_pending p ≡ false → p' ≡ p → w'.db ≡ w.db → Finalized gw w p p' w'
  refused :
      (a : ℕ)
      → p.authority ≡ some a
      → is_pending p ≡ true
      → says_paid (gw.verify a p.amount) ≡ false
      → p' ≡ record p { status = failed }
      → w'.db ≡ put_payment p' w.db
      → Finalized gw w p p' w'
  paid :
      (a ref : ℕ)
      → p.authority ≡ some a
      → is_pending p ≡ true
      → gw.verify a p.amount ≡ some (true, ref)
      → p' ≡ record p { status = verified; tracking_number = some ref }
      → Settles p.amount w.now p.invoice_id (put_payment p' w.db) w'.db
      → Finalized gw w p p' w'

invoice_for_update-Ends :
    (id : ℕ) (w : PWorld)
    → Ends
        (λ inv w'. (ledger_row id w.db ≡ some inv) × (w'.db ≡ w.db) × (w'.now ≡ w.now))
        (λ _ _. Unit {0})
        (invoice_for_update id w)
unfolding invoice_for_update hamsa.Server.Monad.query hamsa.Server.Monad.first
invoice_for_update-Ends id w = ground arith

settle_payment-Ends :
    (p : Payment) (o : Option ℕ) (w : PWorld)
    → Ends (λ _ w'. Settles p.amount w.now o w.db w'.db) (λ _ _. Unit {0}) (settle_payment p o w)
settle_payment-Ends p none w = refl
settle_payment-Ends p (some id) w =
    bind-Ends (λ _ w'. Settles p.amount w.now (some id) w.db w'.db) (λ _ _. Unit {0})
      (invoice_for_update id) (λ inv. settle_invoice inv p.amount) w
      (imp-Ends _ _ (λ inv w'. (ledger_row id w.db ≡ some inv) × (w'.db ≡ w.db) × (w'.now ≡ w.now))
        (λ _ _. Unit {0}) (invoice_for_update id w) (invoice_for_update-Ends id w)
        (λ inv w1 q.
          imp-Ends _ _ (λ _ w'. w'.db ≡ settled inv p.amount w1.now w1.db) (λ e _. e ≡ database)
            (settle_invoice inv p.amount w1) (settle_invoice-Ends inv p.amount w1)
            (λ _ w2 e. (inv, q.0, ap books (e ∙ (λ i. settled inv p.amount (q.2 i) (q.1 i)))))
            (λ _ _ _. tt))
        (λ _ _ _. tt))

Settles-books :
    (amount : ℤ) (now : ℕ) (o : Option ℕ) (d d1 d2 : PaymentDb)
    → books d2 ≡ books d1
    → Settles amount now o d d1
    → Settles amount now o d d2
Settles-books amount now none d d1 d2 f s = f ∙ s
Settles-books amount now (some id) d d1 d2 f s = (s.0, s.1, f ∙ s.2)

settle_tx-Ends :
    (p : Payment) (o : Option ℕ) (w : PWorld)
    → Ends
        (λ _ w'. Settles p.amount w.now o (put_payment p w.db) w'.db)
        (NoWrite w)
        (transaction (exec (put_payment p) >> settle_payment p o) w)
settle_tx-Ends p o w =
    let Q : Unit {0} → PWorld → Type 0 =
      λ _ w'. Settles p.amount w.now o (put_payment p w.db) w'.db in
    transaction-Ends Q (NoWrite w) (exec (put_payment p) >> settle_payment p o) w (
      bind-Ends (λ _ w'. Q tt (tick w') × (w.db ≡ w.db)) (λ _ w'. w.db ≡ w.db)
        (exec (put_payment p)) (λ _. settle_payment p o) w
        (exec-Ends
          (λ _ w1.
            Ends (λ _ w'. Q tt (tick w') × (w.db ≡ w.db)) (λ _ w'. w.db ≡ w.db)
              (settle_payment p o w1))
          (λ _ _. w.db ≡ w.db) (put_payment p) w
          (imp-Ends _ _ (λ _ w'. Q tt w') (λ _ _. Unit {0})
            (settle_payment p o (record (tick w) { db = put_payment p w.db }))
            (settle_payment-Ends p o (record (tick w) { db = put_payment p w.db }))
            (λ _ w2 q. (q, refl)) (λ _ _ _. refl))
          refl))

module _ (gw : Gateway) (w : PWorld) (p : Payment) (w1 : PWorld) (k : w1.db ≡ w.db)
    (n : w1.now ≡ w.now) (a : ℕ) (ha : p.authority ≡ some a) (hp : is_pending p ≡ true) where
  refuse-Ends :
      says_paid (gw.verify a p.amount) ≡ false
      → Ends (Finalized gw w p) (NoWrite w) (
          (exec (put_payment (record p { status = failed })) >> pure (record p { status = failed }))
            w1)
  refuse-Ends h =
      bind-Ends (Finalized gw w p) (NoWrite w) (exec (put_payment (record p { status = failed })))
        (λ _. pure (record p { status = failed })) w1
        (exec-Ends (λ _ w'. Finalized gw w p (record p { status = failed }) w') (NoWrite w)
          (put_payment (record p { status = failed })) w1
          (refused a ha hp h refl (ap (put_payment (record p { status = failed })) k)) k)

  accept-Ends :
      (ref : ℕ)
      → gw.verify a p.amount ≡ some (true, ref)
      → Ends (Finalized gw w p) (NoWrite w) (finish_callback p (some (true, ref)) w1)
  accept-Ends ref h =
      let p' : Payment = record p { status = verified; tracking_number = some ref } in
      bind-Ends (Finalized gw w p) (NoWrite w)
        (transaction (exec (put_payment p') >> settle_payment p' p.invoice_id))
        (λ _. notify_recorded p' >> pure p') w1
        (imp-Ends _ _ (λ _ w'. Settles p.amount w1.now p.invoice_id (put_payment p' w1.db) w'.db)
          (NoWrite w1) (transaction (exec (put_payment p') >> settle_payment p' p.invoice_id) w1)
          (settle_tx-Ends p' p.invoice_id w1)
          (λ _ w2 s.
            bind-Ends (Finalized gw w p) (NoWrite w) (notify_recorded p') (λ _. pure p') w2
              (imp-Ends _ _ (λ _ w'. books w'.db ≡ books w2.db) (λ _ _. ⊥) (notify_recorded p' w2)
                (notify_recorded-books p' w2)
                (λ _ w3 f. paid a ref ha hp h refl (
                  subst (λ t. Settles p.amount t p.invoice_id (put_payment p' w.db) w3.db) n
                    (subst (λ d. Settles p.amount w1.now p.invoice_id (put_payment p' d) w3.db) k
                      (Settles-books p.amount w1.now p.invoice_id (put_payment p' w1.db) w2.db w3.db
                        f s))))
                (λ _ _ e. absurd e)))
          (λ _ _ e. e ∙ k))

  finish-Ends :
      (o : Option (Bool × ℕ))
      → gw.verify a p.amount ≡ o
      → Ends (Finalized gw w p) (NoWrite w) (finish_callback p o w1)
  finish-Ends none e = refuse-Ends (ap says_paid e)
  finish-Ends (some (false, ref)) e = refuse-Ends (ap says_paid e)
  finish-Ends (some (true, ref)) e = accept-Ends ref e

verify-Ends :
    (gw : Gateway) (w : PWorld) (p : Payment) (w1 : PWorld) (o : Option ℕ)
    → w1.db ≡ w.db
    → w1.now ≡ w.now
    → p.authority ≡ o
    → Ends (Finalized gw w p) (NoWrite w) (verify_payment gw p o w1)
verify-Ends gw w p w1 none k n e = unlinked e refl k
verify-Ends gw w p w1 (some a) k n e = go (is_pending p) refl
  where
    go :
        (b : Bool)
        → is_pending p ≡ b
        → Ends
            (Finalized gw w p)
            (NoWrite w)
            ((if not b then pure p else finish_callback p (gw.verify a p.amount)) w1)
    go false h = replayed h refl k
    go true h = finish-Ends gw w p w1 k n a e h (gw.verify a p.amount) refl

callback_payment-Ends :
    (params : CallbackParams) (w : PWorld)
    → Ends
        (λ p w'. (named params w.db ≡ some p) × (w'.db ≡ w.db) × (w'.now ≡ w.now))
        (NoWrite w)
        (callback_payment params w)
unfolding callback_payment hamsa.Server.Monad.first
callback_payment-Ends (by_payment_id none) w = refl
callback_payment-Ends (by_payment_id (some id)) w = ground arith
callback_payment-Ends (by_authority a) w = ground arith
callback_payment-Ends missing w = refl

-- The callback answered with p', which the named row became.
abbrev pub Answered : Gateway → CallbackParams → PWorld → Payment → PWorld → Type 0
Answered gw params w p' w' = (p : Payment) × (named params w.db ≡ some p) × Finalized gw w p p' w'

pub handle_callback-Answered :
    (gw : Gateway) (params : CallbackParams) (w : PWorld)
    → Ends (Answered gw params w) (NoWrite w) (handle_callback gw params w)
unfolding handle_callback
handle_callback-Answered gw params w =
    bind-Ends (Answered gw params w) (NoWrite w) (callback_payment params)
      (λ p. verify_payment gw p p.authority) w
      (imp-Ends _ _ (λ p w'. (named params w.db ≡ some p) × (w'.db ≡ w.db) × (w'.now ≡ w.now))
        (NoWrite w) (callback_payment params w) (callback_payment-Ends params w)
        (λ p w1 q.
          imp-Ends _ _ (Finalized gw w p) (NoWrite w) (verify_payment gw p p.authority w1)
            (verify-Ends gw w p w1 p.authority q.1 q.2 refl) (λ _ _ f. (p, q.0, f)) (λ _ _ e. e))
        (λ _ _ e. e))
