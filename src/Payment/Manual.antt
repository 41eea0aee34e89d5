-- ===== src/Payment/Manual.antt =====
-- Theorems on manual payments (backend/internal/payment/service.go, lines 218-276).
use hamsa.Base.{
  not, sym, Bool-cases, inl, inr, ◌≡◌, refl, ap, ◌∙◌, true, false, Option, none, some, ℕ, ◌/◌,
}
use hamsa.Base.Int.{ℤ, pos, leb_ℤ}
use hamsa.Server.{
  ApiError, World, M, ◌>>◌, ◌>>=◌, transaction, pure, fail_if, conflict, invoice_cancelled, new_id,
  forbidden, not_permitted, bad_request, amount_invalid,
}
use hamsa.Server.Rules.{Ends, bind-Ends, imp-Ends, fail_if-Ends, guard_lem}
use hamsa.Payment.Model.{Payment, LedgerInvoice}
use hamsa.Payment.Balance.{Pay}
use hamsa.Payment.Service.{
  User, PaidAt, today, bad_date, on_day, ManualPaymentInput, authorized_invoice, ledger_row,
  is_void, manual_payment, record_manual, create_payment, settle_invoice, notify_recorded,
  parse_amount, parse_date,
}
use hamsa.Payment.Books.{
  PWorld, books, booked, authorized_invoice-Ends, booking-Ends, notify_recorded-books,
}

-- The payment of a positive amount is stored for an invoice that is not cancelled, the invoice has
-- it counted, and the balance of the unit follows.
pub record Recorded (u : User) (invoice_id : ℕ) (w : PWorld) (p : Payment) (w' : PWorld)
    : Type 0 where
  pub invoice : LedgerInvoice
  pub stored : ledger_row invoice_id w.db ≡ some invoice
  pub live : is_void invoice.status ≡ false
  pub positive : leb_ℤ p.amount (pos 0) ≡ false
  pub by_manager : u.is_manager ≡ true
  pub for_invoice : p.invoice_id ≡ some invoice.id
  pub after : books w'.db ≡ books (booked p invoice p.amount w.now w.db)

abbrev pub NoWrite : PWorld → ApiError → PWorld → Type 0
NoWrite w e w' = w'.db ≡ w.db

module _ (u : User) (invoice_id : ℕ) (input : ManualPaymentInput) (w : PWorld) where
  abbrev Done : Payment → PWorld → Type 0
  Done = Recorded u invoice_id w

  -- From the stored invoice on.
  abbrev book : ℤ → ℕ → LedgerInvoice → ℕ → Pay Payment
  book amount day inv id = do
    let p = manual_payment id inv amount day input u.id
    transaction (create_payment p >> settle_invoice inv amount)
    notify_recorded p
    pure p

  book-Done :
      u.is_manager ≡ true
      → (amount : ℤ) (day : ℕ) (inv : LedgerInvoice) (id : ℕ) (w1 : PWorld)
      → leb_ℤ amount (pos 0) ≡ false
      → is_void inv.status ≡ false
      → ledger_row invoice_id w.db ≡ some inv
      → w1.db ≡ w.db
      → w1.now ≡ w.now
      → Ends Done (NoWrite w) (book amount day inv id w1)
  book-Done is_manager amount day inv id w1 a v s k n =
      let p : Payment = manual_payment id inv amount day input u.id in
      bind-Ends Done (NoWrite w) (transaction (create_payment p >> settle_invoice inv amount))
        (λ _. notify_recorded p >> pure p) w1
        (imp-Ends _ _ (λ _ w'. w'.db ≡ booked p inv amount w1.now w1.db) (λ _ w'. w'.db ≡ w1.db)
          (transaction (create_payment p >> settle_invoice inv amount) w1)
          (booking-Ends p inv amount w1)
          (λ _ w2 e.
            bind-Ends Done (NoWrite w) (notify_recorded p) (λ _. pure p) w2
              (imp-Ends _ _ (λ _ w'. books w'.db ≡ books w2.db) (λ _ _. ⊥) (notify_recorded p w2)
                (notify_recorded-books p w2)
                (λ _ w3 f. record {
                  invoice = inv;
                  stored = s;
                  live = v;
                  positive = a;
                  by_manager = is_manager;
                  for_invoice = refl;
                  after = f ∙ ap books e ∙ (λ i. books (booked p inv amount (n i) (k i)));
                })
                (λ _ _ f. absurd f)))
          (λ _ _ e. e ∙ k))

  -- From the access check on.
  abbrev charge_invoice : ℤ → ℕ → LedgerInvoice → Pay Payment
  charge_invoice amount day inv =
      fail_if (is_void inv.status) (conflict invoice_cancelled) >> (new_id >>= book amount day inv)

  charge_invoice-Done :
      u.is_manager ≡ true
      → (amount : ℤ) (day : ℕ) (w0 : PWorld) → leb_ℤ amount (pos 0) ≡ false
      → w0.db ≡ w.db
      → w0.now ≡ w.now
      → Ends Done (NoWrite w) ((authorized_invoice u invoice_id >>= charge_invoice amount day) w0)
  unfolding hamsa.Server.Monad.new_id
  charge_invoice-Done is_manager amount day w0 a k n =
      bind-Ends Done (NoWrite w) (authorized_invoice u invoice_id) (charge_invoice amount day) w0 (
        imp-Ends _ _
          (λ inv w'. (ledger_row invoice_id w0.db ≡ some inv) × (w'.db ≡ w0.db) × (w'.now ≡ w0.now))
          (λ _ w'. w'.db ≡ w0.db) (authorized_invoice u invoice_id w0)
          (authorized_invoice-Ends u invoice_id w0)
          (λ inv w1 q. elim (Bool-cases (is_void inv.status)) [
            | inl v ↦ rw v (q.1 ∙ k)
            | inr v ↦ rw v (
                book-Done is_manager amount day inv _ _ a v
                  (ap (ledger_row invoice_id) (sym k) ∙ q.0) (q.1 ∙ k) (q.2 ∙ n))
          ])
          (λ _ _ e. e ∙ k))

  from_date-Done :
      u.is_manager ≡ true
      → (amount : ℤ) (d : PaidAt) → leb_ℤ amount (pos 0) ≡ false
      → Ends Done (NoWrite w) (
          (parse_date d >>= λ day. authorized_invoice u invoice_id >>= charge_invoice amount day) w)
  unfolding hamsa.Server.Monad.time_now
  from_date-Done is_manager amount today a =
      charge_invoice-Done is_manager amount (w.now / 86400) w a refl refl
  from_date-Done is_manager amount bad_date a = refl
  from_date-Done is_manager amount (on_day d) a =
      charge_invoice-Done is_manager amount d w a refl refl

  from_amount-Done :
      u.is_manager ≡ true
      → (o : Option ℤ)
      → Ends Done (NoWrite w) (
          (parse_amount o >>= λ amount. parse_date input.paid_at >>= λ day.
          authorized_invoice u invoice_id >>= charge_invoice amount day)
            w)
  from_amount-Done is_manager none = refl
  from_amount-Done is_manager (some amount) = elim (Bool-cases (leb_ℤ amount (pos 0))) [
    | inl a ↦ rw a refl
    | inr a ↦ rw a (from_date-Done is_manager amount input.paid_at a)
  ]

pub record_manual-Recorded :
    (u : User) (invoice_id : ℕ) (input : ManualPaymentInput) (w : PWorld)
    → Ends (Recorded u invoice_id w) (NoWrite w) (record_manual u invoice_id input w)
unfolding record_manual
record_manual-Recorded u invoice_id input w =
    bind-Ends (Recorded u invoice_id w) (NoWrite w)
      (fail_if (not u.is_manager) (forbidden not_permitted))
      (λ _. parse_amount input.amount >>= λ amount. parse_date input.paid_at >>= λ day.
        authorized_invoice u invoice_id >>= charge_invoice u invoice_id input w amount day)
      w
      (fail_if-Ends _ (NoWrite w) (not u.is_manager) (forbidden not_permitted) w
        (λ m. from_amount-Done u invoice_id input w (guard_lem u.is_manager m) input.amount)
        (λ _. refl))
