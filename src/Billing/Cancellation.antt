-- ===== src/Billing/Cancellation.antt =====
-- Corrections of invoices (backend/internal/billing/period_service.go, lines 462-565).
use hamsa.Base.{arith, ◌≡◌, refl, ap, ◌∙◌, true, not, List, [], ◌∷◌, some, ℕ, ◌==◌, update_where}
use hamsa.Server.{
  ApiError, World, ◌>>◌, ◌>>=◌, fail_if, conflict, invoice_not_cancellable, pure, best_effort,
  for_each,
}
use hamsa.Server.Rules.{Ends, bind-Ends, imp-Ends, fail_if-Ends, exec-Ends, guard_lem, world-Ends}
use hamsa.Billing.Model.{Invoice, cancelled, invoice_voided, BillingDb}
use hamsa.Billing.Repository.{
  Billing, InvoiceDetails, find_invoice, get_invoice, set_invoice_status, is_manager_of,
}
use hamsa.Billing.Periods.{
  authorized_invoice, authorize_building, is_cancellable, cancel_invoice, append_audit,
  recompute_balances,
}
use hamsa.Billing.Lifecycle.{BWorld, Unchanged, manages}

authorized_invoice-Ends :
    (manager id : ℕ) (w : BWorld)
    → Ends
        (λ d w'.
          (find_invoice id w.db ≡ some d.invoice)
          × (manages manager d.invoice.building_id w.db ≡ true)
          × (w'.db ≡ w.db))
        (Unchanged w)
        (authorized_invoice manager id w)
unfolding authorized_invoice get_invoice authorize_building is_manager_of hamsa.Server.Monad.query
    hamsa.Server.Monad.first
authorized_invoice-Ends manager id w = ground arith

-- The invoices with this invoice cancelled.
abbrev cancelled_in : ℕ → BillingDb → List Invoice
cancelled_in id db =
    update_where (λ i. i.id == id) (λ i. record i { status = cancelled }) db.invoices

-- The recomputation changes no invoice, and does not panic.
abbrev KeepsInvoices : (ℕ → Billing (Unit {0})) → Type 0
KeepsInvoices recompute =
    (id : ℕ) (w : BWorld)
    → Ends (λ _ w'. w'.db.invoices ≡ w.db.invoices) (λ _ w'. w'.db.invoices ≡ w.db.invoices)
        (recompute id w)

abbrev pub Cancelled : ℕ → ℕ → BWorld → InvoiceDetails → BWorld → Type 0
Cancelled manager id w i' w' =
    (i : Invoice) × (find_invoice id w.db ≡ some i)
    × (manages manager i.building_id w.db ≡ true)
    × (is_cancellable i.status ≡ true)
    × (i'.invoice ≡ record i { status = cancelled })
    × (w'.db.invoices ≡ cancelled_in id w.db)

module _ (recompute : ℕ → Billing (Unit {0})) (k : KeepsInvoices recompute) (manager id : ℕ) where
  abbrev wind_up : InvoiceDetails → Billing InvoiceDetails
  wind_up i =
      best_effort (append_audit manager invoice_voided id)
      >> (recompute_balances recompute (id ∷ [])
          >> pure (record i { invoice = record i.invoice { status = cancelled } }))

  wind_up-Ends :
      (i : InvoiceDetails) (w : BWorld)
      → Ends
          (λ i' w'.
            (i'.invoice ≡ record i.invoice { status = cancelled })
            × (w'.db.invoices ≡ w.db.invoices))
          (λ _ _. ⊥)
          (wind_up i w)
  unfolding append_audit recompute_balances hamsa.Server.Monad.exec hamsa.Server.Monad.best_effort
  wind_up-Ends i w =
      let w1 = (append_audit manager invoice_voided id w).1 in
      let e : w1.db.invoices ≡ w.db.invoices = ground arith in
      (refl, world-Ends (λ w'. w'.db.invoices ≡ w1.db.invoices) (recompute id w1) (k id w1) ∙ e)

  void_and_wind_up :
      (i : InvoiceDetails) (w w1 : BWorld)
      → find_invoice id w.db ≡ some i.invoice
      → manages manager i.invoice.building_id w.db ≡ true
      → is_cancellable i.invoice.status ≡ true
      → w1.db ≡ w.db
      → Ends
          (Cancelled manager id w)
          (Unchanged w)
          ((set_invoice_status id cancelled >> wind_up i) w1)
  unfolding set_invoice_status
  void_and_wind_up i w w1 f g c d =
      bind-Ends (Cancelled manager id w) (Unchanged w) (set_invoice_status id cancelled)
        (λ _. wind_up i) w1
        (exec-Ends (λ _ w2. Ends (Cancelled manager id w) (Unchanged w) (wind_up i w2))
          (Unchanged w) (λ db. record db { invoices = cancelled_in id db }) w1
          (imp-Ends _ _
            (λ i' w'.
              (i'.invoice ≡ record i.invoice { status = cancelled })
              × (w'.db.invoices ≡ cancelled_in id w1.db))
            (λ _ _. ⊥) (wind_up i _) (wind_up-Ends i _)
            (λ i' w3 q. (i.invoice, f, g, c, q.0, q.1 ∙ ap (cancelled_in id) d))
            (λ _ _ q. absurd q))
          d)

pub cancel_invoice-Cancelled :
    (recompute : ℕ → Billing (Unit {0})) (manager id : ℕ) (w : BWorld)
    → KeepsInvoices recompute
    → Ends (Cancelled manager id w) (Unchanged w) (cancel_invoice recompute manager id w)
unfolding cancel_invoice
cancel_invoice-Cancelled recompute manager id w k =
    bind-Ends (Cancelled manager id w) (Unchanged w) (authorized_invoice manager id)
      (λ i.
        fail_if (not (is_cancellable i.invoice.status)) (conflict invoice_not_cancellable)
        >> (set_invoice_status id cancelled >> wind_up recompute k manager id i))
      w
      (imp-Ends _ _
        (λ i w'.
          (find_invoice id w.db ≡ some i.invoice)
          × (manages manager i.invoice.building_id w.db ≡ true)
          × (w'.db ≡ w.db))
        (Unchanged w) (authorized_invoice manager id w) (authorized_invoice-Ends manager id w)
        (λ i w1 q.
          bind-Ends (Cancelled manager id w) (Unchanged w)
            (fail_if (not (is_cancellable i.invoice.status)) (conflict invoice_not_cancellable))
            (λ _. set_invoice_status id cancelled >> wind_up recompute k manager id i) w1
            (fail_if-Ends _ (Unchanged w) (not (is_cancellable i.invoice.status))
              (conflict invoice_not_cancellable) w1
              (λ c. void_and_wind_up recompute k manager id i w w1 q.0 q.1 (guard_lem _ c) q.2)
              (λ _. q.2)))
        (λ _ _ e. e))
