-- ===== src/Billing/Replacement.antt =====
-- What a calculation may not store (backend/internal/billing/repository.go, lines 159-192, with the
-- triggers and the column types of backend/migrations).
use hamsa.Base.{
  arith, ◌≡◌, refl, Bool, true, false, ◌&&◌, not, ℕ, exists, ◌==◌, List, [], ◌∷◌, inl, inr,
  Bool-cases,
}
use hamsa.Base.Int.{ℤ, pos, leb_ℤ}
use hamsa.Server.{ApiError, World, transaction, for_each, ◌>>◌, ◌>>=◌, M}
use hamsa.Server.Rules.{Ends, bind-Ends, imp-Ends, transaction-Ends}
use hamsa.Billing.Model.{BillingDb, InvoiceItem, CostItemShare, percent}
use hamsa.Billing.Repository.{
  InvoiceWithItems, is_cost_method, insert_item, insert_invoice, insert_share,
  insert_invoice_with_items, delete_shares, delete_invoices, replace_calculation, period_is_frozen,
  Billing,
}
use hamsa.Billing.Calculation.{fee_items}
use hamsa.Billing.Lifecycle.{BWorld, Unchanged}

-- Some row has a method that the column does not take.
abbrev has_alien : List InvoiceItem → Bool
has_alien = exists (λ j. not (is_cost_method j.method))

abbrev Any : {A : Type 0} → A → BWorld → Type 0
Any _ _ = Unit {0}

abbrev Never : {A : Type 0} → A → BWorld → Type 0
Never _ _ = ⊥

insert_item-Any : (j : InvoiceItem) (w : BWorld) → Ends Any Any (insert_item j w)
unfolding insert_item hamsa.Server.Monad.exec?
insert_item-Any j w = ground arith

insert_item-Never :
    (j : InvoiceItem) (w : BWorld)
    → is_cost_method j.method ≡ false
    → Ends Never Any (insert_item j w)
unfolding insert_item hamsa.Server.Monad.exec?
insert_item-Never j w h = ground arith

insert_invoice-Any : (x : InvoiceWithItems) (w : BWorld) → Ends Any Any (insert_invoice x.invoice w)
unfolding insert_invoice hamsa.Server.Monad.exec
insert_invoice-Any x w = ground arith

insert_share-Any : (s : CostItemShare) (w : BWorld) → Ends Any Any (insert_share s w)
unfolding insert_share hamsa.Server.Monad.exec
insert_share-Any s w = ground arith

-- A step that may fail, before one that never succeeds.
then-Never :
    (m n : Billing (Unit {0})) (w : BWorld)
    → Ends Any Any (m w)
    → ((w' : BWorld) → Ends Never Any (n w'))
    → Ends Never Any ((m >> n) w)
then-Never m n w h k =
    bind-Ends Never Any m (λ _. n) w (imp-Ends _ _ Any Any (m w) h (λ _ w' _. k w') (λ _ _ _. tt))

then-Any :
    (m n : Billing (Unit {0})) (w : BWorld)
    → Ends Any Any (m w)
    → ((w' : BWorld) → Ends Any Any (n w'))
    → Ends Any Any ((m >> n) w)
then-Any m n w h k =
    bind-Ends Any Any m (λ _. n) w (imp-Ends _ _ Any Any (m w) h (λ _ w' _. k w') (λ _ _ _. tt))

for_each-Any :
    {A : Type 0} (f : A → Billing (Unit {0})) (xs : List A) (w : BWorld)
    → ((x : A) (w' : BWorld) → Ends Any Any (f x w'))
    → Ends Any Any (for_each f xs w)
for_each-Any f [] w h = tt
for_each-Any f (x ∷ xs) w h =
    then-Any (f x) (for_each f xs) w (h x w) (λ w'. for_each-Any f xs w' h)

-- A loop that meets an element whose step never succeeds.
for_each-Never :
    {A : Type 0} (f : A → Billing (Unit {0})) (bad : A → Bool) (xs : List A) (w : BWorld)
    → ((x : A) (w' : BWorld) → Ends Any Any (f x w'))
    → ((x : A) (w' : BWorld) → bad x ≡ true → Ends Never Any (f x w'))
    → exists bad xs ≡ true
    → Ends Never Any (for_each f xs w)
for_each-Never f bad [] w a n h = cc
for_each-Never f bad (x ∷ xs) w a n h = elim (Bool-cases (bad x)) [
  | inl e ↦
      bind-Ends Never Any (f x) (λ _. for_each f xs) w
        (imp-Ends _ _ Never Any (f x w) (n x w e) (λ _ _ q. absurd q) (λ _ _ _. tt))
  | inr e ↦
      then-Never (f x) (for_each f xs) w (a x w)
        (λ w'. for_each-Never f bad xs w' a n (ground arith))
]

insert_invoice_with_items-Any :
    (x : InvoiceWithItems) (w : BWorld) → Ends Any Any (insert_invoice_with_items x w)
unfolding insert_invoice_with_items
insert_invoice_with_items-Any x w =
    then-Any (insert_invoice x.invoice) _ w (insert_invoice-Any x w) (λ w'.
      for_each-Any (λ j. insert_item (record j { invoice_id = x.invoice.id })) x.items w'
        (λ j. insert_item-Any _))

insert_invoice_with_items-Never :
    (x : InvoiceWithItems) (w : BWorld)
    → has_alien x.items ≡ true
    → Ends Never Any (insert_invoice_with_items x w)
unfolding insert_invoice_with_items
insert_invoice_with_items-Never x w h =
    then-Never (insert_invoice x.invoice) _ w (insert_invoice-Any x w) (λ w'.
      for_each-Never (λ j. insert_item (record j { invoice_id = x.invoice.id }))
        (λ j. not (is_cost_method j.method)) x.items w' (λ j. insert_item-Any _)
        (λ j v e. insert_item-Never _ v (ground arith)) h)

delete_shares-Any : (id : ℕ) (w : BWorld) → Ends Any Any (delete_shares id w)
unfolding delete_shares hamsa.Server.Monad.exec
delete_shares-Any id w = ground arith

delete_invoices-Any : (id : ℕ) (w : BWorld) → Ends Any Any (delete_invoices id w)
unfolding delete_invoices hamsa.Server.Monad.exec?
delete_invoices-Any id w = ground arith

-- A transaction that never succeeds changes nothing.
transaction-Never :
    (m : Billing (Unit {0})) (w : BWorld)
    → Ends Never Any (m w)
    → Ends Never (Unchanged w) (transaction m w)
transaction-Never m w h =
    transaction-Ends Never (Unchanged w) m w
      (imp-Ends _ _ Never Any (m w) h (λ _ _ q. absurd q) (λ _ _ _. refl))

-- A calculation that holds an invoice with an item of a method that is no cost method is never
-- stored: it fails, whatever the database does, and the database is as it was.
pub replace_calculation-has_alien :
    (id : ℕ) (shares : List CostItemShare) (xs : List InvoiceWithItems) (w : BWorld)
    → exists (λ x. has_alien x.items) xs ≡ true
    → Ends Never (Unchanged w) (replace_calculation id shares xs w)
unfolding replace_calculation
replace_calculation-has_alien id shares xs w h = transaction-Never _ w (
    then-Never (delete_shares id) _ w (delete_shares-Any id w) (λ w1.
      then-Never (delete_invoices id) _ w1 (delete_invoices-Any id w1) (λ w2.
        then-Never (for_each insert_share shares) _ w2
          (for_each-Any insert_share shares w2 insert_share-Any)
          (λ w3.
            for_each-Never insert_invoice_with_items (λ x. has_alien x.items) xs w3
              insert_invoice_with_items-Any insert_invoice_with_items-Never h))))

-- A positive late fee in percent makes such an item.
fee_items-percent :
    (fee : ℤ) (w : BWorld)
    → leb_ℤ fee (pos 0) ≡ false
    → Ends (λ js _. has_alien js ≡ true) Never (fee_items percent fee w)
unfolding fee_items hamsa.Server.Monad.new_id
fee_items-percent fee w h = ground arith

-- The period has invoices, and is issued or closed.
abbrev has_frozen : ℕ → BillingDb → Bool
has_frozen id db = exists (λ i. i.period_id == id) db.invoices && period_is_frozen id db

delete_shares-has_frozen :
    (id : ℕ) (w : BWorld)
    → has_frozen id w.db ≡ true
    → Ends (λ _ w'. has_frozen id w'.db ≡ true) Any (delete_shares id w)
unfolding delete_shares hamsa.Server.Monad.exec
delete_shares-has_frozen id w h = ground arith

delete_invoices-has_frozen :
    (id : ℕ) (w : BWorld) → has_frozen id w.db ≡ true → Ends Never Any (delete_invoices id w)
unfolding delete_invoices hamsa.Server.Monad.exec?
delete_invoices-has_frozen id w h = ground arith

-- The invoices of an issued or closed period are never replaced: the calculation fails, whatever the database
-- does, and the database is as it was.
pub replace_calculation-has_frozen :
    (id : ℕ) (shares : List CostItemShare) (xs : List InvoiceWithItems) (w : BWorld)
    → has_frozen id w.db ≡ true
    → Ends Never (Unchanged w) (replace_calculation id shares xs w)
unfolding replace_calculation
replace_calculation-has_frozen id shares xs w h = transaction-Never _ w (
    bind-Ends Never Any (delete_shares id)
      (λ _.
        delete_invoices id
        >> (for_each insert_share shares >> for_each insert_invoice_with_items xs))
      w
      (imp-Ends _ _ (λ _ w'. has_frozen id w'.db ≡ true) Any (delete_shares id w)
        (delete_shares-has_frozen id w h)
        (λ _ w1 k.
          bind-Ends Never Any (delete_invoices id)
            (λ _. for_each insert_share shares >> for_each insert_invoice_with_items xs) w1
            (imp-Ends _ _ Never Any (delete_invoices id w1) (delete_invoices-has_frozen id w1 k)
              (λ _ _ q. absurd q) (λ _ _ _. tt)))
        (λ _ _ _. tt)))
