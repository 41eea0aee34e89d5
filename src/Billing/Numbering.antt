-- ===== src/Billing/Numbering.antt =====
-- Numbering a list of invoices (backend/internal/billing/repository.go, lines 329-339).
use hamsa.Base.{
  if◌then◌else◌, arith, ◌≡◌, refl, ap, ◌∙◌, Bool, true, false, ◌&&◌, not, some, ℕ, ◌==◌, List, [],
  ◌∷◌, update_where,
}
use hamsa.Base.Int.{ℤ, pos, eqb_ℤ}
use hamsa.Base.Int64.{add64}
use hamsa.Server.{exec?, tick}
use hamsa.Server.Rules.{Ends, bind-Ends, imp-Ends, exec?-Ends, both-Ends}
use hamsa.Billing.Model.{Invoice, InvoiceNumber, draft_number, building_number, BillingDb}
use hamsa.Billing.Repository.{number_invoice, number_all, stamp}
use hamsa.Billing.Lifecycle.{BWorld}

abbrev has_number : ℕ → ℤ → InvoiceNumber → Bool
has_number year seq (draft_number _) = false
has_number year seq (building_number y s) = y == year && eqb_ℤ s seq

-- Every row with this id has this number.
abbrev pub all_have : ℕ → ℕ → ℤ → List Invoice → Bool
all_have id year seq [] = true
all_have id year seq (i ∷ is) =
    if i.id == id && not (has_number year seq i.invoice_number)
    then false
    else all_have id year seq is

-- The invoices are numbered one after the other, from seq on.
abbrev pub Numbered : ℤ → ℕ → List Invoice → BillingDb → Type 0
Numbered seq year [] db = Unit
Numbered seq year (i ∷ is) db =
    (all_have i.id year seq db.invoices ≡ true) × Numbered (add64 seq (pos 1)) year is db

-- No invoice of the list has this id.
abbrev lacks : ℕ → List Invoice → Bool
lacks id [] = true
lacks id (i ∷ is) = if i.id == id then false else lacks id is

abbrev pub Distinct : List Invoice → Type 0
Distinct [] = Unit
Distinct (i ∷ is) = (lacks i.id is ≡ true) × Distinct is

eqb_ℤ-refl : (z : ℤ) → eqb_ℤ z z ≡ true
eqb_ℤ-refl z = ground arith

all_have-stamp :
    (id year now : ℕ) (seq : ℤ) (is : List Invoice)
    → all_have id year seq
        (update_where (λ i. i.id == id) (stamp (building_number year seq) now) is)
      ≡ true
all_have-stamp id year now seq [] = refl
all_have-stamp id year now seq (i ∷ is) = ground (arith, all_have-stamp id year now seq is)

all_have-stamp_other :
    (id id' year now : ℕ) (seq : ℤ) (n : InvoiceNumber) (is : List Invoice)
    → (id' == id) ≡ false
    → all_have id year seq is ≡ true
    → all_have id year seq (update_where (λ i. i.id == id') (stamp n now) is) ≡ true
all_have-stamp_other id id' year now seq n [] h k = refl
all_have-stamp_other id id' year now seq n (i ∷ is) h k =
    ground (arith, all_have-stamp_other id id' year now seq n is)

number_invoice-invoices :
    (id now : ℕ) (n : InvoiceNumber) (db d : BillingDb)
    → number_invoice id n now db ≡ some d
    → d.invoices ≡ update_where (λ i. i.id == id) (stamp n now) db.invoices
number_invoice-invoices id now n db d h = ground arith

-- Numbering invoices that lack the id keeps what its rows have.
number_all-keeps :
    (id year now : ℕ) (s seq : ℤ) (is : List Invoice) (w : BWorld)
    → lacks id is ≡ true
    → all_have id year s w.db.invoices ≡ true
    → Ends
        (λ _ w'. all_have id year s w'.db.invoices ≡ true)
        (λ _ _. Unit {0})
        (number_all seq year now is w)
unfolding number_all
number_all-keeps id year now s seq [] w l h = h
number_all-keeps id year now s seq (i ∷ is) w l h =
    bind-Ends (λ _ w'. all_have id year s w'.db.invoices ≡ true) (λ _ _. Unit {0})
      (exec? (number_invoice i.id (building_number year seq) now))
      (λ _. number_all (add64 seq (pos 1)) year now is) w
      (exec?-Ends
        (λ _ w1.
          Ends (λ _ w'. all_have id year s w'.db.invoices ≡ true) (λ _ _. Unit {0})
            (number_all (add64 seq (pos 1)) year now is w1))
        (λ _ _. Unit {0}) (number_invoice i.id (building_number year seq) now) w
        (λ d e. number_all-keeps id year now s (add64 seq (pos 1)) is _ (ground arith) (
          ap (all_have id year s)
            (number_invoice-invoices i.id now (building_number year seq) w.db d e)
          ∙ all_have-stamp_other id i.id year now s (building_number year seq) w.db.invoices
              (ground arith) h))
        tt)

pub number_all-Numbered :
    (year now : ℕ) (seq : ℤ) (is : List Invoice) (w : BWorld)
    → Distinct is
    → Ends (λ _ w'. Numbered seq year is w'.db) (λ _ _. Unit {0}) (number_all seq year now is w)
unfolding number_all
number_all-Numbered year now seq [] w h = tt
number_all-Numbered year now seq (i ∷ is) w h =
    bind-Ends (λ _ w'. Numbered seq year (i ∷ is) w'.db) (λ _ _. Unit {0})
      (exec? (number_invoice i.id (building_number year seq) now))
      (λ _. number_all (add64 seq (pos 1)) year now is) w
      (exec?-Ends
        (λ _ w1.
          Ends (λ _ w'. Numbered seq year (i ∷ is) w'.db) (λ _ _. Unit {0})
            (number_all (add64 seq (pos 1)) year now is w1))
        (λ _ _. Unit {0}) (number_invoice i.id (building_number year seq) now) w
        (λ d e.
          let w1 : BWorld = record (tick w) { db = d } in
          imp-Ends _ _
            (λ _ w'.
              (all_have i.id year seq w'.db.invoices ≡ true)
              × Numbered (add64 seq (pos 1)) year is w'.db)
            (λ _ _. Unit {0} × Unit {0}) (number_all (add64 seq (pos 1)) year now is w1)
            (both-Ends (λ _ w'. all_have i.id year seq w'.db.invoices ≡ true)
              (λ _ w'. Numbered (add64 seq (pos 1)) year is w'.db) (λ _ _. Unit {0})
              (λ _ _. Unit {0}) (number_all (add64 seq (pos 1)) year now is w1)
              (number_all-keeps i.id year now seq (add64 seq (pos 1)) is w1 h.0 (
                ap (all_have i.id year seq)
                  (number_invoice-invoices i.id now (building_number year seq) w.db d e)
                ∙ all_have-stamp i.id year now seq w.db.invoices))
              (number_all-Numbered year now (add64 seq (pos 1)) is w1 h.1))
            (λ _ w' q. q) (λ _ _ _. tt))
        tt)
