-- ===== src/Billing/Invoicing.antt =====
-- The invoice of one unit (backend/internal/billing/calc_service.go, lines 185-243).
use hamsa.Base.{
  ◌+◌, arith, ◌≡◌, refl, ap, ◌∙◌, none, some, ℕ, keep, ◌==◌, List, [], ◌∷◌, ◌++◌, if◌then◌else◌,
}
use hamsa.Base.Int.{ℤ, pos, leb_ℤ}
use hamsa.Base.Int64.{add64, sub64}
use hamsa.Base.Results.{Result, ok, err, panic, Sound}
use hamsa.Engine.Rat.{Rat}
use hamsa.Engine.Fees.{FeeKind, late_fee}
use hamsa.Engine.Model.{EngineError}
use hamsa.Server.{ApiError, World, ◌>>◌, ◌>>=◌, new_id, pure}
use hamsa.Server.Rules.{Ends, bind-Ends, imp-Ends}
use hamsa.Billing.Model.{
  BillingPeriod, BuildingUnit, InvoiceItem, unpaid, LateFeeType, draft_number,
}
use hamsa.Billing.Repository.{InvoiceWithItems, Billing}
use hamsa.Billing.Calculation.{
  ChargeLine, base_amount, charge_items, fee_items, make_invoice, final_amount, from_engine,
  engine_fee,
}
use hamsa.Billing.Lifecycle.{BWorld}

-- The amounts of the items, added up the way Go adds.
abbrev items_total : ℤ → List InvoiceItem → ℤ
items_total acc [] = acc
items_total acc (j ∷ js) = items_total (add64 acc j.amount) js

items_total-++ :
    (acc : ℤ) (js ks : List InvoiceItem)
    → items_total acc (js ++ ks) ≡ items_total (items_total acc js) ks
items_total-++ acc [] ks = refl
items_total-++ acc (j ∷ js) ks = items_total-++ (add64 acc j.amount) js ks

charge_items-total :
    (acc : ℤ) (ls : List ChargeLine) (w : BWorld)
    → Ends (λ js _. items_total acc js ≡ base_amount acc ls) (λ _ _. ⊥) (charge_items ls w)
unfolding charge_items base_amount hamsa.Server.Monad.new_id
charge_items-total acc [] w = refl
charge_items-total acc (l ∷ ls) w =
    bind-Ends (λ js _. items_total acc js ≡ base_amount (add64 acc l.amount) ls) (λ _ _. ⊥)
      (charge_items ls) _ _
      (imp-Ends _ _
        (λ js _. items_total (add64 acc l.amount) js ≡ base_amount (add64 acc l.amount) ls)
        (λ _ _. ⊥) (charge_items ls _) (charge_items-total (add64 acc l.amount) ls _) (λ js _ e. e)
        (λ _ _ q. q))

abbrev with_fee : ℤ → ℤ → ℤ
with_fee base fee = if leb_ℤ fee (pos 0) then base else add64 base fee

fee_items-total :
    (acc fee : ℤ) (kind : LateFeeType) (w : BWorld)
    → Ends (λ js _. items_total acc js ≡ with_fee acc fee) (λ _ _. ⊥) (fee_items kind fee w)
unfolding fee_items hamsa.Server.Monad.new_id
fee_items-total acc fee kind w = ground arith

-- An open invoice of the unit whose parts add up.
pub record Composed (period : BillingPeriod) (lines : List ChargeLine) (u : BuildingUnit)
    (x : InvoiceWithItems) : Type 0 where
  pub for_unit : x.invoice.unit_id ≡ u.id
  pub for_period : x.invoice.period_id ≡ period.id
  pub is_open : x.invoice.status ≡ unpaid
  pub unpaid_yet : x.invoice.paid_amount ≡ pos 0
  pub base : x.invoice.base_amount ≡ base_amount (pos 0) (keep (λ l. l.unit_id == u.id) lines)
  pub items : items_total (pos 0) x.items ≡ with_fee x.invoice.base_amount x.invoice.late_fee_amount
  pub final :
      x.invoice.final_amount
      ≡ sub64
          (add64 (add64 x.invoice.base_amount x.invoice.prior_debt) x.invoice.late_fee_amount)
          x.invoice.credit_amount

module _ (period : BillingPeriod) (lines : List ChargeLine) (u : BuildingUnit) where
  abbrev Fine : InvoiceWithItems → BWorld → Type 0
  Fine x _ = Composed period lines u x

  abbrev Fails : ApiError → BWorld → Type 0
  Fails _ _ = Unit {0}

  abbrev mine : List ChargeLine
  mine = keep (λ l. l.unit_id == u.id) lines

  abbrev assemble : List InvoiceItem → ℤ × ℤ → ℤ → ℕ → ℕ → List InvoiceItem → InvoiceWithItems
  assemble charges pc fee id number fees = record {
    invoice = record {
      id = id;
      invoice_number = draft_number number;
      building_id = period.building_id;
      period_id = period.id;
      unit_id = u.id;
      base_amount = base_amount (pos 0) mine;
      prior_debt = pc.0;
      late_fee_amount = fee;
      credit_amount = pc.1;
      final_amount = final_amount (base_amount (pos 0) mine) pc.0 fee pc.1;
      issue_date = none;
      due_date = some period.due_date;
      status = unpaid;
      paid_amount = pos 0;
      inputs_frozen_at = none;
    };
    items = charges ++ fees;
  }

  assemble-Composed :
      (charges : List InvoiceItem) (pc : ℤ × ℤ) (fee : ℤ) (id number : ℕ) (fees : List InvoiceItem)
      → items_total (pos 0) charges ≡ base_amount (pos 0) mine
      → items_total (base_amount (pos 0) mine) fees ≡ with_fee (base_amount (pos 0) mine) fee
      → Composed period lines u (assemble charges pc fee id number fees)
  unfolding final_amount
  assemble-Composed charges pc fee id number fees c f = record {
    for_unit = refl;
    for_period = refl;
    is_open = refl;
    unpaid_yet = refl;
    base = refl;
    items = items_total-++ (pos 0) charges fees ∙ ap (λ z. items_total z fees) c ∙ f;
    final = refl;
  }

  abbrev add_fee : List InvoiceItem → ℤ × ℤ → ℤ → Billing InvoiceWithItems
  add_fee charges pc fee = new_id >>= λ id. new_id >>= λ number.
      fee_items period.late_fee_type fee >>= λ fees. pure (assemble charges pc fee id number fees)

  add_fee-Fine :
      (charges : List InvoiceItem) (pc : ℤ × ℤ) (fee : ℤ) (w : BWorld)
      → items_total (pos 0) charges ≡ base_amount (pos 0) mine
      → Ends Fine Fails (add_fee charges pc fee w)
  unfolding hamsa.Server.Monad.new_id
  add_fee-Fine charges pc fee w c =
      bind-Ends Fine Fails (fee_items period.late_fee_type fee)
        (λ fees. pure (assemble charges pc fee (w.uuid w.drawn) (w.uuid (w.drawn + 1)) fees)) _
        (imp-Ends _ _
          (λ js _.
            items_total (base_amount (pos 0) mine) js ≡ with_fee (base_amount (pos 0) mine) fee)
          (λ _ _. ⊥) (fee_items period.late_fee_type fee _)
          (fee_items-total (base_amount (pos 0) mine) fee period.late_fee_type _)
          (λ fees _ f. assemble-Composed charges pc fee _ _ fees c f) (λ _ _ _. tt))

  from_engine-Fine :
      (charges : List InvoiceItem) (pc : ℤ × ℤ) (r : Result EngineError ℤ) (w : BWorld)
      → Sound (λ _. Unit {0}) r
      → items_total (pos 0) charges ≡ base_amount (pos 0) mine
      → Ends Fine Fails ((from_engine r >>= add_fee charges pc) w)
  from_engine-Fine charges pc (ok fee) w s c = add_fee-Fine charges pc fee w c
  from_engine-Fine charges pc (err e) w s c = tt
  from_engine-Fine charges pc panic w s c = s

late_fee-Sound :
    (percent_of : Rat → Rat) (k : FeeKind) (v : Rat) (base days : ℤ)
    → Sound (λ _. Unit {0}) (late_fee percent_of k v base days)
unfolding late_fee
late_fee-Sound percent_of FeeKind.none v base days = tt
late_fee-Sound percent_of FeeKind.fixed v base days = tt
late_fee-Sound percent_of FeeKind.percent v base days = tt
late_fee-Sound percent_of FeeKind.per_day v base days = tt
late_fee-Sound percent_of FeeKind.other v base days = tt

-- Whatever division by 100 is used, and for every provider of balances that does not panic, composing the invoice of a
-- unit does not panic. The invoice is an open one of that unit and period, its base amount is the
-- sum of the unit's lines, its items add up to the base amount and the positive late fee, and its
-- final amount is the base amount and the prior debt and the late fee, less the credit (in the arithmetic
-- of Go).
pub make_invoice-Composed :
    (percent_of : Rat → Rat) (snapshot : ℕ → Billing (ℤ × ℤ)) (period : BillingPeriod)
    (lines : List ChargeLine) (u : BuildingUnit) (w : BWorld)
    → ((id : ℕ) (w' : BWorld) → Ends (λ _ _. Unit {0}) (λ _ _. Unit {0}) (snapshot id w'))
    → Ends
        (λ x _. Composed period lines u x)
        (λ _ _. Unit {0})
        (make_invoice percent_of snapshot period lines u w)
unfolding make_invoice
make_invoice-Composed percent_of snapshot period lines u w h =
    let base = base_amount (pos 0) (mine period lines u) in
    bind-Ends (Fine period lines u) (Fails period lines u) (charge_items (mine period lines u))
      (λ charges. snapshot u.id >>= λ pc.
        from_engine
          (late_fee percent_of (engine_fee period.late_fee_type) period.late_fee_value base (pos 0))
        >>= add_fee period lines u charges pc)
      w
      (imp-Ends _ _ (λ js _. items_total (pos 0) js ≡ base) (λ _ _. ⊥)
        (charge_items (mine period lines u) w) (charge_items-total (pos 0) (mine period lines u) w)
        (λ charges w1 c.
          bind-Ends (Fine period lines u) (Fails period lines u) (snapshot u.id)
            (λ pc.
              from_engine (
                late_fee percent_of (engine_fee period.late_fee_type) period.late_fee_value base
                  (pos 0))
              >>= add_fee period lines u charges pc)
            w1
            (imp-Ends _ _ (λ _ _. Unit {0}) (λ _ _. Unit {0}) (snapshot u.id w1) (h u.id w1)
              (λ pc w2 _.
                from_engine-Fine period lines u charges pc _ w2
                  (late_fee-Sound percent_of (engine_fee period.late_fee_type) period.late_fee_value
                    base (pos 0))
                  c)
              (λ _ _ _. tt)))
        (λ _ _ _. tt))
