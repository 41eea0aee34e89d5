-- ===== src/Billing/Calculation/Lines.antt =====
-- The shares of the cost items and the rows of an invoice (backend/internal/billing/calc_service.go).
use hamsa.Base.{ℕ, List, [], ◌∷◌, ◌++◌, none, some, if◌then◌else◌}
use hamsa.Base.Int.{ℤ, pos, leb_ℤ}
use hamsa.Base.Int64.{add64, sub64}
use hamsa.Engine.Model.{Method, Share, EngineUnit}
use hamsa.Engine.Combined.{is_fixed}
use hamsa.Engine.Combined
use hamsa.Server.{pure, ◌>>=◌, new_id}
use hamsa.Billing.Model.{
  LateFeeType, charge, late_fee as late_fee_kind, cost_method, fee_type, CostItem, CostItemShare,
  InvoiceItem,
}
use hamsa.Billing.Repository.{Billing}
use hamsa.Billing.Calculation.Snapshots.{from_engine, engine_item}

-- One cost item's rounded share, awaiting the invoice of its unit.
pub record ChargeLine : Type 0 where
  pub unit_id : ℕ
  pub item_id : ℕ
  pub method : Method
  pub amount : ℤ

abbrev charge_lines : CostItem → List Share → List ChargeLine
charge_lines item [] = []
charge_lines item (s ∷ ss) =
    record { unit_id = s.unit_id; item_id = item.id; method = item.method; amount = s.rounded }
    ∷ charge_lines item ss

unfoldable share_rows : ℕ → List Share → Billing (List CostItemShare)
share_rows item_id [] = pure []
share_rows item_id (s ∷ ss) = do
  id ← new_id
  rest ← share_rows item_id ss
  pure (
      record {
        id = id;
        cost_item_id = item_id;
        unit_id = s.unit_id;
        exact_share = s.exact;
        rounded_share = s.rounded;
      }
      ∷ rest)

-- The loop over the cost items.
unfoldable pub run_items :
    List EngineUnit → List CostItem → Billing (List CostItemShare × List ChargeLine)
unfolding share_rows engine_item
run_items units [] = pure ([], [])
run_items units (item ∷ items) = do
  res ← from_engine (Combined.calculate (engine_item item) units)
  rows ← share_rows item.id res.shares
  (shares, lines) ← run_items units items
  pure (rows ++ shares, charge_lines item res.shares ++ lines)

-- `base += int64(line.amount)` over the lines of the unit.
unfoldable pub base_amount : ℤ → List ChargeLine → ℤ
base_amount base [] = base
base_amount base (l ∷ ls) = base_amount (add64 base l.amount) ls

unfoldable pub charge_items : List ChargeLine → Billing (List InvoiceItem)
charge_items [] = pure []
charge_items (l ∷ ls) = do
  id ← new_id
  rest ← charge_items ls
  pure (
      record {
        id = id;
        invoice_id = 0;
        kind = charge;
        cost_item_id = some l.item_id;
        amount = l.amount;
        method = some (cost_method l.method);
        adjustment_id = none;
      }
      ∷ rest)

-- The row of the late fee, if there is one.
unfoldable pub fee_items : LateFeeType → ℤ → Billing (List InvoiceItem)
fee_items kind fee = if leb_ℤ fee (pos 0) then pure [] else do
  id ← new_id
  pure (
      record {
        id = id;
        invoice_id = 0;
        kind = late_fee_kind;
        cost_item_id = none;
        amount = fee;
        method = some (fee_type kind);
        adjustment_id = none;
      }
      ∷ [])

-- `base + priorDebt + lateFee - credit`
unfoldable pub final_amount : ℤ → ℤ → ℤ → ℤ → ℤ
final_amount base prior_debt fee credit = sub64 (add64 (add64 base prior_debt) fee) credit
