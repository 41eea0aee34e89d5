-- ===== src/Billing/Calculation/Previewing.antt =====
-- The preview of a calculated period (backend/internal/billing/calc_service.go).
use hamsa.Base.{
  ℕ, Bool, true, false, ◌&&◌, List, [], ◌∷◌, map, Option, none, some, keep, length, ◌==◌,
  if◌then◌else◌,
}
use hamsa.Base.Int.{ℤ, pos, eqb_ℤ}
use hamsa.Base.Int64.{add64, mul64}
use mathlib.Core.List.{reverse}
use hamsa.Engine.Combined.{is_fixed}
use hamsa.Server.{pure, ◌>>=◌, query}
use hamsa.Billing.Model.{BillingPeriod, CostItem, CostItemShare, Invoice}
use hamsa.Billing.Repository.{Billing, list_cost_items, units_for_building, list_shares_for_period}
use hamsa.Billing.Periods.{get_authorized_period}

-- The preview.

pub record PreviewItem : Type 0 where
  pub item : CostItem
  pub total_used : ℤ
  pub shares : List CostItemShare
  pub reconciled : Bool

pub record Preview : Type 0 where
  pub period : BillingPeriod
  pub items : List PreviewItem
  pub invoices : List Invoice
  pub reconciled : Bool

unfoldable sum_rounded : ℤ → List CostItemShare → ℤ
sum_rounded acc [] = acc
sum_rounded acc (s ∷ ss) = sum_rounded (add64 acc s.rounded_share) ss

-- The target of a fixed item is its amount per unit for each share row.
abbrev preview_target : CostItem → List CostItemShare → Option ℤ → ℤ
preview_target item shares none = item.total_amount
preview_target item shares (some amount) =
    if is_fixed item.method then mul64 amount (pos (length shares)) else item.total_amount

unfoldable preview_item : List CostItemShare → CostItem → PreviewItem
unfolding sum_rounded
preview_item shares item =
    let own = keep (λ s. s.cost_item_id == item.id) shares in
    let target = preview_target item own item.fixed_amount_per_unit in
    record {
      item = item;
      total_used = target;
      shares = own;
      reconciled = eqb_ℤ (sum_rounded (pos 0) own) target;
    }

abbrev all_reconciled : List PreviewItem → Bool
all_reconciled [] = true
all_reconciled (i ∷ is) = if i.reconciled then all_reconciled is else false

abbrev first_page : ℕ → List Invoice → List Invoice
first_page ℕ.zero is = []
first_page (ℕ.suc n) [] = []
first_page (ℕ.suc n) (i ∷ is) = i ∷ first_page n is

-- The list of invoices stops at the first page, of 100, and starts with the newest.
unfoldable preview : ℕ → ℕ → Billing Preview
unfolding get_authorized_period preview_item
preview manager period_id = do
  period ← get_authorized_period manager period_id
  items ← list_cost_items period_id
  shares ← list_shares_for_period period_id
  invoices ← query (λ db. first_page 100 (
      reverse
        (keep (λ i. i.building_id == period.building_id && i.period_id == period_id) db.invoices)))
  units ← units_for_building period.building_id
  let rows = map (preview_item shares) items
  pure (record {
    period = period;
    items = rows;
    invoices = invoices;
    reconciled = all_reconciled rows;
  })
