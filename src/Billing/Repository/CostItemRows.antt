-- ===== src/Billing/Repository/CostItemRows.antt =====
-- The rows of cost items (backend/internal/billing/repository.go).
use hamsa.Base.{ℕ, Bool, ◌&&◌, not, List, [], ◌∷◌, ◌++◌, keep, find, exists, update_where, ◌==◌}
use hamsa.Server.{query, exec, first}
use hamsa.Billing.Model.{CostItem}
use hamsa.Billing.Repository.PeriodRows.{Billing}

-- Cost items.

unfoldable pub get_cost_item : ℕ → Billing CostItem
get_cost_item id = first (λ db. find (λ c. c.id == id) db.cost_items)

unfoldable pub list_cost_items : ℕ → Billing (List CostItem)
list_cost_items period_id = query (λ db. keep (λ c. c.period_id == period_id) db.cost_items)

unfoldable pub is_manager_of : ℕ → ℕ → Billing Bool
is_manager_of user_id building_id =
    query (λ db. exists (λ g. g.user_id == user_id && g.building_id == building_id) db.grants)

unfoldable pub create_cost_item : CostItem → Billing (Unit {0})
create_cost_item c = exec (λ db. record db { cost_items = db.cost_items ++ c ∷ [] })

unfoldable pub save_cost_item : CostItem → Billing (Unit {0})
save_cost_item c =
    exec (λ db. record db { cost_items = update_where (λ d. d.id == c.id) (λ _. c) db.cost_items })

-- The shares of the item are deleted with it (ON DELETE CASCADE).
unfoldable pub delete_cost_item : ℕ → Billing (Unit {0})
delete_cost_item id = exec (λ db. record db {
  cost_items = keep (λ c. not (c.id == id)) db.cost_items;
  shares = keep (λ s. not (s.cost_item_id == id)) db.shares;
})
