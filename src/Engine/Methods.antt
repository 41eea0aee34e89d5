-- ===== src/Engine/Methods.antt =====
-- The six calculation methods (engine.go, lines 93-315).
pub mod Shares
pub mod Distribute
pub mod Success
use hamsa.Base.{
  ℕ, ◌+◌, Bool, true, false, ◌&&◌, ◌||◌, not, List, [], ◌∷◌, map, Option, none, some, length,
  is_empty, keep, exists, ltb, ◌==◌, if◌then◌else◌,
}
use mathlib.Core.List.{foldl}
use hamsa.Base.Int.{ℤ, pos, leb_ℤ, eqb_ℤ}
use hamsa.Base.Int64.{add64, mul64}
use hamsa.Base.Results.{Result, ok, err, panic, ◌>>=◌}
use hamsa.Engine.Rat
use hamsa.Engine.Rat.{Rat}
use hamsa.Engine.Model.{
  Method, equal, per_occupant, per_area, fixed, specific_units, combined, other, ComboWeight,
  CostItem, EngineUnit, Share, ItemResult, EngineError, no_participants, zero_factor,
  specific_units_empty, bad_weights, non_positive_total, unknown_method,
}
use hamsa.Engine.Rounding.{allocate_largest_remainder}

abbrev pub Outcome : Type 0 → Type 0
Outcome = Result EngineError

-- The vacant-inclusion rule.
unfoldable pub participants : CostItem → List EngineUnit → List EngineUnit
participants item = keep (λ u. not (u.vacant && not item.include_vacant))

-- `sortShares`: by unit id. The ids of a result are distinct, so every sort gives this list.
unfoldable pub insert_share : Share → List Share → List Share
insert_share s [] = s ∷ []
insert_share s (x ∷ xs) = if ltb x.unit_id s.unit_id then x ∷ insert_share s xs else s ∷ x ∷ xs

unfoldable pub sort_shares : List Share → List Share
unfolding insert_share
sort_shares [] = []
sort_shares (x ∷ xs) = insert_share x (sort_shares xs)

-- The loops that add up `sh.Rounded`.
unfoldable pub sum_shares_from : ℤ → List Share → ℤ
sum_shares_from acc [] = acc
sum_shares_from acc (x ∷ xs) = sum_shares_from (add64 acc x.rounded) xs

unfoldable pub sum_shares : ItemResult → ℤ
unfolding sum_shares_from
sum_shares res = sum_shares_from (pos 0) res.shares

-- `Share{UnitID: u.ID, Exact: exacts[i], Rounded: rounded[i]}` for every i.
unfoldable pub make_shares : List EngineUnit → List Rat → List ℤ → List Share
make_shares (u ∷ us) (e ∷ es) (r ∷ rs) =
    record { unit_id = u.id; exact = e; rounded = r } ∷ make_shares us es rs
make_shares _ _ _ = []

unfoldable pub sum_weights : List Rat → Rat
sum_weights = foldl Rat.add (Rat.set_int (pos 0))

unfoldable pub exact_shares : ℤ → List Rat → List Rat
unfolding sum_weights
exact_shares total weights =
    map (λ w. Rat.mul (Rat.set_int total) (Rat.quo w (sum_weights weights))) weights

-- The result of `distribute` from its unsorted shares.
unfoldable pub close_item : ℕ → ℤ → List Share → ItemResult
unfolding sort_shares sum_shares_from
close_item item_id total unsorted =
    let shares = sort_shares unsorted in
    record {
      cost_item_id = item_id;
      total_used = total;
      shares = shares;
      reconciled = eqb_ℤ (sum_shares_from (pos 0) shares) total;
    }

-- `distribute` once the weights are computed.
unfoldable pub distribute_by : ℕ → ℤ → List EngineUnit → List Rat → Outcome ItemResult
unfolding exact_shares make_shares close_item
distribute_by item_id total els weights =
    if Rat.is_zero (sum_weights weights)
    then err zero_factor
    else (allocate_largest_remainder total (exact_shares total weights) >>= λ rounded.
        ok (close_item item_id total (make_shares els (exact_shares total weights) rounded)))

unfoldable pub distribute : ℕ → ℤ → List EngineUnit → (EngineUnit → Rat) → Outcome ItemResult
unfolding distribute_by
distribute item_id total els weight =
    if is_empty els then err no_participants else distribute_by item_id total els (map weight els)

unfoldable pub rat_one : EngineUnit → Rat
rat_one u = Rat.set_int (pos 1)

unfoldable pub by_occupants : EngineUnit → Rat
by_occupants u = Rat.set_int u.occupants

unfoldable pub by_area : EngineUnit → Rat
by_area u = Rat.set_int u.area_m2

unfoldable pub fixed_share : ℤ → EngineUnit → Share
fixed_share amount u = record { unit_id = u.id; exact = Rat.set_int amount; rounded = amount }

unfoldable pub calc_fixed : CostItem → List EngineUnit → Outcome ItemResult
unfolding participants sort_shares fixed_share
calc_fixed item units =
    let els = participants item units in
    if is_empty els
    then err no_participants
    else ok (record {
      cost_item_id = item.id;
      total_used = mul64 item.fixed_amount_per_unit (pos (length els));
      shares = sort_shares (map (fixed_share item.fixed_amount_per_unit) els);
      reconciled = true;
    })

-- The units whose id is listed, in the order of the building's units.
unfoldable pub selected : List ℕ → List EngineUnit → List EngineUnit
selected ids = keep (λ u. exists (λ id. id == u.id) ids)

unfoldable pub calc_specific : CostItem → List EngineUnit → Outcome ItemResult
unfolding selected distribute rat_one
calc_specific item units =
    let els = selected item.unit_ids units in
    if is_empty item.unit_ids
    then err specific_units_empty
    else if is_empty els
    then err specific_units_empty
    else distribute item.id item.total els rat_one
