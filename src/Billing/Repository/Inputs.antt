-- ===== src/Billing/Repository/Inputs.antt =====
-- What a calculation and a notification read (backend/internal/billing/repository.go).
use hamsa.Base.{
  ℕ, ◌&&◌, not, List, [], ◌∷◌, Option, none, some, keep, exists, ltb, leb, ◌==◌, if◌then◌else◌,
}
use hamsa.Base.Int.{ℤ, pos}
use hamsa.Server.{query}
use hamsa.Billing.Model.{BuildingUnit, OccupantCount, Resident}
use hamsa.Billing.Repository.PeriodRows.{Billing}

-- Calculation inputs.

unfoldable pub units_for_building : ℕ → Billing (List BuildingUnit)
units_for_building building_id =
    query (λ db. keep (λ u. u.building_id == building_id && not u.deleted) db.units)

-- The entry with the latest date not after ref.
abbrev latest_count : ℕ → ℕ → Option OccupantCount → List OccupantCount → ℤ
latest_count unit_id ref none [] = pos 0
latest_count unit_id ref (some c) [] = c.occupant_count
latest_count unit_id ref none (c ∷ cs) =
    latest_count unit_id ref
      (if c.unit_id == unit_id && leb c.effective_from ref then some c else none) cs
latest_count unit_id ref (some b) (c ∷ cs) =
    latest_count unit_id ref
      (if c.unit_id == unit_id && leb c.effective_from ref && ltb b.effective_from c.effective_from
        then some c
        else some b)
      cs

unfoldable pub occupant_count_as_of : ℕ → ℕ → Billing ℤ
occupant_count_as_of unit_id ref = query (λ db. latest_count unit_id ref none db.occupant_counts)

-- The users who live in the unit, each once.
abbrev pub distinct_users : List Resident → List ℕ
distinct_users [] = []
distinct_users (r ∷ rs) =
    let rest = distinct_users rs in
    if exists (λ u. u == r.user_id) rest then rest else r.user_id ∷ rest

unfoldable pub occupant_user_ids : ℕ → Billing (List ℕ)
occupant_user_ids unit_id =
    query (λ db. distinct_users (keep (λ r. r.unit_id == unit_id) db.residents))
