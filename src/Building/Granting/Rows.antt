-- ===== src/Building/Granting/Rows.antt =====
-- What a new grant does to the rows of the grants (backend/internal/building/repository.go).
use hamsa.Base.{
  ℕ, ◌≡◌, true, [], ◌∷◌, some, ◌⊎◌, inl, inr, arith, find, exists-append, find-keeps, Option-cases,
}
use hamsa.Building.Model.{BuildingDb, BuildingManager}
use hamsa.Building.Repository.{has_grant, is_grant, add_grant, grant_row, promote}
use hamsa.Building.Handover.{OthersKeep}

-- The users are as before, or one of them was a resident and is a manager now.
abbrev pub Rise : BuildingDb → BuildingDb → Type 0
Rise db db' = (db'.users ≡ db.users) ⊎ ((id : ℕ) × (db'.users ≡ (promote id db).users))

-- Who had a grant has it still.
abbrev pub Keeps : BuildingDb → BuildingDb → Type 0
Keeps db db' = (u b : ℕ) → has_grant u b db ≡ true → has_grant u b db' ≡ true

pub add_grant-Keeps : (u b now : ℕ) (db : BuildingDb) → Keeps db (add_grant u b now db)
add_grant-Keeps u b now db v c h = ground (
  arith,
  exists-append (is_grant v c) db.grants
      (record { user_id = u; building_id = b; granted_at = now } ∷ []),
)

pub add_grant-others : (u b now : ℕ) (db : BuildingDb) → OthersKeep u b db (add_grant u b now db)
add_grant-others u b now db v c h = ground (
  arith,
  exists-append (is_grant v c) db.grants
      (record { user_id = u; building_id = b; granted_at = now } ∷ []),
)

pub add_grant-has : (u b now : ℕ) (db : BuildingDb) → has_grant u b (add_grant u b now db) ≡ true
add_grant-has u b now db = ground (
  arith,
  exists-append (is_grant u b) db.grants
      (record { user_id = u; building_id = b; granted_at = now } ∷ []),
)

pub grant_row-user :
    (u b : ℕ) (db : BuildingDb) (m : BuildingManager)
    → grant_row (find (is_grant u b) db.grants) db ≡ some m
    → m.user_id ≡ u
grant_row-user u b db m h = elim (Option-cases (find (is_grant u b) db.grants)) [
  | inl e ↦ ground arith
  | inr (g, e) ↦ let k = find-keeps (is_grant u b) db.grants g e in ground arith
]
