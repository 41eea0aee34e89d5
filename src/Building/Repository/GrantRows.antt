-- ===== src/Building/Repository/GrantRows.antt =====
-- The grants of managers (backend/internal/building/repository.go).
use hamsa.Base.{
  ℕ, Bool, true, false, ◌&&◌, not, List, [], ◌∷◌, ◌++◌, Option, none, some, exists, find, keep,
  update_where, length, ltb, ◌==◌, if◌then◌else◌,
}
use hamsa.Base.Text.{Text, text_eq}
use hamsa.Server.{
  manager_already_granted, pure, ◌>>=◌, ◌>>◌, query, exec, exec_unique, first, time_now,
}
use hamsa.Building.Model.{
  Build, BuildingDb, UserBuilding, User, BuildingManager, Role, role_resident, role_manager,
}
use hamsa.Building.Repository.Columns.{is_live}

-- Grants.

abbrev pub is_grant : ℕ → ℕ → UserBuilding → Bool
is_grant user_id building_id g = g.user_id == user_id && g.building_id == building_id

abbrev pub has_grant : ℕ → ℕ → BuildingDb → Bool
has_grant user_id building_id db = exists (is_grant user_id building_id) db.grants

unfoldable pub can_manager_access : ℕ → ℕ → Build Bool
can_manager_access user_id building_id = query (has_grant user_id building_id)

abbrev pub add_grant : ℕ → ℕ → ℕ → BuildingDb → BuildingDb
add_grant user_id building_id now db = record db {
  grants =
      db.grants ++ record { user_id = user_id; building_id = building_id; granted_at = now } ∷ [];
}

-- `FirstOrCreate`
unfoldable pub grant_manager : ℕ → ℕ → Build (Unit {0})
unfolding can_manager_access
grant_manager user_id building_id = do
  found ← can_manager_access user_id building_id
  now ← time_now
  if found then pure tt else exec (add_grant user_id building_id now)

abbrev pub is_active_user : Text → User → Bool
is_active_user phone u = text_eq u.phone phone && u.is_active && is_live u.deleted_at

unfoldable pub find_active_user_by_phone : Text → Build User
find_active_user_by_phone phone = first (λ db. find (is_active_user phone) db.users)

abbrev pub count_managers : ℕ → List UserBuilding → ℕ
count_managers building_id gs = length (keep (λ g. g.building_id == building_id) gs)

unfoldable pub count_building_managers : ℕ → Build ℕ
count_building_managers building_id = query (λ db. count_managers building_id db.grants)

-- The insert with ON CONFLICT DO NOTHING; no row affected is the error.
unfoldable pub insert_manager_grant : ℕ → ℕ → Build (Unit {0})
insert_manager_grant user_id building_id = do
  now ← time_now
  exec_unique (has_grant user_id building_id) manager_already_granted
      (λ db. some (add_grant user_id building_id now db))

abbrev join_user : UserBuilding → Option User → Option BuildingManager
join_user g none = none
join_user g (some u) = some (record {
  user_id = g.user_id;
  phone = u.phone;
  name = u.name;
  role = u.role;
  granted_at = g.granted_at;
})

abbrev pub grant_row : Option UserBuilding → BuildingDb → Option BuildingManager
grant_row none db = none
grant_row (some g) db = join_user g (find (λ u. u.id == g.user_id) db.users)

unfoldable pub manager_grant_row : ℕ → ℕ → Build BuildingManager
manager_grant_row user_id building_id =
    first (λ db. grant_row (find (is_grant user_id building_id) db.grants) db)

-- The guarded DELETE: the building has more than one manager.
abbrev pub drop_grant : ℕ → ℕ → BuildingDb → BuildingDb
drop_grant user_id building_id db =
    if ltb 1 (count_managers building_id db.grants)
    then record db { grants = keep (λ g. not (is_grant user_id building_id g)) db.grants }
    else db

-- Whether a row was deleted, and whether the grant is still there.
unfoldable pub revoke_manager_guarded : ℕ → ℕ → Build (Bool × Bool)
unfolding can_manager_access
revoke_manager_guarded user_id building_id w =
    let affected =
      ltb 1 (count_managers building_id w.db.grants) && has_grant user_id building_id w.db in
    (exec (drop_grant user_id building_id) >> after_delete affected) w
  where
    after_delete : Bool → Build (Bool × Bool)
    after_delete true = pure (true, false)
    after_delete false = can_manager_access user_id building_id >>= λ granted. pure (false, granted)

abbrev pub is_resident : Role → Bool
is_resident role_resident = true
is_resident _ = false

abbrev pub promote_users : ℕ → List User → List User
promote_users user_id us =
    update_where (λ u. u.id == user_id && is_resident u.role)
      (λ u. record u { role = role_manager }) us

abbrev pub promote : ℕ → BuildingDb → BuildingDb
promote user_id db = record db { users = promote_users user_id db.users }

unfoldable pub promote_resident_to_manager : ℕ → Build (Unit {0})
promote_resident_to_manager user_id = exec (promote user_id)
