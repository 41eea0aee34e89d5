-- ===== src/Maintenance/Service/Rows.antt =====
-- The rows that the service reads and writes (backend/internal/maintenance/repository.go).
use hamsa.Base.{ℕ, Bool, ◌&&◌, [], ◌∷◌, ◌++◌, Option, none, some, exists, find, update_where, ◌==◌}
use hamsa.Server.{M, ApiError, pure, fail, query, exec, first}
use hamsa.Maintenance.Model.{MaintenanceRequest, Residence, MaintenanceDb}

abbrev pub Maintain : Type 0 → Type 0
Maintain = M MaintenanceDb

abbrev pub or_fail : {A : Type 0} → Option A → ApiError → Maintain A
or_fail none e = fail e
or_fail (some a) e = pure a

-- Repository.

abbrev pub find_request : ℕ → MaintenanceDb → Option MaintenanceRequest
find_request id db = find (λ m. m.id == id) db.requests

unfoldable pub get : ℕ → Maintain MaintenanceRequest
get id = first (find_request id)

unfoldable pub is_manager_of : ℕ → ℕ → Maintain Bool
is_manager_of user_id building_id =
    query (λ db. exists (λ g. g.user_id == user_id && g.building_id == building_id) db.grants)

unfoldable pub insert : MaintenanceRequest → Maintain (Unit {0})
insert m = exec (λ db. record db { requests = db.requests ++ m ∷ [] })

abbrev pub put : MaintenanceRequest → MaintenanceDb → MaintenanceDb
put m db = record db { requests = update_where (λ n. n.id == m.id) (λ _. m) db.requests }

unfoldable pub save : MaintenanceRequest → Maintain (Unit {0})
save m = exec (put m)

unfoldable pub person_exists : ℕ → Maintain Bool
person_exists id = query (λ db. exists (λ p. p == id) db.persons)

unfoldable pub resolve_resident_unit : ℕ → Maintain (Option Residence)
resolve_resident_unit phone = query (λ db. find (λ r. r.phone == phone) db.residences)
