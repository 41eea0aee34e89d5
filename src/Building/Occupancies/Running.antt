-- ===== src/Building/Occupancies/Running.antt =====
-- The occupancies that run after AddOccupancy (backend/internal/building/occupancy_service.go and
-- occupancy_repository.go).
use hamsa.Base.{
  ℕ, ◌≡◌, refl, ap, ◌∙◌, Bool, true, false, ◌&&◌, List, [], ◌∷◌, ◌++◌, keep, update_where, arith,
  ◌==◌, if◌then◌else◌,
}
use hamsa.Server.{
  World, ApiError, bad_request, date_required, occupancy_dates_invalid, relationship_invalid, pure,
  fail_if, ◌>>=◌, ◌>>◌, map_error, new_id,
}
use hamsa.Server.Rules.{Ends}
use hamsa.Building.Scope.{Same}
use hamsa.Building.Model.{
  BuildingDb, Occupancy, Relationship, owner, tenant, non_resident_owner, same_relationship,
}
use hamsa.Building.Occupancies.Service.{
  is_open, runs, close, close_running, ends_before, create_occupancy, id_taken,
}

same_relationship_iff : (r s : Relationship) → same_relationship r s ≡ true → r ≡ s
same_relationship_iff owner owner h = refl
same_relationship_iff tenant tenant h = refl
same_relationship_iff non_resident_owner non_resident_owner h = refl
same_relationship_iff owner tenant h = ground arith
same_relationship_iff owner non_resident_owner h = ground arith
same_relationship_iff tenant owner h = ground arith
same_relationship_iff tenant non_resident_owner h = ground arith
same_relationship_iff non_resident_owner owner h = ground arith
same_relationship_iff non_resident_owner tenant h = ground arith

same_relationship_refl : (r : Relationship) → same_relationship r r ≡ true
same_relationship_refl owner = refl
same_relationship_refl tenant = refl
same_relationship_refl non_resident_owner = refl

abbrev pub running : ℕ → Relationship → BuildingDb → List Occupancy
running u r db = keep (runs u r) db.occupancies

same_runs :
    (u v : ℕ) (r s : Relationship) (x : Occupancy)
    → (u == v && same_relationship r s) ≡ true
    → runs u r x ≡ runs v s x
same_runs u v r s x h =
    let e : r ≡ s = same_relationship_iff r s (ground arith) in
    let f : u ≡ v = ground arith in λ i. runs (f i) (e i) x

-- One unit and one relationship, under two names.
pub runs_alike :
    (u v : ℕ) (r s : Relationship) (xs : List Occupancy)
    → (u == v && same_relationship r s) ≡ true
    → keep (runs u r) xs ≡ keep (runs v s) xs
runs_alike u v r s [] h = refl
runs_alike u v r s (x ∷ xs) h = ground (arith, same_runs u v r s x h, runs_alike u v r s xs h)

keep-append :
    {A : Type 0} (p : A → Bool) (xs ys : List A) → keep p (xs ++ ys) ≡ keep p xs ++ keep p ys
keep-append p [] ys = refl
keep-append p (x ∷ xs) ys = ground (arith, keep-append p xs ys)

-- Closing the rows of one unit and relationship leaves none of them running, and the others as they are.
closed_none :
    (u start : ℕ) (r : Relationship) (xs : List Occupancy)
    → keep (runs u r) (update_where (runs u r) (close start) xs) ≡ []
closed_none u start r [] = refl
closed_none u start r (x ∷ xs) = ground (arith, closed_none u start r xs)

abbrev Apart : ℕ → Relationship → ℕ → Relationship → Type 0
Apart u r v s = (u == v && same_relationship r s) ≡ false

other_row_lem :
    (u start v : ℕ) (r s : Relationship) (x : Occupancy)
    → Apart v s u r
    → runs u r x ≡ true
    → (runs v s x ≡ false) × (runs v s (close start x) ≡ false)
other_row_lem u start v r s x h k = ground arith

closed_others :
    (u start v : ℕ) (r s : Relationship) (xs : List Occupancy)
    → Apart v s u r
    → keep (runs v s) (update_where (runs u r) (close start) xs) ≡ keep (runs v s) xs
closed_others u start v r s [] h = refl
closed_others u start v r s (x ∷ xs) h =
    ground (arith, other_row_lem u start v r s x h, closed_others u start v r s xs h)

-- The closed rows and the new one behind them.
abbrev pub Moved : BuildingDb → Occupancy → BuildingDb → Type 0
Moved db o db' =
    (db'.occupancies ≡ (close_running o db).occupancies ++ o ∷ [])
    × (id_taken o (close_running o db) ≡ false)

abbrev pub Created : Occupancy → World BuildingDb → Occupancy → World BuildingDb → Type 0
Created o w row w' =
    (row ≡ record o { created_at = w.now })
    × (ends_before o.start_date o.end_date ≡ false)
    × Moved w.db row w'.db

pub create_occupancy-Created :
    (o : Occupancy) (w : World BuildingDb) → Ends (Created o w) (Same w) (create_occupancy o w)
unfolding create_occupancy hamsa.Server.Monad.transaction hamsa.Server.Monad.exec
    hamsa.Server.Monad.exec_unique hamsa.Server.Monad.time_now
create_occupancy-Created o w = ground arith

-- The row runs alone on its unit with its relationship, or none does where it has an end date; the
-- other units and relationships are as before.
abbrev pub RunsAlone : BuildingDb → Occupancy → BuildingDb → Type 0
RunsAlone db o db' =
    (running o.unit_id o.relationship db' ≡ (if is_open o.end_date then o ∷ [] else []))
    × ((v : ℕ) (s : Relationship)
        → Apart v s o.unit_id o.relationship
        → running v s db' ≡ running v s db)

append_nil : {A : Type 0} (xs : List A) → xs ++ [] ≡ xs
append_nil [] = refl
append_nil (x ∷ xs) = ap (λ t. x ∷ t) (append_nil xs)

keep_new :
    (o : Occupancy)
    → keep (runs o.unit_id o.relationship) (o ∷ []) ≡ (if is_open o.end_date then o ∷ [] else [])
keep_new o = ground (arith, same_relationship_refl o.relationship)

keep_others :
    (o : Occupancy) (v : ℕ) (s : Relationship)
    → Apart v s o.unit_id o.relationship
    → keep (runs v s) (o ∷ []) ≡ []
keep_others o v s h =
    ground (arith, same_relationship_iff o.relationship s, same_relationship_refl o.relationship)

pub Moved-RunsAlone :
    (db : BuildingDb) (o : Occupancy) (db' : BuildingDb) → Moved db o db' → RunsAlone db o db'
Moved-RunsAlone db o db' m = (
  ap (keep (runs o.unit_id o.relationship)) m.0
      ∙ keep-append (runs o.unit_id o.relationship) (close_running o db).occupancies (o ∷ [])
      ∙ ap (λ t. t ++ keep (runs o.unit_id o.relationship) (o ∷ []))
          (closed_none o.unit_id o.start_date o.relationship db.occupancies)
      ∙ keep_new o,
  λ v s h.
      ap (keep (runs v s)) m.0
      ∙ keep-append (runs v s) (close_running o db).occupancies (o ∷ [])
      ∙ ap (λ t. t ++ keep (runs v s) (o ∷ []))
          (closed_others o.unit_id o.start_date v o.relationship s db.occupancies h)
      ∙ ap (λ t. running v s db ++ t) (keep_others o v s h)
      ∙ append_nil (running v s db),
)
