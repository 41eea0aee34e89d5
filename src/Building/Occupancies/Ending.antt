-- ===== src/Building/Occupancies/Ending.antt =====
-- Ending an occupancy (backend/internal/building/occupancy_service.go, EndOccupancy).
use hamsa.Base.{
  ℕ, ◌≡◌, refl, ap, ◌∙◌, true, false, not, List, [], ◌∷◌, Option, none, some, map, find,
  update_where, arith, ◌==◌, ltb, if◌then◌else◌,
}
use hamsa.Server.{
  World, ApiError, bad_request, conflict, date_required, occupancy_dates_invalid,
  occupancy_not_found, occupancy_already_ended, tick, pure, fail_if, ◌>>=◌, ◌>>◌, map_error,
  or_not_found,
}
use hamsa.Server.Rules.{Ends, bind-Ends, imp-Ends, map_error-Ends, first-Ends}
use hamsa.Building.Model.{Build, BuildingDb, Occupancy, User, zero_date}
use hamsa.Building.Registry.{authorized_unit}
use hamsa.Building.Scope.{Same, Manages, authorized_unit-Manages}
use hamsa.Building.Occupancies.Service.{
  is_open, find_occupancy, end_at, end_row, end_occupancy_row, end_occupancy,
}

-- The row that has the id had no end date; now it has one, not before its start.
abbrev pub Finished : ℕ → ℕ → BuildingDb → Occupancy → World BuildingDb → Type 0
Finished id e db o w' =
    (old : Occupancy) × (find (λ p. p.id == id) db.occupancies ≡ some old)
    × (is_open old.end_date ≡ true)
    × (ltb e old.start_date ≡ false)
    × (o ≡ end_at e old)
    × (w'.db ≡ end_row id e db)

module _ (caller : User) (id e : ℕ) (w : World BuildingDb) where
  abbrev finish : Occupancy → Build Occupancy
  finish o =
      fail_if (not (is_open o.end_date)) (conflict occupancy_already_ended)
      >> (fail_if (e == zero_date) (bad_request date_required)
          >> (fail_if (ltb e o.start_date) (bad_request occupancy_dates_invalid)
              >> (end_occupancy_row id e >> pure (end_at e o))))

  abbrev Done : Occupancy → Occupancy → World BuildingDb → Type 0
  Done old o w' =
      (is_open old.end_date ≡ true)
      × (ltb e old.start_date ≡ false)
      × (o ≡ end_at e old)
      × (w'.db ≡ end_row id e w.db)

  finish-Done :
      (old : Occupancy) (w1 : World BuildingDb)
      → w1.db ≡ w.db
      → Ends (Done old) (Same w) (finish old w1)
  unfolding end_occupancy_row hamsa.Server.Monad.exec
  finish-Done old w1 d = ground arith

  finish-Ended :
      (old : Occupancy) (w1 : World BuildingDb)
      → find (λ p. p.id == id) w.db.occupancies ≡ some old
      → w1.db ≡ w.db
      → Ends (Finished id e w.db) (Same w) (finish old w1)
  finish-Ended old w1 p d =
      imp-Ends _ _ (Done old) (Same w) (finish old w1) (finish-Done old w1 d)
        (λ o w' q. (old, p, q.0, q.1, q.2, q.3)) (λ _ _ f. f)

  abbrev admit_end : Occupancy → Build Occupancy
  admit_end o = authorized_unit caller o.unit_id >> finish o

  admit_end-Ended :
      (old : Occupancy)
      → find (λ p. p.id == id) w.db.occupancies ≡ some old
      → Ends (Finished id e w.db) (Same w) (admit_end old (tick w))
  admit_end-Ended old p =
      bind-Ends (Finished id e w.db) (Same w) (authorized_unit caller old.unit_id) (λ _. finish old)
        (tick w)
        (imp-Ends _ _ (Manages caller old.unit_id (tick w)) (Same (tick w))
          (authorized_unit caller old.unit_id (tick w))
          (authorized_unit-Manages caller old.unit_id (tick w))
          (λ u w1 h. finish-Ended old w1 p h.0) (λ _ _ f. f))

pub end_occupancy-Finished :
    (caller : User) (id e : ℕ) (w : World BuildingDb)
    → Ends (Finished id e w.db) (Same w) (end_occupancy caller id e w)
unfolding end_occupancy find_occupancy
end_occupancy-Finished caller id e w =
    bind-Ends (Finished id e w.db) (Same w)
      (map_error (or_not_found occupancy_not_found) (find_occupancy id)) (admit_end caller id e w) w
      (map_error-Ends _ (Same w) (or_not_found occupancy_not_found) (find_occupancy id) w (
        first-Ends _ _ (λ db. find (λ p. p.id == id) db.occupancies) w
          (λ old p. admit_end-Ended caller id e w old p) (λ _. refl) refl))

-- The rows with the id have the date and are inactive; nothing else is changed.
ended_rows :
    (id e : ℕ) (xs : List Occupancy)
    → update_where (λ p. p.id == id) (end_at e) xs
      ≡ map (λ p. if p.id == id then record p { end_date = some e; is_active = false } else p) xs
ended_rows id e [] = refl
ended_rows id e (x ∷ xs) = ground (arith, ended_rows id e xs)

abbrev pub Ended : ℕ → ℕ → BuildingDb → Occupancy → World BuildingDb → Type 0
Ended id e db o w' =
    (old : Occupancy) × (find (λ p. p.id == id) db.occupancies ≡ some old)
    × (old.end_date ≡ none)
    × (ltb e old.start_date ≡ false)
    × (o ≡ record old { end_date = some e; is_active = false })
    × (w'.db ≡ record db {
      occupancies =
          map (λ p. if p.id == id then record p { end_date = some e; is_active = false } else p)
            db.occupancies;
    })

open_none : (o : Option ℕ) → is_open o ≡ true → o ≡ none
open_none o h = ground arith

-- EndOccupancy does not panic. Where it succeeds, the occupancy that has the id had no end date, the given date is not before its
-- start, the result is that row with the date and inactive, and the rows of that id have the date and are inactive; every other
-- row, every other column and every other table is as before. Where it fails, the database is as it was.
pub end_occupancy-Ended :
    (caller : User) (id e : ℕ) (w : World BuildingDb)
    → Ends (Ended id e w.db) (Same w) (end_occupancy caller id e w)
end_occupancy-Ended caller id e w =
    imp-Ends _ _ (Finished id e w.db) (Same w) (end_occupancy caller id e w)
      (end_occupancy-Finished caller id e w)
      (λ o w' (old, p, q, h, m, d). (
        old,
        p,
        open_none old.end_date q,
        h,
        m,
        d ∙ ap (λ xs. record w.db { occupancies = xs }) (ended_rows id e w.db.occupancies),
      ))
      (λ _ _ f. f)
