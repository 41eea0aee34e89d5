-- ===== src/Building/Occupancies/Counts.antt =====
-- Recording a number of occupants and reading it as of a day
-- (backend/internal/building/occupancy_service.go and occupancy_repository.go).
use hamsa.Base.{
  ℕ, ◌≡◌, refl, ap, ◌∙◌, Bool, true, false, ◌&&◌, ◌||◌, not, List, [], ◌∷◌, ◌++◌, Option, none,
  some, exists, arith, ◌==◌, leb, ltb,
}
use hamsa.Base.Int.{ℤ, pos, ltb_ℤ}
use hamsa.Server.{
  World, ApiError, bad_request, database, occupant_count_invalid, date_required, pure, fail_if,
  ◌>>=◌, ◌>>◌,
}
use hamsa.Server.Rules.{Ends, imp-Ends, query-Ends}
use hamsa.Building.Model.{BuildingDb, OccupantCount, User}
use hamsa.Building.Scope.{Same, authorized_unit-Manages}
use hamsa.Building.Occupancies.Service.{
  supersedes, latest_count, count_or_zero, record_occupant_count, occupant_count_as_of,
}

-- A data point of the unit up to the day that does not come before another.
abbrev not_before : ℕ → ℕ → OccupantCount → OccupantCount → Bool
not_before unit_id ref row c =
    c.unit_id == unit_id
    && leb c.effective_from ref
    && not (
        ltb c.effective_from row.effective_from
        || (c.effective_from == row.effective_from && ltb c.created_at row.created_at))

abbrev Yields : OccupantCount → Option OccupantCount → Type 0
Yields row none = Unit
Yields row (some b) = supersedes row b ≡ true

latest_count-append :
    (unit_id ref : ℕ) (row : OccupantCount) (best : Option OccupantCount) (cs : List OccupantCount)
    → row.unit_id == unit_id ≡ true
    → leb row.effective_from ref ≡ true
    → Yields row best
    → exists (not_before unit_id ref row) cs ≡ false
    → latest_count unit_id ref best (cs ++ row ∷ []) ≡ some row
latest_count-append unit_id ref row none [] h k y e = ground arith
latest_count-append unit_id ref row (some b) [] h k y e = ground arith
latest_count-append unit_id ref row none (c ∷ cs) h k y e = ground (
  arith,
  latest_count-append unit_id ref row none cs h k,
  latest_count-append unit_id ref row (some c) cs h k,
)
latest_count-append unit_id ref row (some b) (c ∷ cs) h k y e = ground (
  arith,
  latest_count-append unit_id ref row (some b) cs h k,
  latest_count-append unit_id ref row (some c) cs h k,
)

module _ (caller : User) (unit_id : ℕ) (count : ℤ) (day : ℕ) (w : World BuildingDb) where
  abbrev Point : OccupantCount → Type 0
  Point c =
      (c.unit_id ≡ unit_id)
      × (c.occupant_count ≡ count)
      × (c.effective_from ≡ day)
      × (c.created_at ≡ w.now)

  -- The data point is the last row of the table, which is otherwise as before.
  abbrev Recorded : OccupantCount → World BuildingDb → Type 0
  Recorded c w' = Point c × (ltb_ℤ count (pos 0) ≡ false) × (w'.db.counts ≡ w.db.counts ++ c ∷ [])

  record_occupant_count-Recorded :
      Ends Recorded (Same w) (record_occupant_count caller unit_id count day w)
  unfolding record_occupant_count hamsa.Server.Monad.exec? hamsa.Server.Monad.new_id
      hamsa.Server.Monad.time_now
  record_occupant_count-Recorded = ground (arith, authorized_unit-Manages caller unit_id w)

  -- Each data point of the unit up to the day of reading takes effect before one recorded now, or was
  -- recorded before it.
  abbrev IsLatest : ℕ → Type 0
  IsLatest ref =
      exists
        (not_before unit_id ref (record {
          id = 0;
          unit_id = unit_id;
          occupant_count = count;
          effective_from = day;
          created_at = w.now;
        }))
        w.db.counts
      ≡ false

  not_later :
      (c : OccupantCount)
      → Point c
      → (ref : ℕ) → IsLatest ref
      → exists (not_before unit_id ref c) w.db.counts ≡ false
  not_later c p ref l = go w.db.counts l
    where
      blank : OccupantCount
      blank = record {
        id = 0;
        unit_id = unit_id;
        occupant_count = count;
        effective_from = day;
        created_at = w.now;
      }

      go :
          (cs : List OccupantCount)
          → exists (not_before unit_id ref blank) cs ≡ false
          → exists (not_before unit_id ref c) cs ≡ false
      go [] h = h
      go (x ∷ xs) h = ground (arith, go xs)

  reads_back :
      (ref : ℕ) (c : OccupantCount) (w1 : World BuildingDb)
      → leb day ref ≡ true
      → IsLatest ref
      → Recorded c w1
      → Ends (λ z _. z ≡ count) (λ e _. e ≡ database) (occupant_count_as_of unit_id ref w1)
  unfolding occupant_count_as_of
  reads_back ref c w1 d l (p, n, r) =
      query-Ends _ _ (λ db. count_or_zero (latest_count unit_id ref none db.counts)) w1
        (ap (λ cs. count_or_zero (latest_count unit_id ref none cs)) r
          ∙ ap count_or_zero (
              latest_count-append unit_id ref c none w.db.counts (ground arith) (ground arith) tt
                (not_later c p ref l))
          ∙ p.1)
        refl

-- A number of occupants that was recorded is read back: where RecordOccupantCount succeeds, OccupantCountAsOf on the effective day or on any later
-- day, made next, returns the number, or the error of a failing database, provided that each earlier data point of
-- the unit up to that day takes effect before it, or on the same day and was recorded before. Where recording fails,
-- the database is as it was.
pub record_occupant_count-read :
    (caller : User) (unit_id : ℕ) (count : ℤ) (day ref : ℕ) (w : World BuildingDb)
    → leb day ref ≡ true
    → IsLatest caller unit_id count day w ref
    → Ends
        (λ _ w1.
          Ends (λ z _. z ≡ count) (λ e _. e ≡ database) (occupant_count_as_of unit_id ref w1))
        (Same w)
        (record_occupant_count caller unit_id count day w)
record_occupant_count-read caller unit_id count day ref w d l =
    imp-Ends _ _ (Recorded caller unit_id count day w) (Same w)
      (record_occupant_count caller unit_id count day w)
      (record_occupant_count-Recorded caller unit_id count day w)
      (λ c w1 r. reads_back caller unit_id count day w ref c w1 d l r) (λ _ _ e. e)
