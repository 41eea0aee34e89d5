-- ===== src/Building/Occupancies/History.antt =====
-- The table of occupancies over any sequence of calls of AddOccupancy and EndOccupancy
-- (backend/internal/building/occupancy_service.go).
use hamsa.Base.{
  ℕ, ◌≤◌, ◌≡◌, refl, sym, ap, subst, Bool, false, ◌&&◌, List, [], ◌∷◌, ◌++◌, some, All, find,
  exists, keep, update_where, length, arith, ◌==◌, ltb, inl, inr, Bool-cases, exists-append,
}
use hamsa.Server.{World}
use hamsa.Server.Rules.{imp-Ends, world-Ends}
use hamsa.Building.Model.{BuildingDb, Occupancy, Relationship, User, same_relationship}
use hamsa.Building.Scope.{Same}
use hamsa.Building.Occupancies.Service.{
  OccupancyInput, runs, close, close_running, ends_before, end_at, add_occupancy, end_occupancy,
}
use hamsa.Building.Occupancies.Running.{running, runs_alike, Moved, Moved-RunsAlone}
use hamsa.Building.Occupancies.Adding.{Added, add_occupancy-Added}
use hamsa.Building.Occupancies.Ending.{Finished, end_occupancy-Finished}

abbrev IsDated : Occupancy → Type 0
IsDated o = ends_before o.start_date o.end_date ≡ false

abbrev pub Distinct : List Occupancy → Type 0
Distinct [] = Unit
Distinct (x ∷ xs) = (exists (λ y. y.id == x.id) xs ≡ false) × Distinct xs

-- At most one occupancy of a unit and relationship has no end date, none ends before it starts, and
-- no two have one id.
abbrev pub Tidy : BuildingDb → Type 0
Tidy db =
    ((u : ℕ) (r : Relationship) → length (running u r db) ≤ 1)
    × All IsDated db.occupancies
    × Distinct db.occupancies

-- Changes that keep the ids.

exists-update_where :
    (p q : Occupancy → Bool) (f : Occupancy → Occupancy) (xs : List Occupancy)
    → ((x : Occupancy) → q (f x) ≡ q x)
    → exists q (update_where p f xs) ≡ exists q xs
exists-update_where p q f [] h = refl
exists-update_where p q f (x ∷ xs) h = ground (arith, h x, exists-update_where p q f xs h)

module _ (p : Occupancy → Bool) (f : Occupancy → Occupancy)
    (same : (x : Occupancy) → (f x).id ≡ x.id) where
  Distinct-update_where : (xs : List Occupancy) → Distinct xs → Distinct (update_where p f xs)
  Distinct-update_where [] d = tt
  Distinct-update_where (x ∷ xs) d =
      let e = exists-update_where p (λ y. y.id == x.id) f xs (λ y. ap (λ i. i == x.id) (same y)) in
      (ground (arith, same x, e), Distinct-update_where xs d.1)

Distinct-snoc :
    (xs : List Occupancy) (o : Occupancy)
    → Distinct xs
    → exists (λ y. y.id == o.id) xs ≡ false
    → Distinct (xs ++ o ∷ [])
Distinct-snoc [] o d h = (refl, tt)
Distinct-snoc (x ∷ xs) o d h = (
  ground (arith, exists-append (λ y. y.id == x.id) xs (o ∷ [])),
  Distinct-snoc xs o d.1 (ground arith),
)

All-snoc :
    (xs : List Occupancy) (o : Occupancy) → All IsDated xs → IsDated o → All IsDated (xs ++ o ∷ [])
All-snoc [] o h k = (k, tt)
All-snoc (x ∷ xs) o h k = (h.0, All-snoc xs o h.1 k)

close-IsDated : (start : ℕ) (o : Occupancy) → IsDated (close start o)
close-IsDated start o = ground arith

closed-IsDated :
    (p : Occupancy → Bool) (start : ℕ) (xs : List Occupancy)
    → All IsDated xs
    → All IsDated (update_where p (close start) xs)
closed-IsDated p start [] h = tt
closed-IsDated p start (x ∷ xs) h =
    (ground (arith, close-IsDated start x), closed-IsDated p start xs h.1)

update_absent :
    (p : Occupancy → Bool) (f : Occupancy → Occupancy) (xs : List Occupancy)
    → exists p xs ≡ false
    → update_where p f xs ≡ xs
update_absent p f [] h = refl
update_absent p f (x ∷ xs) h = ground (arith, update_absent p f xs)

-- The one row with the id gets an end date.
ended-IsDated :
    (id e : ℕ) (old : Occupancy) (xs : List Occupancy)
    → Distinct xs
    → find (λ p. p.id == id) xs ≡ some old
    → ltb e old.start_date ≡ false
    → All IsDated xs
    → All IsDated (update_where (λ p. p.id == id) (end_at e) xs)
ended-IsDated id e old [] d f h k = tt
ended-IsDated id e old (x ∷ xs) d f h k = elim (Bool-cases (x.id == id)) [
  | inl t ↦
      let others : update_where (λ p. p.id == id) (end_at e) xs ≡ xs =
        update_absent (λ p. p.id == id) (end_at e) xs (ground arith) in
      (ground arith, subst (All IsDated) (sym others) k.1)
  | inr t ↦ (ground arith, ended-IsDated id e old xs d.1 (ground arith) h k.1)
]

ended_fewer :
    (id e u : ℕ) (r : Relationship) (xs : List Occupancy)
    → length (keep (runs u r) (update_where (λ p. p.id == id) (end_at e) xs))
      ≤ length (keep (runs u r) xs)
ended_fewer id e u r [] = ground arith
ended_fewer id e u r (x ∷ xs) = ground (arith, ended_fewer id e u r xs)

-- The two operations.

running_at_most :
    (db : BuildingDb) (o : Occupancy) (db' : BuildingDb) (u : ℕ) (r : Relationship)
    → Tidy db
    → Moved db o db'
    → length (running u r db') ≤ 1
running_at_most db o db' u r t m =
    elim (Bool-cases (u == o.unit_id && same_relationship r o.relationship)) [
      | inl e ↦
          let q = (Moved-RunsAlone db o db' m).0 in
          let s = runs_alike u o.unit_id r o.relationship db'.occupancies e in
          ground (arith, ap length q, ap length s)
      | inr e ↦ subst (λ l. length l ≤ 1) (sym ((Moved-RunsAlone db o db' m).1 u r e)) (t.0 u r)
    ]

Moved-Tidy :
    (db : BuildingDb) (o : Occupancy) (db' : BuildingDb)
    → Tidy db
    → IsDated o
    → Moved db o db'
    → Tidy db'
Moved-Tidy db o db' t h m = (
  λ u r. running_at_most db o db' u r t m,
  subst (All IsDated) (sym m.0) (
      All-snoc (close_running o db).occupancies o
        (closed-IsDated (runs o.unit_id o.relationship) o.start_date db.occupancies t.1) h),
  subst Distinct (sym m.0) (
      Distinct-snoc (close_running o db).occupancies o
        (Distinct-update_where (runs o.unit_id o.relationship) (close o.start_date) (λ _. refl)
          db.occupancies t.2)
        m.1),
)

Ended-Tidy :
    (id e : ℕ) (db : BuildingDb) (o : Occupancy) (w' : World BuildingDb)
    → Tidy db
    → Finished id e db o w'
    → Tidy w'.db
Ended-Tidy id e db o w' t (old, f, h, k, m, d) = subst Tidy (sym d) (
  λ u r. omega (arith, ended_fewer id e u r db.occupancies, t.0 u r),
  ended-IsDated id e old db.occupancies t.2 f k t.1,
  Distinct-update_where (λ p. p.id == id) (end_at e) (λ _. refl) db.occupancies t.2,
)

pub data Call : Type 0 where
  adds : User → ℕ → OccupancyInput → Call
  ends : User → ℕ → ℕ → Call

-- The calls one after another, whether they succeed or fail.
unfoldable pub run : List Call → World BuildingDb → World BuildingDb
run [] w = w
run (adds caller unit_id input ∷ calls) w = run calls (add_occupancy caller unit_id input w).1
run (ends caller id e ∷ calls) w = run calls (end_occupancy caller id e w).1

add_occupancy-Tidy :
    (caller : User) (unit_id : ℕ) (input : OccupancyInput) (w : World BuildingDb)
    → Tidy w.db
    → Tidy (add_occupancy caller unit_id input w).1.db
add_occupancy-Tidy caller unit_id input w t =
    world-Ends (λ w'. Tidy w'.db) (add_occupancy caller unit_id input w)
      (imp-Ends _ _ (Added unit_id input w.db) (Same w) (add_occupancy caller unit_id input w)
        (add_occupancy-Added caller unit_id input w) (λ o w' q. Moved-Tidy w.db o w'.db t q.5 q.7)
        (λ _ w' d. subst Tidy (sym d) t))

end_occupancy-Tidy :
    (caller : User) (id e : ℕ) (w : World BuildingDb)
    → Tidy w.db
    → Tidy (end_occupancy caller id e w).1.db
end_occupancy-Tidy caller id e w t =
    world-Ends (λ w'. Tidy w'.db) (end_occupancy caller id e w)
      (imp-Ends _ _ (Finished id e w.db) (Same w) (end_occupancy caller id e w)
        (end_occupancy-Finished caller id e w) (λ o w' q. Ended-Tidy id e w.db o w' t q)
        (λ _ w' d. subst Tidy (sym d) t))

-- Where the table is tidy, that is, at most one occupancy of a unit and relationship has no end date, none ends before it
-- starts and no two have one id, it is tidy after any sequence of calls of AddOccupancy and EndOccupancy. So a unit keeps at most one
-- running owner, as it does one running tenant.
pub run-Tidy : (calls : List Call) (w : World BuildingDb) → Tidy w.db → Tidy (run calls w).db
unfolding run
run-Tidy [] w t = t
run-Tidy (adds caller unit_id input ∷ calls) w t =
    run-Tidy calls (add_occupancy caller unit_id input w).1
      (add_occupancy-Tidy caller unit_id input w t)
run-Tidy (ends caller id e ∷ calls) w t =
    run-Tidy calls (end_occupancy caller id e w).1 (end_occupancy-Tidy caller id e w t)
