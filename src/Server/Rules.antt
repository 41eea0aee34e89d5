-- ===== src/Server/Rules.antt =====
-- Rules for what holds after a service call, one for each way to build a call.
use hamsa.Base.{◌≡◌, refl, sym, not, Bool, true, false, Option, none, some, Bool-cases, inl, inr}
use hamsa.Base.Results.{Result, ok, err, panic}
use hamsa.Server.Errors.{ApiError, database, record_not_found}
use hamsa.Server.Monad.{
  World, M, ◌>>=◌, continue_with, with_error, commit, tick, query, exec, exec?, first, transaction,
  best_effort, fail_if, map_error,
}

module _ {D : Type 0} where
  -- The call returned a value with Q, or an error with E; it did not panic.
  abbrev pub Ends :
      {A : Type 0}
      → (A → World D → Type 0)
      → (ApiError → World D → Type 0)
      → Result ApiError A × World D
      → Type 0
  Ends Q E (ok a, w) = Q a w
  Ends Q E (err e, w) = E e w
  Ends Q E (panic, w) = ⊥

  pub bind-Ends :
      {A B : Type 0} (Q : B → World D → Type 0) (E : ApiError → World D → Type 0) (m : M D A)
      (f : A → M D B) (w : World D)
      → Ends (λ a w'. Ends Q E (f a w')) E (m w)
      → Ends Q E ((m >>= f) w)
  bind-Ends Q E m f w = go (m w)
    where
      go : (o : _) → Ends (λ a w'. Ends Q E (f a w')) E o → Ends Q E (continue_with f o)
      go (ok a, w') h = h
      go (err e, w') h = h
      go (panic, w') h = h

module _ {D A : Type 0} (Q : A → World D → Type 0) (E : ApiError → World D → Type 0) where
  pub imp-Ends :
      (Q' : A → World D → Type 0) (E' : ApiError → World D → Type 0)
      (o : Result ApiError A × World D)
      → Ends Q' E' o
      → ((a : A) (w : World D) → Q' a w → Q a w)
      → ((e : ApiError) (w : World D) → E' e w → E e w)
      → Ends Q E o
  imp-Ends Q' E' (ok a, w) h k l = k a w h
  imp-Ends Q' E' (err e, w) h k l = l e w h
  imp-Ends Q' E' (panic, w) h k l = h

  pub query-Ends :
      (f : D → A) (w : World D) → Q (f w.db) (tick w) → E database (tick w) → Ends Q E (query f w)
  unfolding query
  query-Ends f w h k = elim (Bool-cases (w.faults w.calls)) [ inl e ↦ rw e k | inr e ↦ rw e h ]

  pub first-Ends :
      (f : D → Option A) (w : World D)
      → ((a : A) → f w.db ≡ some a → Q a (tick w))
      → (f w.db ≡ none → E record_not_found (tick w))
      → E database (tick w)
      → Ends Q E (first f w)
  unfolding first
  first-Ends f w h k l = elim (Bool-cases (w.faults w.calls)) [
    | inl e ↦ rw e l
    | inr e ↦ rw e (found (f w.db) refl)
  ]
    where
      found :
          (o : Option A)
          → f w.db ≡ o
          → Ends Q E (elim o [ none ↦ (err record_not_found, tick w) | some a ↦ (ok a, tick w) ])
      found none p = k p
      found (some a) p = h a p

  pub map_error-Ends :
      (g : ApiError → ApiError) (m : M D A) (w : World D)
      → Ends Q (λ e w'. E (g e) w') (m w)
      → Ends Q E (map_error g m w)
  map_error-Ends g m w = go (m w)
    where
      go : (o : _) → Ends Q (λ e w'. E (g e) w') o → Ends Q E (with_error g o)
      go (ok a, w') h = h
      go (err e, w') h = h
      go (panic, w') h = h

  -- After a rollback the database is the one that the transaction found.
  pub transaction-Ends :
      (m : M D A) (w : World D)
      → Ends
          (λ a w'. Q a (tick w') × E database (record (tick w') { db = w.db }))
          (λ e w'. E e (record w' { db = w.db }))
          (m w)
      → Ends Q E (transaction m w)
  unfolding transaction
  transaction-Ends m w = go (m w)
    where
      go :
          (o : _)
          → Ends
              (λ a w'. Q a (tick w') × E database (record (tick w') { db = w.db }))
              (λ e w'. E e (record w' { db = w.db }))
              o
          → Ends Q E (commit w.db o)
      go (ok a, w') h = elim (Bool-cases (w'.faults w'.calls)) [
        | inl e ↦ rw e h.1
        | inr e ↦ rw e h.0
      ]
      go (err e, w') h = h
      go (panic, w') h = h

module _ {D : Type 0} (Q : Unit {0} → World D → Type 0) (E : ApiError → World D → Type 0) where
  pub exec-Ends :
      (f : D → D) (w : World D)
      → Q tt (record (tick w) { db = f w.db })
      → E database (tick w)
      → Ends Q E (exec f w)
  unfolding exec
  exec-Ends f w h k = elim (Bool-cases (w.faults w.calls)) [ inl e ↦ rw e k | inr e ↦ rw e h ]

  pub exec?-Ends :
      (f : D → Option D) (w : World D)
      → ((d : D) → f w.db ≡ some d → Q tt (record (tick w) { db = d }))
      → E database (tick w)
      → Ends Q E (exec? f w)
  unfolding exec?
  exec?-Ends f w h k = elim (Bool-cases (w.faults w.calls)) [
    | inl e ↦ rw e k
    | inr e ↦ rw e (found (f w.db) refl)
  ]
    where
      found :
          (o : Option D)
          → f w.db ≡ o
          → Ends Q E (elim o [
            | none ↦ (err database, tick w)
            | some d ↦ (ok tt, record (tick w) { db = d })
          ])
      found none p = k
      found (some d) p = h d p

  pub fail_if-Ends :
      (b : Bool) (e : ApiError) (w : World D)
      → (b ≡ false → Q tt w)
      → (b ≡ true → E e w)
      → Ends Q E (fail_if b e w)
  fail_if-Ends true e w h k = k refl
  fail_if-Ends false e w h k = h refl

  best_effort-Ends : (m : M D (Unit {0})) (w : World D) → Q tt (m w).1 → Ends Q E (best_effort m w)
  unfolding best_effort
  best_effort-Ends m w h = h

-- What holds of the database however the call ended.
pub world-Ends :
    {D A : Type 0} (P : World D → Type 0) (o : Result ApiError A × World D)
    → Ends (λ _ w'. P w') (λ _ w'. P w') o
    → P o.1
world-Ends P (ok a, w') h = h
world-Ends P (err e, w') h = h
world-Ends P (panic, w') h = absurd h

-- `if !b { return err }` was passed.
pub guard_lem : (b : Bool) → not b ≡ false → b ≡ true
guard_lem true h = refl
guard_lem false h = sym h

pub both-Ends :
    {D A : Type 0} (Q R : A → World D → Type 0) (E F : ApiError → World D → Type 0)
    (o : Result ApiError A × World D)
    → Ends Q E o
    → Ends R F o
    → Ends (λ a w. Q a w × R a w) (λ e w. E e w × F e w) o
both-Ends Q R E F (ok a, w) h k = (h, k)
both-Ends Q R E F (err e, w) h k = (h, k)
both-Ends Q R E F (panic, w) h k = h
