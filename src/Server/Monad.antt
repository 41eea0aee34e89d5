-- ===== src/Server/Monad.antt =====
-- A service call: it reads and writes the database, and may return an error. Whether a call of the
-- database fails is decided by an oracle, the ids that uuid.New returns come from a supply, and
-- the clock stands still during a request.
use hamsa.Base.{ℕ, ◌+◌, Bool, List, [], ◌∷◌, Option, none, some, if◌then◌else◌}
use hamsa.Base.Results.{Result, ok, err, panic}
use hamsa.Server.Errors.{ApiError, Message, record_not_found, database, not_found}

pub record World (D : Type 0) : Type 0 where
  pub db : D
  pub faults : ℕ → Bool
  pub calls : ℕ
  pub uuid : ℕ → ℕ
  pub drawn : ℕ
  pub now : ℕ

abbrev pub M : Type 0 → Type 0 → Type 0
M D A = World D → Result ApiError A × World D

-- `errors.Is(err, gorm.ErrRecordNotFound)` turned into a 404.
abbrev pub or_not_found : Message → ApiError → ApiError
or_not_found m record_not_found = not_found m
or_not_found m e = e

module _ {D : Type 0} where
  -- What follows a call, by how the call ended.
  abbrev pub continue_with :
      {A B : Type 0} → (A → M D B) → Result ApiError A × World D → Result ApiError B × World D
  continue_with f (ok a, w) = f a w
  continue_with f (err e, w) = (err e, w)
  continue_with f (panic, w) = (panic, w)

  abbrev pub pure : {A : Type 0} → A → M D A
  pure a w = (ok a, w)

  abbrev pub fail : {A : Type 0} → ApiError → M D A
  fail e w = (err e, w)

  infixl 5 ◌>>=◌ ◌>>◌
  abbrev pub ◌>>=◌ : {A B : Type 0} → M D A → (A → M D B) → M D B
  ◌>>=◌ m f w = continue_with f (m w)

  abbrev pub ◌>>◌ : {A B : Type 0} → M D A → M D B → M D B
  ◌>>◌ m k = m >>= λ _. k

  -- `if b { return e }`
  abbrev pub fail_if : Bool → ApiError → M D (Unit {0})
  fail_if b e w = (if b then err e else ok tt, w)

  abbrev pub tick : World D → World D
  tick w = record w { calls = w.calls + 1 }

  -- A statement that reads.
  unfoldable pub query : {A : Type 0} → (D → A) → M D A
  query f w = (if w.faults w.calls then err database else ok (f w.db), tick w)

  -- A statement that writes; a statement that the database refuses has `none`.
  unfoldable pub exec? : (D → Option D) → M D (Unit {0})
  exec? f w = if w.faults w.calls then (err database, tick w) else elim (f w.db) [
    | none ↦ (err database, tick w)
    | some d ↦ (ok tt, record (tick w) { db = d })
  ]

  unfoldable pub exec : (D → D) → M D (Unit {0})
  exec f w =
      if w.faults w.calls then (err database, tick w) else (ok tt, record (tick w) { db = f w.db })

  -- A statement that writes, with an error of its own where a unique index refuses the row.
  unfoldable pub exec_unique : (D → Bool) → ApiError → (D → Option D) → M D (Unit {0})
  exec_unique taken e f w =
      if w.faults w.calls
      then (err database, tick w)
      else if taken w.db
      then (err e, tick w)
      else elim (f w.db) [
        | none ↦ (err database, tick w)
        | some d ↦ (ok tt, record (tick w) { db = d })
      ]

  -- `First`: a row, or gorm.ErrRecordNotFound.
  unfoldable pub first : {A : Type 0} → (D → Option A) → M D A
  first f w =
      if w.faults w.calls
      then (err database, tick w)
      else elim (f w.db) [ none ↦ (err record_not_found, tick w) | some a ↦ (ok a, tick w) ]

  abbrev pub with_error :
      {A : Type 0}
      → (ApiError → ApiError)
      → Result ApiError A × World D
      → Result ApiError A × World D
  with_error f (ok a, w) = (ok a, w)
  with_error f (err e, w) = (err (f e), w)
  with_error f (panic, w) = (panic, w)

  abbrev pub map_error : {A : Type 0} → (ApiError → ApiError) → M D A → M D A
  map_error f m w = with_error f (m w)

  -- The end of a transaction that began at d: an error rolls the writes back, and the commit
  -- itself may fail.
  abbrev pub commit : {A : Type 0} → D → Result ApiError A × World D → Result ApiError A × World D
  commit d (ok a, w) =
      if w.faults w.calls then (err database, record (tick w) { db = d }) else (ok a, tick w)
  commit d (err e, w) = (err e, record w { db = d })
  commit d (panic, w) = (panic, record w { db = d })

  -- `db.Transaction(...)`
  unfoldable pub transaction : {A : Type 0} → M D A → M D A
  transaction m w = commit w.db (m w)

  -- A call whose error is dropped: `_ = m`. The calls that the services make so do not panic; a panic
  -- of m, which Go would pass on, is not told apart here.
  unfoldable pub best_effort : M D (Unit {0}) → M D (Unit {0})
  best_effort m w = (ok tt, (m w).1)

  -- `uuid.New()`
  unfoldable pub new_id : M D ℕ
  new_id w = (ok (w.uuid w.drawn), record w { drawn = w.drawn + 1 })

  unfoldable pub time_now : M D ℕ
  time_now w = (ok w.now, w)

  -- `for _, x := range xs { if err := f(x); err != nil { return err } }`
  abbrev pub for_each : {A : Type 0} → (A → M D (Unit {0})) → List A → M D (Unit {0})
  for_each f [] = pure tt
  for_each f (x ∷ xs) = f x >> for_each f xs
