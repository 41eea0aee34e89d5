-- ===== src/Maintenance/Lifecycle.antt =====
-- The workflow of a request as a relation (backend/internal/maintenance/models.go, lines 43-64).
use hamsa.Base.{ℕ, ◌≡◌, ◌≤◌, ◌+◌, true, arith}
use hamsa.Maintenance.Model.{Status, new, under_review, in_progress, done, closed, can_transition}

-- The statuses that a sequence of n moves leads to.
pub data Reaches (a : Status) : ℕ → Status → Type 0 where
  stay : Reaches a 0 a
  move : (n : ℕ) (b c : Status) → Reaches a n b → can_transition b c ≡ true → Reaches a (n + 1) c

-- How far a status is from the start.
abbrev pub rank : Status → ℕ
rank new = 0
rank under_review = 1
rank in_progress = 2
rank done = 3
rank closed = 4

can_transition-rank : (b c : Status) → can_transition b c ≡ true → rank b + 1 ≤ rank c
unfolding can_transition
can_transition-rank b c h = ground arith

-- After n moves the rank has grown by n at least, so no status comes back.
pub Reaches-rank : (a b : Status) (n : ℕ) → Reaches a n b → rank a + n ≤ rank b
Reaches-rank a _ _ stay = omega arith
Reaches-rank a c _ (move n b _ r h) = omega (arith, Reaches-rank a b n r, can_transition-rank b c h)
