-- ===== src/Engine/Rounding.antt =====
-- Largest-remainder rounding: `allocateLargestRemainder` (engine.go, lines 268-304).
pub mod Split
pub mod HandOut
pub mod Totals
pub mod Fair
use hamsa.Base.{
  ℕ, zero, suc, ◌+◌, ◌≡◌, Bool, true, false, ◌&&◌, ◌||◌, not, List, [], ◌∷◌, map, ltb,
  if◌then◌else◌,
}
use hamsa.Base.Int.{ℤ, pos, pos_part, leb_ℤ}
use hamsa.Base.Int64.{wrap64, add64, sub64, sum_from64}
use hamsa.Base.Results.{Result, ok, panic}
use hamsa.Engine.Rat
use hamsa.Engine.Rat.{Rat}
use hamsa.Engine.Model.{EngineError}

-- `type rem struct`
pub record Rem : Type 0 where
  pub idx : ℕ
  pub frac : Rat

-- The order of the sort: larger remainder first, then lower index.
unfoldable pub before : Rem → Rem → Bool
before a b = Rat.less b.frac a.frac || (not (Rat.less a.frac b.frac) && ltb a.idx b.idx)

-- `sort.SliceStable` by `before`: a stable sort.
unfoldable pub insert_rem : Rem → List Rem → List Rem
insert_rem r [] = r ∷ []
insert_rem r (x ∷ xs) = if before x r then x ∷ insert_rem r xs else r ∷ x ∷ xs

unfoldable pub sort_rems : List Rem → List Rem
unfolding insert_rem
sort_rems [] = []
sort_rems (x ∷ xs) = insert_rem x (sort_rems xs)

-- `out[i]++`
unfoldable pub bump : ℕ → List ℤ → List ℤ
bump i [] = []
bump zero (x ∷ xs) = add64 x (pos 1) ∷ xs
bump (suc i) (x ∷ xs) = x ∷ bump i xs

-- `for i := 0; i < int(leftover); i++ { out[rems[i].idx]++ }`
unfoldable pub hand_out : ℕ → List Rem → List ℤ → Result EngineError (List ℤ)
hand_out zero rems out = ok out
hand_out (suc n) [] out = panic
hand_out (suc n) (r ∷ rems) out = hand_out n rems (bump r.idx out)

-- The integer part of a share, as an int64.
unfoldable pub floor64 : Rat → ℤ
floor64 e = wrap64 (Rat.truncate e)

unfoldable pub remainders : ℕ → List Rat → List Rem
remainders i [] = []
remainders i (e ∷ es) =
    record { idx = i; frac = Rat.sub e (Rat.set_int (Rat.truncate e)) } ∷ remainders (i + 1) es

-- The end of the function, once the floors and the leftover are known. The sort has no effect
-- on the early return, and is made there too.
unfoldable pub settle : ℤ → List Rem → List ℤ → Result EngineError (List ℤ)
unfolding hand_out
settle leftover rems out =
    if leb_ℤ leftover (pos 0) then ok out else hand_out (pos_part leftover) rems out

unfoldable pub allocate_largest_remainder : ℤ → List Rat → Result EngineError (List ℤ)
unfolding settle sort_rems remainders floor64
allocate_largest_remainder total exact =
    let out = map floor64 exact in
    settle (sub64 total (sum_from64 (pos 0) out)) (sort_rems (remainders 0 exact)) out
