-- ===== src/Engine/Fees.antt =====
-- Late fees (engine.go, lines 30-38 and 317-351).
use hamsa.Base.{if◌then◌else◌}
use hamsa.Base.Int.{ℤ, pos, ltb_ℤ, ◌+ℤ◌}
use hamsa.Base.Int64.{wrap64, mul64}
use hamsa.Base.Results.{ok, err}
use hamsa.Engine.Rat
use hamsa.Engine.Rat.{Rat}
use hamsa.Engine.Model.{unknown_late_fee}
use hamsa.Engine.Methods.{Outcome}

-- `LateFeeType`: `other` stands for every string that is no constant.
pub data FeeKind : Type 0 where
  none fixed percent per_day other : FeeKind

abbrev half : Rat
half = record { num = pos 1; den = 2 }

-- `roundRat`. The fraction comes from a float64, so its denominator is a power of two and the
-- conversion through big.Float is exact: `Int` truncates the fraction itself.
unfoldable round_rat : Rat → ℤ
round_rat r =
    let i = Rat.truncate r in
    if Rat.less (Rat.sub r (Rat.set_int i)) half then wrap64 i else wrap64 (i +ℤ pos 1)

-- `percent_of` is the float64 division by 100, which rounds.
unfoldable pub late_fee : (Rat → Rat) → FeeKind → Rat → ℤ → ℤ → Outcome ℤ
unfolding round_rat
late_fee percent_of FeeKind.none value base days = ok (pos 0)
late_fee percent_of fixed value base days = ok (round_rat value)
late_fee percent_of percent value base days =
    ok (round_rat (Rat.mul (Rat.set_int base) (percent_of value)))
late_fee percent_of per_day value base days =
    ok (mul64 (if ltb_ℤ days (pos 0) then pos 0 else days) (round_rat value))
late_fee percent_of other value base days = err unknown_late_fee
