-- ===== src/Engine/Methods/Success.antt =====
-- When `distribute` has a result (engine.go, lines 236-266).
use hamsa.Base.{ℕ, ◌^◌, ◌<◌, ◌≡◌, refl, ap, ◌∙◌, List, [], ◌∷◌, map, length, sum, All, arith}
use hamsa.Base.Int.{pos}
use hamsa.Base.Results.{ok}
use hamsa.Engine.Rat
use hamsa.Engine.Rat.{Rat}
use hamsa.Engine.Rat.Fractions.{ints}
use hamsa.Engine.Model.{EngineUnit, ItemResult}
use hamsa.Engine.Rounding.Totals.{rounded}
use hamsa.Engine.Methods.{distribute, distribute_by, close_item}
use hamsa.Engine.Methods.Shares.{make_shares-AreNonneg}
use hamsa.Engine.Methods.Distribute.{
  Splits, times, exact_split, distribute_by_pos, total-exact_split, close_item-Splits,
}
use hamsa.Engine.Rounding.Split.{fracs}

-- The weights are the natural numbers that n gives.
abbrev pub Weighs : (EngineUnit → Rat) → (EngineUnit → ℕ) → List EngineUnit → Type 0
Weighs weight n = All (λ u. weight u ≡ Rat.set_int (pos (n u)))

map-Weighs :
    (weight : EngineUnit → Rat) (n : EngineUnit → ℕ) (us : List EngineUnit)
    → Weighs weight n us
    → map weight us ≡ ints (map n us)
map-Weighs weight n [] h = refl
map-Weighs weight n (u ∷ us) h = λ i. h.0 i ∷ map-Weighs weight n us h.1 i

length-map : (n : EngineUnit → ℕ) (us : List EngineUnit) → length (map n us) ≡ length us
length-map n [] = refl
length-map n (u ∷ us) = ap ℕ.suc (length-map n us)

-- With natural weights that do not all vanish, the split exists.
pub distribute-succeeds :
    (id t : ℕ) (us : List EngineUnit) (weight : EngineUnit → Rat) (n : EngineUnit → ℕ)
    → Weighs weight n us
    → 0 < sum (map n us)
    → t < 2 ^ 63
    → (r : ItemResult) × (distribute id (pos t) us weight ≡ ok r) × Splits t r
unfolding distribute
distribute-succeeds id t [] weight n w h b = absurd (omega arith)
distribute-succeeds id t (u ∷ us) weight n w h b = (
  close_item id (pos t) (exact_split id t (u ∷ us) (map n (u ∷ us))),
  ap (distribute_by id (pos t) (u ∷ us)) (map-Weighs weight n (u ∷ us) w)
      ∙ distribute_by_pos id t (u ∷ us) (map n (u ∷ us)) h b,
  close_item-Splits id t (exact_split id t (u ∷ us) (map n (u ∷ us)))
      (make_shares-AreNonneg (u ∷ us) (fracs (sum (map n (u ∷ us))) (times t (map n (u ∷ us))))
        (rounded (sum (map n (u ∷ us))) t (times t (map n (u ∷ us)))))
      (total-exact_split id t (u ∷ us) (map n (u ∷ us)) h (length-map n (u ∷ us))) b,
)
