-- ===== src/Engine/Rounding/Totals.antt =====
-- What `allocateLargestRemainder` promises (engine.go, lines 268-304).
use hamsa.Base.{
  ℕ, zero, suc, ◌+◌, ◌*◌, ◌-◌, ◌^◌, ◌≤◌, ◌<◌, ◌≡◌, refl, ap, ◌∙◌, List, map, length, sum, All,
  arith,
}
use hamsa.Base.Int.{ℤ, pos}
use hamsa.Base.Int64.{sub64, sub64-pos, sum_from64, sum_from64-pos}
use hamsa.Base.Results.{ok}
use hamsa.Engine.Rounding.{Rem, sort_rems, remainders, hand_out, settle, allocate_largest_remainder}
use hamsa.Engine.Rounding.Split.{
  fracs, quots, mods, sum-quots-mods, sum-mods-le, length-quots, floor64-fracs, length-remainders,
  length-fracs, leftover_fits,
}
use hamsa.Engine.Rounding.HandOut.{
  bump_all, hand_out-pos, sum-bump_all, length-bump_all, length-sort_rems, All-sort_rems,
  remainders_in_range,
}

-- The remainders in the order in which they get a unit.
abbrev pub ranking : ℕ → List ℕ → List Rem
ranking s ps = sort_rems (remainders 0 (fracs s ps))

-- The rounded shares of p / s, for p in ps, that add up to t.
abbrev pub rounded : ℕ → ℕ → List ℕ → List ℕ
rounded s t ps = bump_all (t - sum (quots s ps)) (ranking s ps) (quots s ps)

settle_lem :
    (k : ℕ) (rems : List Rem) (out : List ℤ) → settle (pos k) rems out ≡ hand_out k rems out
unfolding settle hand_out
settle_lem zero rems out = refl
settle_lem (suc k) rems out = ground arith

module _ (s t : ℕ) (ps : List ℕ) (h : 0 < s) (e : sum ps ≡ t * s) where
  pub fits : (sum (quots s ps) ≤ t) × (t ≤ sum (quots s ps) + length ps)
  fits =
      leftover_fits s t (sum (quots s ps)) (sum (mods s ps)) (length ps) h
        (omega (arith, sum-quots-mods s ps)) (sum-mods-le s ps h)

  length-ranking : length (ranking s ps) ≡ length ps
  length-ranking =
      length-sort_rems (remainders 0 (fracs s ps))
      ∙ length-remainders 0 (fracs s ps)
      ∙ length-fracs s ps

  ranking_in_range : All (λ r. r.idx < length ps) (ranking s ps)
  ranking_in_range =
      All-sort_rems (λ r. r.idx < length ps) (remainders 0 (fracs s ps))
        (remainders_in_range 0 (length ps) (fracs s ps) (omega (arith, length-fracs s ps)))

  pub sum-rounded : sum (rounded s t ps) ≡ t
  sum-rounded = omega (
    arith,
    fits,
    sum-bump_all (t - sum (quots s ps)) (length ps) (ranking s ps) (quots s ps) (length-quots s ps)
        ranking_in_range (omega (arith, length-ranking, fits)),
  )

  pub allocate-rounded :
      t < 2 ^ 63 → allocate_largest_remainder (pos t) (fracs s ps) ≡ ok (map pos (rounded s t ps))
  unfolding allocate_largest_remainder
  allocate-rounded b =
      ap (λ out. settle (sub64 (pos t) (sum_from64 (pos 0) out)) (ranking s ps) out)
        (floor64-fracs s ps (omega (arith, fits)))
      ∙ ap (λ z. settle (sub64 (pos t) z) (ranking s ps) (map pos (quots s ps)))
          (sum_from64-pos 0 (quots s ps) (omega (arith, fits)))
      ∙ ap (λ z. settle z (ranking s ps) (map pos (quots s ps)))
          (sub64-pos t (0 + sum (quots s ps)) (omega (arith, fits)) b ∙ ap pos (omega arith))
      ∙ settle_lem (t - sum (quots s ps)) (ranking s ps) (map pos (quots s ps))
      ∙ hand_out-pos (t - sum (quots s ps)) (length ps) (ranking s ps) (quots s ps)
          (length-quots s ps) ranking_in_range (omega (arith, length-ranking, fits))
          (omega (arith, fits))

pub length-rounded : (s t : ℕ) (ps : List ℕ) → length (rounded s t ps) ≡ length ps
length-rounded s t ps =
    length-bump_all (t - sum (quots s ps)) (ranking s ps) (quots s ps) ∙ length-quots s ps
