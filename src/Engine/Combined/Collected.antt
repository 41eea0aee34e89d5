-- ===== src/Engine/Combined/Collected.antt =====
-- Lemmas on the loop over the components of a combined item (engine.go, lines 169-232).
use hamsa.Base.{
  ℕ, suc, ◌+◌, ◌*◌, ◌^◌, ◌<◌, ◌≡◌, refl, ap, ◌∙◌, sym, List, [], ◌∷◌, map, length, sum, All, arith,
  true, subst, is_empty,
}
use hamsa.Base.Int.{ℤ, pos, negsuc, pos_part, neg_part, eqb_ℤ}
use hamsa.Base.Int64.{add64, add64-pos}
use hamsa.Base.Results.{ok, Sound, Sound-imp, bind-Sound, if-Sound, ◌>>=◌}
use hamsa.Engine.Model.{ComboWeight, CostItem, EngineUnit, Share}
use hamsa.Engine.Rounding.{allocate_largest_remainder}
use hamsa.Engine.Rounding.Totals.{rounded, sum-rounded, allocate-rounded, length-rounded}
use hamsa.Engine.Methods.Shares.{AreNonneg, total, total-sort_shares, All-sort_shares}
use hamsa.Engine.Methods.Distribute.{Splits, times, sum-times, length-times}
use hamsa.Engine.Combined.{
  sum_combo_weights, exact_pool, calc_pool, add_shares, run_pools, combined_result, run_item,
  calc_combined,
}
use hamsa.Engine.Combined.Pools.{
  nat_weights, ArePositive, SumsTo, sum_combo_weights-Sound, map-exact_pool, total-add_shares,
  sum_shares-Splits,
}
use hamsa.Engine.Combined.Splits.{HasFactors, calc_pool-Splits}

-- The running sum and the collected shares after the pools.
abbrev pub Collected : ℕ → ℤ × List Share → Type 0
Collected n out = (out.0 ≡ pos n) × AreNonneg out.1 × (total out.1 ≡ n)

zero_plus : {a b : ℕ} → a ≡ b → 0 + a ≡ b
zero_plus h = omega arith

length-nat_weights : (ws : List ComboWeight) → length (nat_weights ws) ≡ length ws
length-nat_weights [] = refl
length-nat_weights (w ∷ ws) = ap suc (length-nat_weights ws)

Collected-regroup :
    (r p q : ℕ) (out : ℤ × List Share) → Collected (r + p + q) out → Collected (r + (p + q)) out
Collected-regroup r p q out h = (h.0 ∙ ap pos (omega arith), h.1, omega arith)

weights_hundred : (n : ℕ) (z : ℤ) → z ≡ pos (0 + n) → eqb_ℤ z (pos 100) ≡ true → n ≡ 100
weights_hundred n (pos m) h q = let k : m ≡ 0 + n = ap pos_part h in ground arith
weights_hundred n (negsuc m) h q = cc

run_pools-Collected :
    (item : CostItem) (units : List EngineUnit) (ws : List ComboWeight) (ps : List ℕ) (r : ℕ)
    (acc : List Share)
    → All HasFactors units
    → length ps ≡ length ws
    → r + sum ps < 2 ^ 63
    → AreNonneg acc
    → total acc ≡ r
    → Sound (Collected (r + sum ps)) (run_pools item units ws (map pos ps) (pos r) acc)
unfolding run_pools
run_pools-Collected item units [] [] r acc h l b n e = (ap pos (omega arith), n, omega arith)
run_pools-Collected item units [] (p ∷ ps) r acc h l b n e = absurd (omega arith)
run_pools-Collected item units (w ∷ ws) [] r acc h l b n e = absurd (omega arith)
run_pools-Collected item units (w ∷ ws) (p ∷ ps) r acc h l b n e =
    bind-Sound (Splits p) (Collected (r + sum (p ∷ ps))) (calc_pool item units w (pos p)) _
      (calc_pool-Splits units h p (omega arith) item w)
      (λ res k.
        let s : total res.shares ≡ p = ap pos_part (k.0.exact ∙ k.1) in
        let bound : p < 2 ^ 63 = omega arith in
        let (n', e') = total-add_shares res.shares acc n k.0.nonneg (omega arith) in
        subst
          (λ z.
            Sound (Collected (r + sum (p ∷ ps)))
              (run_pools item units ws (map pos ps) z (add_shares res.shares acc)))
          (sym (ap (add64 (pos r)) (sum_shares-Splits p res k bound) ∙ add64-pos r p (omega arith)))
          (Sound-imp (Collected (r + p + sum ps)) (Collected (r + sum (p ∷ ps))) _
            (run_pools-Collected item units ws ps (r + p) (add_shares res.shares acc) h
              (omega arith) (omega arith) n' (omega arith))
            (Collected-regroup r p (sum ps))))

module _ (units : List EngineUnit) (h : All HasFactors units) (t : ℕ) (b : t < 2 ^ 63) where
  abbrev pub pools : CostItem → List ℕ
  pools item = rounded 100 t (times t (nat_weights item.combo_weights))

  sum-pools : (item : CostItem) → sum (nat_weights item.combo_weights) ≡ 100 → sum (pools item) ≡ t
  sum-pools item s =
      sum-rounded 100 t (times t (nat_weights item.combo_weights)) (omega arith)
        (sum-times t (nat_weights item.combo_weights) ∙ ap (λ n. t * n) s)

  length-pools : (item : CostItem) → length (pools item) ≡ length item.combo_weights
  length-pools item =
      length-rounded 100 t (times t (nat_weights item.combo_weights))
      ∙ length-times t (nat_weights item.combo_weights)
      ∙ length-nat_weights item.combo_weights

  pools-eq :
      (item : CostItem)
      → item.total ≡ pos t
      → ArePositive item.combo_weights
      → sum (nat_weights item.combo_weights) ≡ 100
      → allocate_largest_remainder item.total (map (exact_pool item.total) item.combo_weights)
        ≡ ok (map pos (pools item))
  pools-eq item e p s =
      ap (λ z. allocate_largest_remainder z (map (exact_pool z) item.combo_weights)) e
      ∙ ap (allocate_largest_remainder (pos t)) (map-exact_pool t item.combo_weights p)
      ∙ allocate-rounded 100 t (times t (nat_weights item.combo_weights)) (omega arith)
          (sum-times t (nat_weights item.combo_weights) ∙ ap (λ n. t * n) s) b

  combined_result-Splits :
      (item : CostItem) (out : ℤ × List Share)
      → item.total ≡ pos t
      → sum (pools item) ≡ t
      → Collected (0 + sum (pools item)) out
      → Splits t (combined_result item out)
  unfolding combined_result
  combined_result-Splits item out e s k = (
    record {
      nonneg = All-sort_shares (λ s. neg_part s.rounded ≡ 0) out.1 k.1;
      exact = ap pos (total-sort_shares out.1 ∙ k.2 ∙ zero_plus s) ∙ sym e;
      flagged = rw (e, k.0) (ground (arith, s));
    },
    e,
  )

  run_item-Splits :
      (item : CostItem)
      → item.total ≡ pos t
      → ArePositive item.combo_weights
      → sum (nat_weights item.combo_weights) ≡ 100
      → Sound (Splits t) (run_item item units)
  unfolding run_item
  run_item-Splits item e p s =
      subst
        (λ m. Sound (Splits t) (
          m >>= λ pools. run_pools item units item.combo_weights pools (pos 0) [] >>= λ out.
          ok (combined_result item out)))
        (sym (pools-eq item e p s))
        (bind-Sound (Collected (0 + sum (pools item))) (Splits t) _ _
          (run_pools-Collected item units item.combo_weights (pools item) 0 [] h (length-pools item)
            (omega (arith, sum-pools item s)) tt refl)
          (λ out k. combined_result-Splits item out e (sum-pools item s) k))

  pub calc_combined-Splits :
      (item : CostItem)
      → item.total ≡ pos t
      → sum (nat_weights item.combo_weights) < 2 ^ 63
      → Sound (Splits t) (calc_combined item units)
  unfolding calc_combined
  calc_combined-Splits item e s =
      if-Sound (Splits t) (is_empty item.combo_weights) _ _ (λ _. tt)
        (λ _.
          bind-Sound (SumsTo (0 + sum (nat_weights item.combo_weights)) item.combo_weights)
            (Splits t) (sum_combo_weights (pos 0) item.combo_weights) _
            (sum_combo_weights-Sound 0 item.combo_weights (omega arith))
            (λ z k.
              if-Sound (Splits t) (eqb_ℤ z (pos 100)) _ _
                (λ q.
                  run_item-Splits item e k.1
                    (weights_hundred (sum (nat_weights item.combo_weights)) z k.0 q))
                (λ _. tt)))
