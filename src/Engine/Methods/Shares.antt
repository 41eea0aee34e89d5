-- ===== src/Engine/Methods/Shares.antt =====
-- Sums of shares under the sort by unit id (for engine.go, lines 255-315).
use hamsa.Base.{
  ℕ, ◌+◌, ◌^◌, ◌<◌, ◌≡◌, refl, ap, ◌∙◌, List, [], ◌∷◌, map, length, sum, All, arith, Bool-cases,
  inl, inr, ltb,
}
use hamsa.Base.Int.{ℤ, pos, negsuc, pos_part, neg_part}
use hamsa.Base.Int64.{add64, add64-pos}
use hamsa.Engine.Rat.{Rat}
use hamsa.Engine.Model.{Share, EngineUnit}
use hamsa.Engine.Methods.{insert_share, sort_shares, sum_shares_from, make_shares}

-- No share is negative.
abbrev pub AreNonneg : List Share → Type 0
AreNonneg = All (λ s. neg_part s.rounded ≡ 0)

-- The sum of the shares, with no wrap-around.
abbrev pub total : List Share → ℕ
total [] = 0
total (s ∷ ss) = pos_part s.rounded + total ss

add64_nonneg :
    (a : ℕ) (z : ℤ)
    → neg_part z ≡ 0
    → a + pos_part z < 2 ^ 63
    → add64 (pos a) z ≡ pos (a + pos_part z)
add64_nonneg a (pos n) h b = add64-pos a n b
add64_nonneg a (negsuc n) h b = absurd (omega arith)

pub sum_shares_from-total :
    (a : ℕ) (ss : List Share)
    → AreNonneg ss
    → a + total ss < 2 ^ 63
    → sum_shares_from (pos a) ss ≡ pos (a + total ss)
unfolding sum_shares_from
sum_shares_from-total a [] n b = ap pos (omega arith)
sum_shares_from-total a (s ∷ ss) n b =
    ap (λ z. sum_shares_from z ss) (add64_nonneg a s.rounded n.0 (omega arith))
    ∙ sum_shares_from-total (a + pos_part s.rounded) ss n.1 (omega arith)
    ∙ ap pos (omega arith)

total-insert_share :
    (s : Share) (ss : List Share) → total (insert_share s ss) ≡ pos_part s.rounded + total ss
unfolding insert_share
total-insert_share s [] = refl
total-insert_share s (x ∷ xs) = elim (Bool-cases (ltb x.unit_id s.unit_id)) [
  | inl e ↦ rw e (omega (arith, total-insert_share s xs))
  | inr e ↦ rw e
]

pub total-sort_shares : (ss : List Share) → total (sort_shares ss) ≡ total ss
unfolding sort_shares
total-sort_shares [] = refl
total-sort_shares (s ∷ ss) =
    omega (arith, total-insert_share s (sort_shares ss), total-sort_shares ss)

module _ (P : Share → Type 0) where
  All-insert_share : (s : Share) (ss : List Share) → P s → All P ss → All P (insert_share s ss)
  unfolding insert_share
  All-insert_share s [] h a = (h, tt)
  All-insert_share s (x ∷ xs) h a = elim (Bool-cases (ltb x.unit_id s.unit_id)) [
    | inl e ↦ rw e (a.0, All-insert_share s xs h a.1)
    | inr e ↦ rw e (h, a)
  ]

  pub All-sort_shares : (ss : List Share) → All P ss → All P (sort_shares ss)
  unfolding sort_shares
  All-sort_shares [] a = tt
  All-sort_shares (s ∷ ss) a = All-insert_share s (sort_shares ss) a.0 (All-sort_shares ss a.1)

-- Shares made of natural numbers.
pub make_shares-AreNonneg :
    (us : List EngineUnit) (es : List Rat) (ns : List ℕ)
    → AreNonneg (make_shares us es (map pos ns))
unfolding make_shares
make_shares-AreNonneg [] es ns = tt
make_shares-AreNonneg (u ∷ us) [] ns = tt
make_shares-AreNonneg (u ∷ us) (e ∷ es) [] = tt
make_shares-AreNonneg (u ∷ us) (e ∷ es) (n ∷ ns) = (refl, make_shares-AreNonneg us es ns)

pub total-make_shares :
    (us : List EngineUnit) (es : List Rat) (ns : List ℕ)
    → length es ≡ length us
    → length ns ≡ length us
    → total (make_shares us es (map pos ns)) ≡ sum ns
unfolding make_shares
total-make_shares [] es [] p q = refl
total-make_shares [] es (n ∷ ns) p q = absurd (omega arith)
total-make_shares (u ∷ us) [] ns p q = absurd (omega arith)
total-make_shares (u ∷ us) (e ∷ es) [] p q = absurd (omega arith)
total-make_shares (u ∷ us) (e ∷ es) (n ∷ ns) p q =
    omega (arith, total-make_shares us es ns (omega arith) (omega arith))
