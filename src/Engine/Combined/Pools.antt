-- ===== src/Engine/Combined/Pools.antt =====
-- The pools of a combined item, and the shares collected from them (engine.go, lines 184-231).
use hamsa.Base.{
  ℕ, ◌+◌, ◌*◌, ◌^◌, ◌<◌, ◌≡◌, refl, ap, ◌∙◌, sym, List, [], ◌∷◌, map, sum, All, arith, false,
  Bool-cases, inl, inr, Bool, ◌||◌, ◌==◌, subst,
}
use hamsa.Base.Int.{ℤ, pos, negsuc, pos_part, neg_part, leb_ℤ}
use hamsa.Base.Int64.{add64, add64-pos}
use hamsa.Base.Results.{Sound, Sound-imp}
use hamsa.Engine.Rat.{frac}
use hamsa.Engine.Rat.Fractions.{quo-mul}
use hamsa.Engine.Model.{ComboWeight, Share, ItemResult}
use hamsa.Engine.Rounding.Split.{fracs}
use hamsa.Engine.Methods.{sum_shares}
use hamsa.Engine.Methods.Shares.{AreNonneg, total, sum_shares_from-total}
use hamsa.Engine.Methods.Distribute.{times, Splits}
use hamsa.Engine.Combined.{is_combined, sum_combo_weights, exact_pool, add_share, add_shares}

-- The weights as natural numbers.
abbrev pub nat_weights : List ComboWeight → List ℕ
nat_weights [] = []
nat_weights (w ∷ ws) = pos_part w.weight ∷ nat_weights ws

add64_nonneg :
    (a b : ℤ)
    → neg_part a ≡ 0
    → neg_part b ≡ 0
    → pos_part a + pos_part b < 2 ^ 63
    → add64 a b ≡ pos (pos_part a + pos_part b)
add64_nonneg (pos m) (pos n) h k b = add64-pos m n b
add64_nonneg (pos m) (negsuc n) h k b = absurd (omega arith)
add64_nonneg (negsuc m) b h k c = absurd (omega arith)

eq_pos : (z : ℤ) → neg_part z ≡ 0 → z ≡ pos (pos_part z)
eq_pos (pos n) h = refl
eq_pos (negsuc n) h = absurd (omega arith)

add64_parts :
    (a b : ℤ)
    → neg_part a ≡ 0
    → neg_part b ≡ 0
    → pos_part a + pos_part b < 2 ^ 63
    → (neg_part (add64 a b) ≡ 0) × (pos_part (add64 a b) ≡ pos_part a + pos_part b)
add64_parts a b h k c = (ap neg_part (add64_nonneg a b h k c), ap pos_part (add64_nonneg a b h k c))

-- Valid weights are positive, and their sum is the true sum.
abbrev pub ArePositive : List ComboWeight → Type 0
ArePositive = All (λ w. neg_part w.weight ≡ 0)

abbrev pub SumsTo : ℕ → List ComboWeight → ℤ → Type 0
SumsTo n ws z = (z ≡ pos n) × ArePositive ws

positive : (z : ℤ) (b : Bool) → (leb_ℤ z (pos 0) || b) ≡ false → neg_part z ≡ 0
positive (pos n) b h = refl
positive (negsuc n) b h = ground arith

regroup : (a b c : ℕ) → ◌≡◌ {A = ℤ} (pos (a + b + c)) (pos (a + (b + c)))
regroup a b c = ap pos (omega arith)

pub sum_combo_weights-Sound :
    (acc : ℕ) (ws : List ComboWeight)
    → acc + sum (nat_weights ws) < 2 ^ 63
    → Sound (SumsTo (acc + sum (nat_weights ws)) ws) (sum_combo_weights (pos acc) ws)
unfolding sum_combo_weights
sum_combo_weights-Sound acc [] b = (ap pos (omega arith), tt)
sum_combo_weights-Sound acc (w ∷ ws) b =
    elim (Bool-cases (leb_ℤ w.weight (pos 0) || is_combined w.method)) [
      | inl e ↦ rw e tt
      | inr e ↦
          let k : neg_part w.weight ≡ 0 = positive w.weight (is_combined w.method) e in
          let bound : acc + pos_part w.weight + sum (nat_weights ws) < 2 ^ 63 = omega arith in
          rw e (
            subst
              (λ z.
                Sound (SumsTo (acc + sum (nat_weights (w ∷ ws))) (w ∷ ws)) (sum_combo_weights z ws))
              (sym (add64_nonneg (pos acc) w.weight refl k (omega arith)))
              (Sound-imp (SumsTo (acc + pos_part w.weight + sum (nat_weights ws)) ws)
                (SumsTo (acc + sum (nat_weights (w ∷ ws))) (w ∷ ws))
                (sum_combo_weights (pos (acc + pos_part w.weight)) ws)
                (sum_combo_weights-Sound (acc + pos_part w.weight) ws bound)
                (λ z h. (h.0 ∙ regroup acc (pos_part w.weight) (sum (nat_weights ws)), (k, h.1)))))
    ]

exact_pool-frac :
    (t : ℕ) (w : ComboWeight)
    → neg_part w.weight ≡ 0
    → exact_pool (pos t) w ≡ frac (t * pos_part w.weight) 100
unfolding exact_pool
exact_pool-frac t w k = rw (eq_pos w.weight k) (quo-mul t (pos_part w.weight) 100)

-- The pools are the exact shares of the total by weight.
pub map-exact_pool :
    (t : ℕ) (ws : List ComboWeight)
    → ArePositive ws
    → map (exact_pool (pos t)) ws ≡ fracs 100 (times t (nat_weights ws))
map-exact_pool t [] h = refl
map-exact_pool t (w ∷ ws) h = λ i. exact_pool-frac t w h.0 i ∷ map-exact_pool t ws h.1 i

-- Collecting shares adds their sum.
total-add_share :
    (sh : Share) (acc : List Share)
    → AreNonneg acc
    → neg_part sh.rounded ≡ 0
    → total acc + pos_part sh.rounded < 2 ^ 63
    → AreNonneg (add_share sh acc) × (total (add_share sh acc) ≡ total acc + pos_part sh.rounded)
unfolding add_share
total-add_share sh [] n k b =
    let h = add64_parts (pos 0) sh.rounded refl k (omega arith) in ((h.0, tt), omega arith)
total-add_share sh (x ∷ xs) n k b = elim (Bool-cases (x.unit_id == sh.unit_id)) [
  | inl e ↦
      let h = add64_parts x.rounded sh.rounded n.0 k (omega arith) in rw e ((h.0, n.1), omega arith)
  | inr e ↦ let (p, q) = total-add_share sh xs n.1 k (omega arith) in rw e ((n.0, p), omega arith)
]

pub total-add_shares :
    (shs acc : List Share)
    → AreNonneg acc
    → AreNonneg shs
    → total acc + total shs < 2 ^ 63
    → AreNonneg (add_shares shs acc) × (total (add_shares shs acc) ≡ total acc + total shs)
unfolding add_shares
total-add_shares [] acc n m b = (n, omega arith)
total-add_shares (sh ∷ shs) acc n m b =
    let (p, q) = total-add_share sh acc n m.0 (omega arith) in
    let (p', q') = total-add_shares shs (add_share sh acc) p m.1 (omega arith) in (p', omega arith)

total-pos : (a t : ℕ) → a ≡ t → ◌≡◌ {A = ℤ} (pos (0 + a)) (pos t)
total-pos a t h = ap pos (omega arith)

-- The sum of a result that splits t.
pub sum_shares-Splits : (t : ℕ) (r : ItemResult) → Splits t r → t < 2 ^ 63 → sum_shares r ≡ pos t
unfolding sum_shares
sum_shares-Splits t r h b =
    let q : total r.shares ≡ t = ap pos_part (h.0.exact ∙ h.1) in
    sum_shares_from-total 0 r.shares h.0.nonneg (omega arith) ∙ total-pos (total r.shares) t q
