-- ===== src/Engine/Rounding/HandOut.antt =====
-- The leftover units are handed out one by one (for engine.go, lines 288-303).
use hamsa.Base.{
  ℕ, zero, suc, ◌+◌, ◌^◌, ◌≤◌, ◌<◌, ◌≡◌, refl, ap, ◌∙◌, List, [], ◌∷◌, map, length, sum, All, arith,
  ◌==◌, if◌then◌else◌, get_elem?, some, Bool-cases, inl, inr,
}
use hamsa.Base.Int.{pos}
use hamsa.Base.Int64.{add64-pos}
use hamsa.Base.Results.{ok}
use hamsa.Engine.Rat.{Rat}
use hamsa.Engine.Rounding.{Rem, before, insert_rem, sort_rems, remainders, bump, hand_out}

-- `out[i]++` on natural numbers.
abbrev bump_ℕ : ℕ → List ℕ → List ℕ
bump_ℕ i [] = []
bump_ℕ zero (x ∷ xs) = (x + 1) ∷ xs
bump_ℕ (suc i) (x ∷ xs) = x ∷ bump_ℕ i xs

abbrev pub bump_all : ℕ → List Rem → List ℕ → List ℕ
bump_all zero rems ns = ns
bump_all (suc k) [] ns = ns
bump_all (suc k) (r ∷ rems) ns = bump_all k rems (bump_ℕ r.idx ns)

sum-bump_ℕ : (i : ℕ) (ns : List ℕ) → i < length ns → sum (bump_ℕ i ns) ≡ sum ns + 1
sum-bump_ℕ i [] h = absurd (omega arith)
sum-bump_ℕ zero (x ∷ xs) h = omega arith
sum-bump_ℕ (suc i) (x ∷ xs) h = omega (arith, sum-bump_ℕ i xs)

length-bump_ℕ : (i : ℕ) (ns : List ℕ) → length (bump_ℕ i ns) ≡ length ns
length-bump_ℕ i [] = refl
length-bump_ℕ zero (x ∷ xs) = refl
length-bump_ℕ (suc i) (x ∷ xs) = ap suc (length-bump_ℕ i xs)

bump-pos : (i : ℕ) (ns : List ℕ) → sum ns + 1 < 2 ^ 63 → bump i (map pos ns) ≡ map pos (bump_ℕ i ns)
unfolding bump
bump-pos i [] h = refl
bump-pos zero (x ∷ xs) h = ap (λ z. z ∷ map pos xs) (add64-pos x 1 (omega arith))
bump-pos (suc i) (x ∷ xs) h = ap (λ z. pos x ∷ z) (bump-pos i xs (omega arith))

-- With a remainder for each unit left, and indices in range, no index panics.
pub hand_out-pos :
    (k n : ℕ) (rems : List Rem) (ns : List ℕ)
    → length ns ≡ n
    → All (λ r. r.idx < n) rems
    → k ≤ length rems
    → sum ns + k < 2 ^ 63
    → hand_out k rems (map pos ns) ≡ ok (map pos (bump_all k rems ns))
unfolding hand_out
hand_out-pos zero n rems ns e a h b = refl
hand_out-pos (suc k) n [] ns e a h b = absurd (omega arith)
hand_out-pos (suc k) n (r ∷ rems) ns e a h b =
    let i<n : r.idx < length ns = omega arith in
    ap (hand_out k rems) (bump-pos r.idx ns (omega arith))
    ∙ hand_out-pos k n rems (bump_ℕ r.idx ns) (length-bump_ℕ r.idx ns ∙ e) a.1 (omega arith)
        (omega (arith, sum-bump_ℕ r.idx ns i<n))

pub sum-bump_all :
    (k n : ℕ) (rems : List Rem) (ns : List ℕ)
    → length ns ≡ n
    → All (λ r. r.idx < n) rems
    → k ≤ length rems
    → sum (bump_all k rems ns) ≡ sum ns + k
sum-bump_all zero n rems ns e a h = omega arith
sum-bump_all (suc k) n [] ns e a h = absurd (omega arith)
sum-bump_all (suc k) n (r ∷ rems) ns e a h = omega (
  arith,
  sum-bump_ℕ r.idx ns,
  sum-bump_all k n rems (bump_ℕ r.idx ns) (length-bump_ℕ r.idx ns ∙ e) a.1 (omega arith),
)

pub length-bump_all :
    (k : ℕ) (rems : List Rem) (ns : List ℕ) → length (bump_all k rems ns) ≡ length ns
length-bump_all zero rems ns = refl
length-bump_all (suc k) [] ns = refl
length-bump_all (suc k) (r ∷ rems) ns =
    length-bump_all k rems (bump_ℕ r.idx ns) ∙ length-bump_ℕ r.idx ns

-- The sort keeps the length, and what holds of every remainder.
length-insert_rem : (r : Rem) (xs : List Rem) → length (insert_rem r xs) ≡ suc (length xs)
unfolding insert_rem
length-insert_rem r [] = refl
length-insert_rem r (x ∷ xs) = ground (arith, length-insert_rem r xs)

pub length-sort_rems : (xs : List Rem) → length (sort_rems xs) ≡ length xs
unfolding sort_rems
length-sort_rems [] = refl
length-sort_rems (x ∷ xs) = length-insert_rem x (sort_rems xs) ∙ ap suc (length-sort_rems xs)

module _ (P : Rem → Type 0) where
  All-insert_rem : (r : Rem) (xs : List Rem) → P r → All P xs → All P (insert_rem r xs)
  unfolding insert_rem
  All-insert_rem r [] h a = (h, tt)
  All-insert_rem r (x ∷ xs) h a = elim (Bool-cases (before x r)) [
    | inl e ↦ rw e (a.0, All-insert_rem r xs h a.1)
    | inr e ↦ rw e (h, a)
  ]

  pub All-sort_rems : (xs : List Rem) → All P xs → All P (sort_rems xs)
  unfolding sort_rems
  All-sort_rems [] a = tt
  All-sort_rems (x ∷ xs) a = All-insert_rem x (sort_rems xs) a.0 (All-sort_rems xs a.1)

pub remainders_in_range :
    (i n : ℕ) (es : List Rat) → i + length es ≤ n → All (λ r. r.idx < n) (remainders i es)
unfolding remainders
remainders_in_range i n [] h = tt
remainders_in_range i n (e ∷ es) h = (omega arith, remainders_in_range (i + 1) n es (omega arith))

-- How often an index stands among remainders, and among the first k of them.
abbrev occurrences : ℕ → List Rem → ℕ
occurrences i [] = 0
occurrences i (r ∷ rems) = (if r.idx == i then 1 else 0) + occurrences i rems

abbrev pub hits : ℕ → ℕ → List Rem → ℕ
hits zero i rems = 0
hits (suc k) i [] = 0
hits (suc k) i (r ∷ rems) = (if r.idx == i then 1 else 0) + hits k i rems

pub hits-le-occurrences : (k i : ℕ) (rems : List Rem) → hits k i rems ≤ occurrences i rems
hits-le-occurrences zero i rems = omega arith
hits-le-occurrences (suc k) i [] = omega arith
hits-le-occurrences (suc k) i (r ∷ rems) = omega (arith, hits-le-occurrences k i rems)

get_elem?-bump_ℕ :
    (i j v : ℕ) (ns : List ℕ)
    → get_elem? ns i ≡ some v
    → get_elem? (bump_ℕ j ns) i ≡ some (v + (if j == i then 1 else 0))
get_elem?-bump_ℕ i j v [] h = cc
get_elem?-bump_ℕ zero zero v (x ∷ xs) h = ground arith
get_elem?-bump_ℕ zero (suc j) v (x ∷ xs) h = ground arith
get_elem?-bump_ℕ (suc i) zero v (x ∷ xs) h = ground arith
get_elem?-bump_ℕ (suc i) (suc j) v (x ∷ xs) h = ground (arith, get_elem?-bump_ℕ i j v xs h)

-- A share grows by the number of its turns among the first k remainders.
pub get_elem?-bump_all :
    (k i v : ℕ) (rems : List Rem) (ns : List ℕ)
    → get_elem? ns i ≡ some v
    → get_elem? (bump_all k rems ns) i ≡ some (v + hits k i rems)
get_elem?-bump_all zero i v rems ns h = ground arith
get_elem?-bump_all (suc k) i v [] ns h = ground arith
get_elem?-bump_all (suc k) i v (r ∷ rems) ns h =
    get_elem?-bump_all k i _ rems (bump_ℕ r.idx ns) (get_elem?-bump_ℕ i r.idx v ns h)
    ∙ ap some (omega arith)

occurrences-insert_rem :
    (i : ℕ) (r : Rem) (xs : List Rem)
    → occurrences i (insert_rem r xs) ≡ (if r.idx == i then 1 else 0) + occurrences i xs
unfolding insert_rem
occurrences-insert_rem i r [] = refl
occurrences-insert_rem i r (x ∷ xs) = elim (Bool-cases (before x r)) [
  | inl e ↦ rw e (omega (arith, occurrences-insert_rem i r xs))
  | inr e ↦ rw e
]

pub occurrences-sort_rems :
    (i : ℕ) (xs : List Rem) → occurrences i (sort_rems xs) ≡ occurrences i xs
unfolding sort_rems
occurrences-sort_rems i [] = refl
occurrences-sort_rems i (x ∷ xs) =
    omega (arith, occurrences-insert_rem i x (sort_rems xs), occurrences-sort_rems i xs)

occurrences_below : (i j : ℕ) (es : List Rat) → i < j → occurrences i (remainders j es) ≡ 0
unfolding remainders
occurrences_below i j [] h = refl
occurrences_below i j (e ∷ es) h = ground (arith, occurrences_below i (j + 1) es)

-- Every index stands once.
pub occurrences_once : (i j : ℕ) (es : List Rat) → occurrences i (remainders j es) ≤ 1
unfolding remainders
occurrences_once i j [] = omega arith
occurrences_once i j (e ∷ es) =
    ground (arith, occurrences_once i (j + 1) es, occurrences_below i (j + 1) es)
