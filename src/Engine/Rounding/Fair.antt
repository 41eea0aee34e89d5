-- ===== src/Engine/Rounding/Fair.antt =====
-- The rounded shares against their exact shares (for engine.go, lines 268-304).
use hamsa.Base.{
  ℕ, zero, suc, ◌+◌, ◌*◌, ◌/◌, ◌^◌, ◌-◌, ◌≤◌, ◌<◌, ◌≡◌, refl, List, [], ◌∷◌, map, length, sum,
  arith, get_elem?, some,
}
use hamsa.Base.Int.{pos}
use hamsa.Base.Results.{ok}
use hamsa.Engine.Rounding.{allocate_largest_remainder, remainders}
use hamsa.Engine.Rounding.Split.{fracs, quots}
use hamsa.Engine.Rounding.HandOut.{
  hits, hits-le-occurrences, get_elem?-bump_all, occurrences-sort_rems, occurrences_once,
}
use hamsa.Engine.Rounding.Totals.{ranking, rounded, sum-rounded, allocate-rounded, length-rounded}

-- Each r is the floor of p / s, or one more.
abbrev pub Near : ℕ → List ℕ → List ℕ → Type 0
Near s [] [] = Unit
Near s (p ∷ ps) (r ∷ rs) = (p / s ≤ r) × (r ≤ p / s + 1) × Near s ps rs
Near s _ _ = ⊥

get_elem?-quots :
    (s i p : ℕ) (ps : List ℕ) → get_elem? ps i ≡ some p → get_elem? (quots s ps) i ≡ some (p / s)
get_elem?-quots s i p [] h = cc
get_elem?-quots s zero p (x ∷ xs) h = ground arith
get_elem?-quots s (suc i) p (x ∷ xs) h = get_elem?-quots s i p xs h

-- A list whose elements are near is near.
pointwise_lem :
    (s : ℕ) (ps rs : List ℕ)
    → length rs ≡ length ps
    → ((i p : ℕ)
        → get_elem? ps i ≡ some p
        → (v : ℕ) × (get_elem? rs i ≡ some v) × (p / s ≤ v) × (v ≤ p / s + 1))
    → Near s ps rs
pointwise_lem s [] [] e h = tt
pointwise_lem s [] (r ∷ rs) e h = absurd (omega arith)
pointwise_lem s (p ∷ ps) [] e h = absurd (omega arith)
pointwise_lem s (p ∷ ps) (r ∷ rs) e h =
    let k = h 0 p refl in
    let q : k.0 ≡ r = ground arith in
    (
      omega (arith, k.2, q),
      omega (arith, k.3, q),
      pointwise_lem s ps rs (omega arith) (λ i. h (suc i)),
    )

-- For natural numbers p that add up to t times a positive s, with t in range, the exact shares p / s of t are
-- rounded without a panic to natural numbers, as many, that add up to t; each is the floor of
-- its exact share, or one more.
pub allocate-Near :
    (s t : ℕ) (ps : List ℕ)
    → 0 < s
    → sum ps ≡ t * s
    → t < 2 ^ 63
    → (rs : List ℕ) × (allocate_largest_remainder (pos t) (fracs s ps) ≡ ok (map pos rs))
      × (length rs ≡ length ps)
      × (sum rs ≡ t)
      × Near s ps rs
allocate-Near s t ps h e b = (
  rounded s t ps,
  allocate-rounded s t ps h e b,
  length-rounded s t ps,
  sum-rounded s t ps h e,
  pointwise_lem s ps (rounded s t ps) (length-rounded s t ps) (λ i p g. (
    p / s + hits (t - sum (quots s ps)) i (ranking s ps),
    get_elem?-bump_all (t - sum (quots s ps)) i (p / s) (ranking s ps) (quots s ps)
        (get_elem?-quots s i p ps g),
    omega arith,
    omega (
      arith,
      hits-le-occurrences (t - sum (quots s ps)) i (ranking s ps),
      occurrences-sort_rems i (remainders 0 (fracs s ps)),
      occurrences_once i 0 (fracs s ps),
    ),
  )),
)
