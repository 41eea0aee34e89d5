-- ===== src/Engine/Rat/Fractions.antt =====
-- The engine's rational arithmetic on non-negative inputs, as arithmetic on natural numbers.
use mathlib.Core.List.{foldl}
use hamsa.Base.{ℕ, ◌+◌, ◌*◌, ◌≡◌, ap, ◌∙◌, List, [], ◌∷◌, sum, arith}
use hamsa.Base.Int.{pos, ◌+ℤ◌, ◌*ℤ◌}
use hamsa.Engine.Rat.{Rat, set_int, add, mul, quo, frac}

add-set_int : (a b : ℕ) → add (set_int (pos a)) (set_int (pos b)) ≡ set_int (pos (a + b))
unfolding add set_int ◌+ℤ◌ ◌*ℤ◌
add-set_int a b = ground arith

-- `total * (w / sum)`
pub mul-quo :
    (t w s : ℕ) → mul (set_int (pos t)) (quo (set_int (pos w)) (set_int (pos s))) ≡ frac (t * w) s
unfolding mul quo set_int ◌*ℤ◌
mul-quo t w s = ground arith

-- `total * weight / d`
pub quo-mul :
    (t w d : ℕ) → quo (mul (set_int (pos t)) (set_int (pos w))) (set_int (pos d)) ≡ frac (t * w) d
unfolding mul quo set_int ◌*ℤ◌
quo-mul t w d = ground arith

abbrev pub ints : List ℕ → List Rat
ints [] = []
ints (w ∷ ws) = set_int (pos w) ∷ ints ws

pub foldl-add :
    (a : ℕ) (ws : List ℕ) → foldl add (set_int (pos a)) (ints ws) ≡ set_int (pos (a + sum ws))
foldl-add a [] = ap (λ n. set_int (pos n)) (omega arith)
foldl-add a (w ∷ ws) =
    ap (λ z. foldl add z (ints ws)) (add-set_int a w)
    ∙ foldl-add (a + w) ws
    ∙ ap (λ n. set_int (pos n)) (omega arith)
