-- ===== src/Base/Trimming.antt =====
-- The text that strings.TrimSpace leaves has nothing to trim.
use mathlib.Core.Path.{◌≡◌, refl, sym, ap, ◌∙◌, subst}
use mathlib.Core.Bool.{Bool, true, false, not}
use mathlib.Core.List.{[], ◌∷◌, ◌++◌, reverse, reverse-append, reverse-reverse}
use native.Mathlib.Omega.{arith}
use hamsa.Base.Text.{Text, is_space, drop_spaces, trim_space}

abbrev starts_filled : Text → Bool
starts_filled [] = true
starts_filled (c ∷ cs) = not (is_space c)

drop_spaces-starts_filled : (s : Text) → starts_filled (drop_spaces s) ≡ true
drop_spaces-starts_filled [] = refl
drop_spaces-starts_filled (c ∷ cs) = ground (arith, drop_spaces-starts_filled cs)

drop_spaces-keeps : (s : Text) → starts_filled s ≡ true → drop_spaces s ≡ s
drop_spaces-keeps [] h = refl
drop_spaces-keeps (c ∷ cs) h = ground arith

starts_filled-prefix : (xs ys : Text) → starts_filled (xs ++ ys) ≡ true → starts_filled xs ≡ true
starts_filled-prefix [] ys h = refl
starts_filled-prefix (x ∷ xs) ys h = h

-- The spaces in front, and what is left.
spaces_before : (s : Text) → (p : Text) × (s ≡ p ++ drop_spaces s)
spaces_before [] = ([], refl)
spaces_before (c ∷ cs) = go (spaces_before cs) (is_space c) refl
  where
    go :
        ((p : Text) × (cs ≡ p ++ drop_spaces cs))
        → (b : Bool) → is_space c ≡ b
        → (p : Text) × (c ∷ cs ≡ p ++ drop_spaces (c ∷ cs))
    go (p, e) true h = (c ∷ p, rw h (ap (λ t. c ∷ t) e))
    go q false h = ([], rw h refl)

trimmed-starts_filled : (s : Text) → starts_filled (trim_space s) ≡ true
unfolding trim_space
trimmed-starts_filled s =
    let a = drop_spaces s in
    let (p, e) = spaces_before (reverse a) in
    starts_filled-prefix (reverse (drop_spaces (reverse a))) (reverse p) (
      subst (λ t. starts_filled t ≡ true)
        (sym (reverse-reverse a) ∙ ap reverse e ∙ reverse-append p (drop_spaces (reverse a)))
        (drop_spaces-starts_filled s))

pub trim_space-trim_space : (s : Text) → trim_space (trim_space s) ≡ trim_space s
unfolding trim_space
trim_space-trim_space s =
    let b = drop_spaces (reverse (drop_spaces s)) in
    ap (λ t. reverse (drop_spaces (reverse t)))
      (drop_spaces-keeps (reverse b) (trimmed-starts_filled s))
    ∙ ap (λ t. reverse (drop_spaces t)) (reverse-reverse b)
    ∙ ap reverse (drop_spaces-keeps b (drop_spaces-starts_filled (reverse (drop_spaces s))))
