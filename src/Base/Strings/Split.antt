-- ===== src/Base/Strings/Split.antt =====
-- The last piece of a split text.
use Prim.Native.Nat.{ℕ, ◌≤◌}
use mathlib.Core.Bool.{Bool, true, false}
use mathlib.Core.List.{List, [], ◌∷◌, ◌++◌, reverse, reverse-cons}
use mathlib.Core.Path.{◌≡◌, refl, ap, ◌∙◌}
use native.Mathlib.Omega.{arith}
use netier.Base.Lists.{length}
use netier.Base.Tests.{◌==◌}
use netier.Base.Strings.{Text, split_onto, split_on}

abbrev pub is_blank : Text → Bool
is_blank [] = true
is_blank (c ∷ s) = false

abbrev pub last : List Text → Text
last [] = []
last (x ∷ []) = x
last (x ∷ y ∷ ys) = last (y ∷ ys)

-- Is the text empty, or its last character this one?
abbrev pub ends_at : ℕ → Bool → Text → Bool
ends_at sep start [] = start
ends_at sep start (c ∷ s) = ends_at sep (c == sep) s

is_blank-snoc : (s : Text) (c : ℕ) → is_blank (s ++ c ∷ []) ≡ false
is_blank-snoc [] c = refl
is_blank-snoc (d ∷ s) c = refl

is_blank-reverse : (s : Text) → is_blank (reverse s) ≡ is_blank s
is_blank-reverse [] = refl
is_blank-reverse (c ∷ s) = ap is_blank (reverse-cons c s) ∙ is_blank-snoc (reverse s) c

either :
    (b : Bool) (xs ys : List Text)
    → 1 ≤ length xs
    → 1 ≤ length ys
    → 1 ≤ length (elim b [ true ↦ xs | false ↦ ys ])
either true xs ys h h' = h
either false xs ys h h' = h'

pub split_onto-pieces : (sep : ℕ) (piece s : Text) → 1 ≤ length (split_onto sep piece s)
unfolding split_onto
split_onto-pieces sep piece [] = omega arith
split_onto-pieces sep piece (c ∷ s) =
    either (c == sep) _ _ (omega arith) (split_onto-pieces sep (c ∷ piece) s)

last-cons : (x : Text) (xs : List Text) → 1 ≤ length xs → last (x ∷ xs) ≡ last xs
last-cons x [] h = absurd (omega arith)
last-cons x (y ∷ ys) h = refl

last_step :
    (sep : ℕ) (b : Bool) (s x : Text) (xs ys : List Text)
    → 1 ≤ length xs
    → is_blank (last xs) ≡ ends_at sep true s
    → is_blank (last ys) ≡ ends_at sep false s
    → is_blank (last (elim b [ true ↦ x ∷ xs | false ↦ ys ])) ≡ ends_at sep b s
last_step sep true s x xs ys h e e' = ap is_blank (last-cons x xs h) ∙ e
last_step sep false s x xs ys h e e' = e'

split_onto-last :
    (sep : ℕ) (piece s : Text)
    → is_blank (last (split_onto sep piece s)) ≡ ends_at sep (is_blank piece) s
unfolding split_onto
split_onto-last sep piece [] = is_blank-reverse piece
split_onto-last sep piece (c ∷ s) =
    last_step sep (c == sep) s (reverse piece) (split_onto sep [] s) (split_onto sep (c ∷ piece) s)
      (split_onto-pieces sep [] s) (split_onto-last sep [] s) (split_onto-last sep (c ∷ piece) s)

-- The last piece is blank exactly for a text that is empty or ends with the separator.
pub split_on-last : (sep : ℕ) (s : Text) → is_blank (last (split_on sep s)) ≡ ends_at sep true s
unfolding split_on
split_on-last sep s = split_onto-last sep [] s

pub split_on-pieces : (sep : ℕ) (s : Text) → 1 ≤ length (split_on sep s)
unfolding split_on
split_on-pieces sep s = split_onto-pieces sep [] s
