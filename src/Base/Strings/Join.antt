-- ===== src/Base/Strings/Join.antt =====
-- Splitting a text and joining the pieces.
use Prim.Native.Nat.{ℕ, ◌≤◌}
use mathlib.Core.List.{List, [], ◌∷◌, ◌++◌, reverse, reverse-cons, append_assoc, append-nil}
use mathlib.Core.Logic.{inl, inr}
use mathlib.Core.Path.{◌≡◌, refl, sym, ap, ◌∙◌}
use native.Mathlib.Omega.{arith}
use netier.Base.Lists.{length}
use netier.Base.Tests.{◌==◌, ==_iff, Bool-cases}
use netier.Base.Strings.{Text, split_onto, split_on, join}
use netier.Base.Strings.Split.{split_onto-pieces}

pub join-cons :
    (sep : ℕ) (part : Text) (parts : List Text)
    → 1 ≤ length parts
    → join sep (part ∷ parts) ≡ part ++ (sep ∷ join sep parts)
unfolding join
join-cons sep part [] h = absurd (omega arith)
join-cons sep part (other ∷ parts) h = refl

-- Two pieces that a separator joins are as good as one.
pub join-merge :
    (sep : ℕ) (a b : Text) (rest : List Text)
    → join sep ((a ++ (sep ∷ b)) ∷ rest) ≡ join sep (a ∷ b ∷ rest)
unfolding join
join-merge sep a b [] = refl
join-merge sep a b (c ∷ rest) = append_assoc a (sep ∷ b) (sep ∷ join sep (c ∷ rest))

split_onto-join :
    (sep : ℕ) (piece s : Text) → join sep (split_onto sep piece s) ≡ reverse piece ++ s
unfolding split_onto join
split_onto-join sep piece [] = sym (append-nil (reverse piece))
split_onto-join sep piece (c ∷ s) = elim (Bool-cases (c == sep)) [
  | inl e ↦
      rw (e, split_onto)
        (join-cons sep (reverse piece) (split_onto sep [] s) (split_onto-pieces sep [] s)
          ∙ ap (λ r. reverse piece ++ (sep ∷ r)) (split_onto-join sep [] s)
          ∙ ap (λ d. reverse piece ++ (d ∷ s)) (sym ((==_iff c sep).0 e)))
  | inr e ↦
      rw (e, split_onto)
        (split_onto-join sep (c ∷ piece) s
          ∙ ap (λ r. r ++ s) (reverse-cons c piece)
          ∙ append_assoc (reverse piece) (c ∷ []) s)
]

pub join-split_on : (sep : ℕ) (s : Text) → join sep (split_on sep s) ≡ s
unfolding split_on
join-split_on sep s = split_onto-join sep [] s
