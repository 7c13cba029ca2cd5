-- ===== src/Includes/Paths/Prefix.antt =====
-- The directory of a path is a part of it.
use netier.Base.{
  ℕ, ◌<◌, ◌≡◌, ◌⊎◌, inl, inr, refl, sym, ap, ◌∙◌, Bool, true, false, [], ◌∷◌, ◌++◌, arith, Text,
  length, length-append, append_assoc, append-nil, take, drop, take-append-drop, reverse,
  if◌then◌else◌,
}
use mathlib.Core.List.{reverse-append, reverse-reverse}
use netier.Includes.Paths.{name_start, drop_slashes, trim_head, dirname}

abbrev pub IsPrefix : Text → Text → Type 0
IsPrefix s t = (rest : Text) × (t ≡ s ++ rest)

slashes_or :
    (b : Bool) (c : ℕ) (s : Text)
    → (w : Text) × (s ≡ w ++ drop_slashes s)
    → (w : Text) × (c ∷ s ≡ w ++ (if b then drop_slashes s else c ∷ s))
slashes_or true c s (w, e) = (c ∷ w, ap (λ x. c ∷ x) e)
slashes_or false c s h = ([], refl)

drop_slashes-suffix : (s : Text) → (w : Text) × (s ≡ w ++ drop_slashes s)
unfolding drop_slashes
drop_slashes-suffix [] = ([], refl)
drop_slashes-suffix (c ∷ s) = slashes_or _ c s (drop_slashes-suffix s)

pub trimmed-prefix : (s : Text) → IsPrefix (reverse (drop_slashes (reverse s))) s
trimmed-prefix s =
    let (w, e) = drop_slashes-suffix (reverse s) in
    (
      reverse w,
      sym (reverse-reverse s) ∙ ap reverse e ∙ reverse-append w (drop_slashes (reverse s)),
    )

if-prefix :
    (b : Bool) (s t u : Text) → IsPrefix s u → IsPrefix t u → IsPrefix (if b then s else t) u
if-prefix true s t u h h' = h
if-prefix false s t u h h' = h'

trim_head-prefix : (s : Text) → IsPrefix (trim_head s) s
unfolding trim_head
trim_head-prefix s = if-prefix _ _ _ s ([], sym (append-nil s)) (trimmed-prefix s)

dirname-prefix : (p : Text) → IsPrefix (dirname p) p
unfolding dirname
dirname-prefix p =
    let (rest, e) = trim_head-prefix (take (name_start p) p) in
    (
      rest ++ drop (name_start p) p,
      sym (take-append-drop (name_start p) p)
          ∙ ap (λ x. x ++ drop (name_start p) p) e
          ∙ append_assoc (dirname p) rest (drop (name_start p) p),
    )

-- A directory is shorter than what lies in it, or is a top directory.
prefix-shorter : (s t : Text) → IsPrefix s t → (length s < length t) ⊎ (s ≡ t)
prefix-shorter s t ([], e) = inr (sym (append-nil s) ∙ sym e)
prefix-shorter s t (c ∷ rest, e) =
    let n : length t ≡ length (s ++ (c ∷ rest)) = ap length e in
    inl (omega (arith, length-append {0} s (c ∷ rest)))

-- A directory is shorter than what lies in it, or is a top directory.
pub dirname-shorter : (p : Text) → (length (dirname p) < length p) ⊎ (dirname p ≡ p)
dirname-shorter p = prefix-shorter (dirname p) p (dirname-prefix p)
