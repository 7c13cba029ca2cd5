-- ===== src/Base/Equality.antt =====
-- The laws of the comparisons of texts.
use mathlib.Core.Bool.{true, ◌||◌}
use mathlib.Core.List.{List, [], ◌∷◌, ◌++◌}
use mathlib.Core.Logic.{◌↔◌}
use mathlib.Core.Path.{◌≡◌, refl}
use native.Mathlib.Omega.{arith}
use netier.Base.Strings.{Text, text_eq, starts_with, elem}

pub text_eq_iff : (a b : Text) → (text_eq a b ≡ true) ↔ (a ≡ b)
unfolding text_eq
text_eq_iff (x ∷ a) (y ∷ b) = ground (arith, text_eq_iff a b)
text_eq_iff _ _ = ground arith

pub text_eq_refl : (a : Text) → text_eq a a ≡ true
text_eq_refl a = (text_eq_iff a a).1 refl

-- A text that starts with a prefix is the prefix and a rest.
pub starts_with_iff : (s p : Text) → (starts_with s p ≡ true) ↔ ((rest : Text) × (s ≡ p ++ rest))
unfolding starts_with
starts_with_iff s [] = (λ h. (s, refl), λ h. refl)
starts_with_iff [] (b ∷ p) = (λ h. cc, λ (r, e). cc)
starts_with_iff (a ∷ s) (b ∷ p) = (
  λ h. let (r, e) = (starts_with_iff s p).0 (ground arith) in (r, ground arith),
  λ (r, e). ground (arith, (starts_with_iff s p).1 (r, ground arith)),
)

pub elem-append : (x : Text) (ys zs : List Text) → elem x (ys ++ zs) ≡ (elem x ys || elem x zs)
unfolding elem
elem-append x [] zs = refl
elem-append x (y ∷ ys) zs = ground (arith, elem-append x ys zs)
