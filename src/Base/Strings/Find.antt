-- ===== src/Base/Strings/Find.antt =====
-- Where `find` finds a text.
use Prim.Native.Nat.{ℕ, ◌+◌, ◌≤◌}
use mathlib.Core.Bool.{true}
use mathlib.Core.List.{[], ◌∷◌}
use mathlib.Core.Logic.{inl, inr}
use mathlib.Core.Option.{some}
use mathlib.Core.Path.{◌≡◌}
use native.Mathlib.Omega.{arith}
use netier.Base.Lists.{length}
use netier.Base.Tests.{Bool-cases}
use netier.Base.Strings.{Text, starts_with, find_from, find}

starts_with-length : (s p : Text) → starts_with s p ≡ true → length p ≤ length s
unfolding starts_with
starts_with-length s [] h = omega arith
starts_with-length [] (b ∷ p) h = ground arith
starts_with-length (a ∷ s) (b ∷ p) h = ground (arith, starts_with-length s p)

find_from-length :
    (i : ℕ) (s p : Text) (j : ℕ) → find_from i s p ≡ some j → j + length p ≤ i + length s
unfolding find_from
find_from-length i [] p j e = elim (Bool-cases (starts_with [] p)) [
  | inl h ↦ ground (arith, starts_with-length [] p h)
  | inr h ↦ ground arith
]
find_from-length i (a ∷ s) p j e = elim (Bool-cases (starts_with (a ∷ s) p)) [
  | inl h ↦ ground (arith, starts_with-length (a ∷ s) p h)
  | inr h ↦ ground (arith, find_from-length (i + 1) s p j)
]

-- The text that is found lies within the other.
pub find-length : (s p : Text) (j : ℕ) → find s p ≡ some j → j + length p ≤ length s
unfolding find
find-length s p j e = omega (arith, find_from-length 0 s p j e)
