-- ===== src/Base/Strings/Replace.antt =====
-- What a replacement leaves at the start of a text.
use Prim.Native.Nat.{ℕ}
use mathlib.Core.Bool.{false}
use mathlib.Core.List.{◌∷◌}
use mathlib.Core.Path.{◌≡◌, refl}
use netier.Base.Tests.{◌==◌}
use netier.Base.Strings.{Text, starts_with, replace, replace_skip}

-- Another first character than that of the pattern stays.
pub replace-kept :
    (c d : ℕ) (p q s : Text)
    → (c == d) ≡ false
    → (rest : Text) × (replace (c ∷ s) (d ∷ p) q ≡ c ∷ rest)
unfolding replace replace_skip starts_with
replace-kept c d p q s h = (replace_skip 0 s (d ∷ p) q, rw (h, replace_skip) refl)
