-- ===== src/LintState/Filters.antt =====
-- The filter list and its backup.
use netier.Base.{true, List, [], ◌∷◌, ◌≡◌, Text}
use netier.LintState.{LintState, is_signed}

-- Every filter starts with + or -.
abbrev pub AllSigned : List Text → Type 0
AllSigned [] = Unit
AllSigned (filt ∷ filts) = (is_signed filt ≡ true) × AllSigned filts
