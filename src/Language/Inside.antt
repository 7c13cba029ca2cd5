-- ===== src/Language/Inside.antt =====
-- `_GetTextInside`.
pub mod Nested
pub mod Closes
use netier.Base.{
  ℕ, ◌+◌, ◌-◌, Bool, ◌||◌, Option, none, some, List, [], ◌∷◌, ◌==◌, Text, take, drop, if◌then◌else◌,
}

-- `matching_punctuation`
abbrev pub matching_punctuation : ℕ → Option ℕ
matching_punctuation c =
    if c == b'('
    then some b')'
    else if c == b'{'
    then some b'}'
    else if c == b'['
    then some b']'
    else none

abbrev pub is_closing_punctuation : ℕ → Bool
is_closing_punctuation c = c == b')' || (c == b'}' || c == b']')

-- The loop over the text behind `position`, with the punctuation that is expected, the innermost
-- first: where it ends, or none where the function returns None
unfoldable pub inside_loop : ℕ → List ℕ → Text → Option ℕ
inside_loop position [] text = some position
inside_loop position (top ∷ stack) [] = none
inside_loop position (top ∷ stack) (c ∷ text) =
    if c == top
    then inside_loop (position + 1) stack text
    else if is_closing_punctuation c
    then none
    else inside_loop (position + 1)
        (elim (matching_punctuation c) [ none ↦ top ∷ stack | some d ↦ d ∷ top ∷ stack ]) text

abbrev pub text_until : Text → ℕ → Option ℕ → Option Text
text_until text start none = none
text_until text start (some position) = some (take (position - 1 - start) (drop start text))

-- `_GetTextInside`, for a match that ends behind an opening parenthesis at `start`
unfoldable pub get_text_inside : Text → ℕ → Option Text
get_text_inside text start = text_until text start (inside_loop start (b')' ∷ []) (drop start text))
