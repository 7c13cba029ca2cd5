-- ===== src/Language/Arrays.antt =====
-- The part of `CheckLanguage` for arrays of variable length.
use netier.Base.{
  ℕ, ◌-◌, Bool, true, false, not, ◌&&◌, ◌||◌, Option, none, some, List, [], ◌∷◌, ◌++◌, ◌==◌, Text,
  txt, text_eq, has_text, starts_with, reverse, take, drop, if◌then◌else◌,
}
use netier.Regex.{Found, find_all_re, is_match, is_found, group_or_empty}
use netier.Suppress.{Report}
use netier.LineChecks.Common.{report, when, is_empty}

-- The pieces of a text between matches, from a position on
unfoldable pub pieces_between : Text → ℕ → List Found → List Text
pieces_between s pos [] = drop pos s ∷ []
pieces_between s pos (m ∷ ms) = take (m.start - pos) (drop pos s) ∷ pieces_between s m.stop ms

-- `re.split(pattern, s)`, for patterns with no group that match no empty text
unfoldable pub split_re : Text → Text → List Text
split_re pattern s = pieces_between s 0 (find_all_re pattern s)

-- `s.lstrip(c)` for one character
unfoldable pub strip_char : ℕ → Text → Text
strip_char c [] = []
strip_char c (d ∷ s) = if d == c then strip_char c s else d ∷ s

unfoldable pub bare_token : Text → Text
bare_token tok = reverse (strip_char b')' (reverse (strip_char b'(' tok)))

unfoldable pub is_constant : Text → Bool
is_constant tok =
    is_empty tok
    || is_match (txt "\\d+") tok
    || is_match (txt "0[xX][0-9a-fA-F]+") tok
    || is_match (txt "k[A-Z0-9]\\w*") tok
    || is_match (txt "(.+::)?k[A-Z0-9]\\w*") tok
    || is_match (txt "(.+::)?[A-Z][A-Z0-9_]*") tok

-- What the loop makes of a token
pub data Size : Type 0 where
  constant skips_next variable : Size

unfoldable pub size_of : Text → Size
size_of tok =
    if is_found (txt "sizeof\\(.+\\)") tok || is_found (txt "arraysize\\(\\w+\\)") tok
    then constant
    else if is_constant (bare_token tok)
    then constant
    else if starts_with (bare_token tok) (txt "sizeof")
    then skips_next
    else variable

-- `is_const`, where the first argument is `skip_next`
unfoldable pub are_constant : Bool → List Text → Bool
are_constant skip_next [] = true
are_constant true (tok ∷ toks) = are_constant false toks
are_constant false (tok ∷ toks) = elim (size_of tok) [
  | constant ↦ are_constant false toks
  | skips_next ↦ are_constant true toks
  | variable ↦ false
]

unfoldable pub array_reports : ℕ → Option Found → List Report
array_reports linenum none = []
array_reports linenum (some m) =
    when
      (not (text_eq (group_or_empty 2 m) (txt "return"))
        && (not (text_eq (group_or_empty 2 m) (txt "delete"))
            && (not (has_text (group_or_empty 3 m) (txt "]"))
                && not (
                    are_constant false
                      (split_re (txt "\\s|\\+|\\-|\\*|\\/|<<|>>]") (group_or_empty 3 m))))))
      (report linenum (txt "runtime/arrays") 1 (
        txt "Do not use variable-length arrays.  Use an appropriately named "
        ++ txt "('k' followed by CamelCase) compile-time constant for the size."))
