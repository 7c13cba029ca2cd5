-- ===== src/Suppress.antt =====
-- NOLINT comments and global suppressions: `ParseNolintSuppressions`, `ProcessGlobalSuppresions`,
-- `ResetNolintSuppressions`, `IsErrorSuppressedByNolint` of build_support/cpplint.py.
pub mod Laws
use netier.Base.{
  ℕ, ◌+◌, ◌-◌, Bool, true, false, ◌&&◌, ◌||◌, Option, none, some, List, [], ◌∷◌, ◌++◌, ◌==◌,
  if◌then◌else◌, Text, txt, text_eq, starts_with, ends_with, length, take, drop, elem, is_some,
}
use netier.Categories.{
  error_categories, legacy_error_categories, c_suppressed_categories, kernel_suppressed_categories,
}
use netier.Regex.{Found, search_re, is_found, group_of}

-- One call of the `error` callback.
pub record Report : Type 0 where
  pub linenum : ℕ
  pub category : Text
  pub confidence : ℕ
  pub message : Text

-- A key of `_error_suppressions`: a category, or None for all of them.
abbrev pub Key : Type 0
Key = Option Text

unfoldable pub key_eq : Key → Key → Bool
unfolding text_eq
key_eq none none = true
key_eq (some a) (some b) = text_eq a b
key_eq _ _ = false

-- `_error_suppressions` and `_global_error_suppressions`. A category is a key of the latter
-- only with the value True, so a list of categories stands for it.
pub record Suppressions : Type 0 where
  pub by_line : List (Key × List ℕ)
  pub everywhere : List Text

abbrev pub no_suppressions : Suppressions
no_suppressions = record { by_line = []; everywhere = [] }

unfoldable pub mem_line : ℕ → List ℕ → Bool
mem_line n [] = false
mem_line n (m ∷ ms) = n == m || mem_line n ms

-- `_error_suppressions.get(key, set())`
unfoldable pub lines_of : Key → List (Key × List ℕ) → List ℕ
unfolding key_eq
lines_of k [] = []
lines_of k ((j, ls) ∷ d) = if key_eq k j then ls else lines_of k d

-- `_error_suppressions.setdefault(key, set()).add(line)`
unfoldable pub add_line : Key → ℕ → List (Key × List ℕ) → List (Key × List ℕ)
unfolding key_eq
add_line k n [] = (k, n ∷ []) ∷ []
add_line k n ((j, ls) ∷ d) = if key_eq k j then (j, n ∷ ls) ∷ d else (j, ls) ∷ add_line k n d

abbrev suppress : Key → ℕ → Suppressions → Suppressions
suppress k n s = record s { by_line = add_line k n s.by_line }

-- `category[1:-1]`
abbrev pub inner : Text → Text
inner c = take (length c - 2) (drop 1 c)

unfoldable pub unknown_category : ℕ → Text → Report
unknown_category linenum category = record {
  linenum = linenum;
  category = txt "readability/nolint";
  confidence = 5;
  message = txt "Unknown NOLINT error category: " ++ category;
}

-- The branch for a category in parentheses, with the parentheses already off.
unfoldable pub nolint_category : Text → ℕ → ℕ → Suppressions → Suppressions × List Report
nolint_category category line linenum s =
    if elem category error_categories
    then (suppress (some category) line s, [])
    else if elem category legacy_error_categories
    then (s, [])
    else (s, unknown_category linenum category ∷ [])

unfoldable pub nolint_group : Option Text → ℕ → ℕ → Suppressions → Suppressions × List Report
nolint_group none line linenum s = (suppress none line s, [])
nolint_group (some c) line linenum s =
    if text_eq c (txt "(*)")
    then (suppress none line s, [])
    else if starts_with c (txt "(") && ends_with c (txt ")")
    then nolint_category (inner c) line linenum s
    else (s, [])

unfoldable pub nolint_match : Text → Option Found
nolint_match raw_line = search_re (txt "\\bNOLINT(NEXTLINE)?\\b(\\([^)]+\\))?") raw_line

unfoldable pub apply_nolint : Option Found → ℕ → Suppressions → Suppressions × List Report
apply_nolint none linenum s = (s, [])
apply_nolint (some m) linenum s =
    let line = if is_some (group_of 1 m) then linenum + 1 else linenum in
    nolint_group (group_of 2 m) line linenum s

unfoldable pub parse_nolint_suppressions : Text → ℕ → Suppressions → Suppressions × List Report
unfolding apply_nolint
parse_nolint_suppressions raw_line linenum s = apply_nolint (nolint_match raw_line) linenum s

abbrev suppress_everywhere : Bool → List Text → Suppressions → Suppressions
suppress_everywhere b cs s = record s {
  everywhere = if b then cs ++ s.everywhere else s.everywhere;
}

-- `_SEARCH_C_FILE` and `_SEARCH_KERNEL_FILE`
unfoldable pub is_c_file_line : Text → Bool
is_c_file_line line =
    is_found (txt "\\b(?:LINT_C_FILE|vim?:\\s*.*(\\s*|:)filetype=c(\\s*|:|$))") line

unfoldable pub is_kernel_file_line : Text → Bool
is_kernel_file_line line = is_found (txt "\\b(?:LINT_KERNEL_FILE)") line

unfoldable pub process_global_suppressions : List Text → Suppressions → Suppressions
process_global_suppressions [] s = s
process_global_suppressions (line ∷ lines) s =
    let c = suppress_everywhere (is_c_file_line line) c_suppressed_categories s in
    process_global_suppressions lines
      (suppress_everywhere (is_kernel_file_line line) kernel_suppressed_categories c)

abbrev pub reset_nolint_suppressions : Suppressions → Suppressions
reset_nolint_suppressions s = no_suppressions

unfoldable pub is_error_suppressed_by_nolint : Suppressions → Text → ℕ → Bool
is_error_suppressed_by_nolint s category linenum =
    elem category s.everywhere
    || mem_line linenum (lines_of (some category) s.by_line)
    || mem_line linenum (lines_of none s.by_line)
