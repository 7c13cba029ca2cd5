-- ===== src/LineChecks/Semicolons.antt =====
-- `CheckTrailingSemicolon`. Its calls are events, since it reads the NOLINT comments of the lines
-- in front of it as well.
use netier.Base.{
  ℕ, zero, suc, Bool, false, not, ◌&&◌, ◌||◌, Option, none, some, List, [], ◌∷◌, ltb, Text, txt,
  elem, length, take, if◌then◌else◌,
}
use netier.Regex.{Found, match_re, search_re, is_match, is_found, group_or_empty}
use netier.Suppress.{Report}
use netier.Cleanse.{CleansedLines}
use netier.Expression.Stack.{Location}
use netier.Expression.Forward.{close_expression}
use netier.Expression.Backward.{reverse_close_expression}
use netier.LineChecks.Common.{report, line_of, line_before, slice_from, is_empty, rfind}
use netier.LineChecks.BraceSpacing.{get_previous_non_blank_line}

-- A call of `error`, or of `ParseNolintSuppressions` for the line in front of the one where the
-- expression ends, or for that line; none is the line number -1
pub data Event : Type 0 where
  reported : Report → Event
  nolint_before : Text → Option ℕ → Event
  nolint_at : Text → ℕ → Event

unfoldable pub safe_macros : List Text
safe_macros =
    txt "TEST"
    ∷ txt "TEST_F"
    ∷ txt "MATCHER"
    ∷ txt "MATCHER_P"
    ∷ txt "TYPED_TEST"
    ∷ txt "EXCLUSIVE_LOCKS_REQUIRED"
    ∷ txt "SHARED_LOCKS_REQUIRED"
    ∷ txt "LOCKS_EXCLUDED"
    ∷ txt "INTERFACE_DEF"
    ∷ []

abbrev pub is_unsafe_macro : Option Found → Bool
is_unsafe_macro none = false
is_unsafe_macro (some m) = not (elem (group_or_empty 1 m) safe_macros)

abbrev pub is_lambda : Option Found → Bool
is_lambda none = false
is_lambda (some m) = not (is_found (txt "\\boperator\\s*\\[\\s*\\]") (group_or_empty 1 m))

-- Does what stands in front of the parenthesis allow a semicolon?
unfoldable pub is_allowed_prefix : Text → Bool
is_allowed_prefix line_prefix =
    is_unsafe_macro (search_re (txt "\\b([A-Z_][A-Z0-9_]*)\\s*$") line_prefix)
    || is_lambda (match_re (txt "^(.*\\])\\s*$") line_prefix)
    || is_found (txt "\\b(?:struct|union)\\s+alignas\\s*$") line_prefix
    || is_found (txt "\\bdecltype$") line_prefix
    || is_found (txt "\\s+=\\s*$") line_prefix

abbrev pub has_allowed_prefix : Text → Option ℕ → Bool
has_allowed_prefix line none = false
has_allowed_prefix line (some pos) = is_allowed_prefix (take pos line)

-- A lambda expression over several lines
abbrev pub is_behind_bracket : List Text → ℕ → Bool
is_behind_bracket elided linenum =
    ltb 1 linenum && is_found (txt "\\]\\s*$") (line_before elided linenum)

abbrev pub is_allowed_at : CleansedLines → Option Location → Bool
is_allowed_at clean_lines none = false
is_allowed_at clean_lines (some l) =
    has_allowed_prefix l.line l.pos || is_behind_bracket clean_lines.elided l.linenum

abbrev pub start_at : CleansedLines → ℕ → Option ℕ → Option Location
start_at clean_lines linenum none = none
start_at clean_lines linenum (some pos) = reverse_close_expression clean_lines linenum pos

-- The parenthesis that the last `)` closes
abbrev pub opening_parenthesis : CleansedLines → ℕ → Found → Option Location
opening_parenthesis clean_lines linenum m =
    start_at clean_lines linenum (rfind (group_or_empty 1 m) b')')

-- Cases 4 to 6
abbrev pub brace_behind_statement : Text → Text → Option Found
brace_behind_statement line prevline =
    if not (is_empty prevline) && is_found (txt "[;{}]\\s*$") prevline
    then match_re (txt "^(\\s*)\\{") line
    else none

-- What is left in `match`
unfoldable pub eligible : CleansedLines → ℕ → Text → Option Found
eligible clean_lines linenum line = elim (match_re (txt "^(.*\\)\\s*)\\{") line) [
  | some m ↦
      if is_allowed_at clean_lines (opening_parenthesis clean_lines linenum m) then none else some m
  | none ↦ elim (match_re (txt "^(.*(?:else|\\)\\s*const)\\s*)\\{") line) [
    | some m ↦ some m
    | none ↦ brace_behind_statement line (get_previous_non_blank_line linenum clean_lines.elided).0
  ]
]

unfoldable pub semicolon_report : ℕ → Report
semicolon_report endlinenum =
    report endlinenum (txt "readability/braces") 4 (txt "You don't need a ; after a }")

-- `endlinenum - 1`
abbrev pub number_before : ℕ → Option ℕ
number_before zero = none
number_before (suc n) = some n

unfoldable pub closing_events : CleansedLines → Text → ℕ → Option ℕ → List Event
closing_events clean_lines endline endlinenum none = []
closing_events clean_lines endline endlinenum (some endpos) =
    if is_match (txt "^\\s*;") (slice_from endline (some endpos))
    then nolint_before (line_before clean_lines.raw_lines endlinenum) (number_before endlinenum)
      ∷ nolint_at (line_of clean_lines.raw_lines endlinenum) endlinenum
      ∷ reported (semicolon_report endlinenum)
      ∷ []
    else []

abbrev pub events_at : CleansedLines → Option Location → List Event
events_at clean_lines none = []
events_at clean_lines (some l) = closing_events clean_lines l.line l.linenum l.pos

abbrev pub events_of : CleansedLines → ℕ → Option Found → List Event
events_of clean_lines linenum none = []
events_of clean_lines linenum (some m) =
    events_at clean_lines (close_expression clean_lines linenum (length (group_or_empty 1 m)))

-- `CheckTrailingSemicolon`
unfoldable pub check_trailing_semicolon : CleansedLines → ℕ → List Event
check_trailing_semicolon clean_lines linenum =
    events_of clean_lines linenum
      (eligible clean_lines linenum (line_of clean_lines.elided linenum))
