-- ===== src/LineChecks/Braces.antt =====
-- `CheckBraces` and `GetLineWidth`. What `unicodedata` says of characters is a parameter.
use netier.Base.{
  ℕ, ◌+◌, ◌-◌, Bool, true, false, not, ◌&&◌, ◌||◌, Option, none, some, List, [], ◌∷◌, ◌++◌, ltb,
  Text, txt, has_text, find, length, drop, if◌then◌else◌,
}
use netier.Regex.{Found, search_re, is_match, is_found}
use netier.Suppress.{Report}
use netier.Cleanse.{CleansedLines}
use netier.Expression.Stack.{Location}
use netier.Expression.Forward.{close_expression}
use netier.Nesting.Blocks.{get_indent_level}
use netier.LineChecks.Common.{report, when, line_of, slice_from}
use netier.LineChecks.BraceSpacing.{get_previous_non_blank_line}

-- `normalize('NFC', s)`, `east_asian_width(c) in ('W', 'F')`, `combining(c)`
pub record Unicode : Type 0 where
  pub normalize : Text → Text
  pub is_wide : ℕ → Bool
  pub is_combining : ℕ → Bool

unfoldable pub columns : Unicode → Text → ℕ
columns u [] = 0
columns u (c ∷ s) = (if u.is_wide c then 2 else if u.is_combining c then 0 else 1) + columns u s

-- `GetLineWidth`, for a Python behind 3.2
unfoldable pub get_line_width : Unicode → Text → ℕ
get_line_width u line = columns u (u.normalize line)

abbrev pub same : Bool → Bool → Bool
same true b = b
same false b = not b

-- A line that is only an open brace. `limit` is `_line_length`.
unfoldable pub open_brace_reports : Unicode → ℕ → ℕ → Text → Text → List Report
open_brace_reports u limit linenum line prevline =
    when
      (is_match (txt "\\s*{\\s*$") line
        && (not (is_found (txt "[,;:}{(]\\s*$") prevline)
            && (not (is_match (txt "\\s*#") prevline)
                && not
                    (ltb limit (get_line_width u prevline + 2) && has_text prevline (txt "[]")))))
      (report linenum (txt "whitespace/braces") 4
        (txt "{ should almost always be at the end of the previous line"))

unfoldable pub else_line_reports : ℕ → Text → Text → List Report
else_line_reports linenum line prevline =
    when
      (is_match (txt "\\s*else\\b\\s*(?:if\\b|\\{|$)") line && is_match (txt "\\s*}\\s*$") prevline)
      (report linenum (txt "whitespace/newline") 4
        (txt "An else should appear on the same line as the preceding }"))

-- `line.find('(', line.find('else if'))`, in a line that has both
unfoldable pub condition_pos : Text → ℕ
condition_pos line = elim (find line (txt "else if")) [
  | none ↦ 0
  | some p ↦ elim (find (drop p line) (txt "(")) [ none ↦ 0 | some q ↦ p + q ]
]

abbrev pub has_brace_right : Option Location → Bool
has_brace_right none = false
has_brace_right (some l) = has_text (slice_from l.line l.pos) (txt "{")

unfoldable pub has_lone_brace : CleansedLines → ℕ → Text → Bool
has_lone_brace clean_lines linenum line =
    if is_found (txt "else if\\s*\\(") line
    then ltb 0 (condition_pos line)
      && not (
          same (is_found (txt "}\\s*else if\\s*\\(") line)
            (has_brace_right (close_expression clean_lines linenum (condition_pos line))))
    else is_found (txt "}\\s*else[^{]*$") line || is_match (txt "[^}]*else\\s*{") line

unfoldable pub else_reports : CleansedLines → ℕ → Text → List Report
else_reports clean_lines linenum line =
    when (has_lone_brace clean_lines linenum line) (
      report linenum (txt "readability/braces") 5
        (txt "If an else has a brace on one side, it should have it on both"))
    ++ (when (is_found (txt "\\belse [^\\s{]") line && not (is_found (txt "\\belse if\\b") line)) (
          report linenum (txt "whitespace/newline") 4
            (txt "Else clause should never be on same line as else (use 2 lines)"))
        ++ when (is_match (txt "\\s*do [^\\s{]") line) (
            report linenum (txt "whitespace/newline") 4
              (txt "do/while clauses should not be on a single line")))

-- The place behind `if` with its condition, or behind `else`
unfoldable pub body_start : CleansedLines → ℕ → Text → Found → Option Found → Location
body_start clean_lines linenum line m none = record {
  line = line;
  linenum = linenum;
  pos = some m.stop;
}
body_start clean_lines linenum line m (some if_match) =
    elim (close_expression clean_lines linenum (if_match.stop - 1)) [
      | none ↦ record { line = line; linenum = clean_lines.num_lines; pos = none }
      | some l ↦ l
    ]

-- Is there an opening brace, directly behind the place or on the next line?
unfoldable pub opens_block : List Text → Location → Bool
opens_block elided l =
    is_match (txt "\\s*{") (slice_from l.line l.pos)
    || is_match (txt "\\s*$") (slice_from l.line l.pos)
      && (ltb (l.linenum + 1) (length elided)
          && is_match (txt "\\s*{") (line_of elided (l.linenum + 1)))

-- The loop for the next semicolon, over the lines from number `i` on
unfoldable pub semicolon_line : Option ℕ → ℕ → List Text → Option ℕ
semicolon_line endpos i [] = none
semicolon_line endpos i (line ∷ lines) =
    if has_text (slice_from line endpos) (txt ";")
    then some i
    else semicolon_line (some 0) (i + 1) lines

unfoldable pub next_line_reports : ℕ → Bool → ℕ → Text → List Report
next_line_reports linenum is_if if_indent next_line =
    let next_indent = get_indent_level next_line in
    if is_if
      && (is_match (txt "\\s*else\\b") next_line
          && (ltb next_indent if_indent || ltb if_indent next_indent))
    then report linenum (txt "readability/braces") 4 (
        txt "Else clause should be indented at the same level as if. "
        ++ txt "Ambiguous nested if/else chains require braces.")
      ∷ []
    else when (ltb if_indent next_indent) (
        report linenum (txt "readability/braces") 4
          (txt "If/else bodies with multiple statements require braces"))

unfoldable pub semicolon_reports_at : List Text → ℕ → Bool → ℕ → Option ℕ → List Report
semicolon_reports_at elided linenum is_if if_indent none = []
semicolon_reports_at elided linenum is_if if_indent (some endlinenum) =
    let endline = line_of elided endlinenum in
    if not (is_match (txt ";[\\s}]*(\\\\?)$") (slice_from endline (find endline (txt ";"))))
    then when
        (not (is_match (txt "^[^{};]*\\[[^\\[\\]]*\\][^{}]*\\{[^{}]*\\}\\s*\\)*[;,]\\s*$") endline))
        (report linenum (txt "readability/braces") 4
          (txt "If/else bodies with multiple statements require braces"))
    else if ltb (endlinenum + 1) (length elided)
    then next_line_reports linenum is_if if_indent (line_of elided (endlinenum + 1))
    else []

abbrev pub is_some_found : Option Found → Bool
is_some_found none = false
is_some_found (some m) = true

unfoldable pub body_reports : CleansedLines → ℕ → Text → Option Found → List Report
body_reports clean_lines linenum line none = []
body_reports clean_lines linenum line (some m) =
    let if_match = search_re (txt "\\bif\\s*\\(") line in
    let start = body_start clean_lines linenum line m if_match in
    if is_match (txt "\\s*#") line || opens_block clean_lines.elided start
    then []
    else semicolon_reports_at clean_lines.elided linenum (is_some_found if_match)
        (get_indent_level line)
        (semicolon_line start.pos start.linenum (drop start.linenum clean_lines.elided))

-- `CheckBraces`
unfoldable pub check_braces : Unicode → ℕ → CleansedLines → ℕ → List Report
check_braces u limit clean_lines linenum =
    let line = line_of clean_lines.elided linenum in
    let prevline = (get_previous_non_blank_line linenum clean_lines.elided).0 in
    open_brace_reports u limit linenum line prevline
    ++ (else_line_reports linenum line prevline
        ++ (else_reports clean_lines linenum line
            ++ body_reports clean_lines linenum line
                (search_re (txt "\\b(if\\s*\\(|else\\b)") line)))
