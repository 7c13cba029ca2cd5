-- ===== src/LineChecks/EmptyBlocks.antt =====
-- `CheckEmptyBlockBody`.
use netier.Base.{
  ℕ, ◌+◌, ◌-◌, Bool, false, not, ◌&&◌, ◌||◌, Option, none, some, List, [], ◌∷◌, ◌++◌, ◌==◌, ltb,
  Text, txt, text_eq, join, map, find, take, drop, if◌then◌else◌,
}
use netier.Regex.{Found, match_re, is_match, is_found, group_or_empty}
use netier.Suppress.{Report}
use netier.Cleanse.{CleansedLines}
use netier.Cleanse.Comments.{cleanse_comments}
use netier.Expression.Stack.{Location}
use netier.Expression.Forward.{close_expression}
use netier.LineChecks.Common.{report, when, line_of}

-- Where a conditional opens its body: a line and what of it is still to be read
pub record Opening : Type 0 where
  pub linenum : ℕ
  pub fragment : Text

-- The loop for the brace, over the lines behind number `i`; none is a return
unfoldable pub opening_brace : ℕ → Text → List Text → Option Opening
opening_brace i fragment [] =
    if is_found (txt "^\\s*\\{") fragment
    then some (record { linenum = i; fragment = fragment })
    else none
opening_brace i fragment (line ∷ lines) =
    if is_found (txt "^\\s*\\{") fragment
    then some (record { linenum = i; fragment = fragment })
    else if is_found (txt "^(?!\\s*$)") fragment
    then none
    else opening_brace (i + 1) line lines

-- The loop for an else clause, over the lines behind the body: does it return?
unfoldable pub has_else : Text → List Text → Bool
has_else fragment [] =
    is_found (txt "^\\s*$|^(?=\\s*else)") fragment && is_found (txt "^(?=\\s*else)") fragment
has_else fragment (line ∷ lines) =
    if is_found (txt "^\\s*$|^(?=\\s*else)") fragment
    then is_found (txt "^(?=\\s*else)") fragment || has_else line lines
    else false

unfoldable pub if_body : CleansedLines → ℕ → ℕ → ℕ → ℕ → Text
if_body clean_lines opening_linenum opening_pos closing_linenum closing_pos =
    let opening_line = line_of clean_lines.elided opening_linenum in
    if ltb opening_linenum closing_linenum
    then join b'\n' (
        map (λ (c : ℕ). c ∷ []) (drop (opening_pos + 1) opening_line)
        ++ (take (closing_linenum - (opening_linenum + 1))
              (drop (opening_linenum + 1) clean_lines.raw_lines)
            ++ take (closing_pos - 1) (line_of clean_lines.elided closing_linenum) ∷ []))
    else drop (opening_pos + 1) (take (closing_pos - 1) opening_line)

-- `raw_lines[opening_linenum] != CleanseComments(raw_lines[opening_linenum])`
abbrev pub ends_in_comment : CleansedLines → ℕ → Bool
ends_in_comment clean_lines i =
    not (
      text_eq (line_of clean_lines.raw_lines i)
        (cleanse_comments (line_of clean_lines.raw_lines i)))

unfoldable pub closed_body_reports : CleansedLines → ℕ → ℕ → ℕ → Text → ℕ → Option ℕ → List Report
closed_body_reports clean_lines end_linenum opening_linenum opening_pos line closing_linenum none =
    []
closed_body_reports clean_lines end_linenum opening_linenum opening_pos line closing_linenum
      (some closing_pos) =
    when
      (not (ends_in_comment clean_lines opening_linenum)
        && (is_found (txt "^\\s*$")
              (if_body clean_lines opening_linenum opening_pos closing_linenum closing_pos)
            && not
                (has_else (drop closing_pos line) (drop (closing_linenum + 1) clean_lines.elided))))
      (report end_linenum (txt "whitespace/empty_if_body") 4
        (txt "If statement had no body and no else clause"))

abbrev pub found_or_zero : Option ℕ → ℕ
found_or_zero none = 0
found_or_zero (some i) = i

-- The position of the brace on its whole line
abbrev pub brace_pos : ℕ → ℕ → Opening → ℕ
brace_pos end_linenum end_pos o =
    found_or_zero (find o.fragment (txt "{")) + (if o.linenum == end_linenum then end_pos else 0)

abbrev pub closing_reports : CleansedLines → ℕ → ℕ → ℕ → Option Location → List Report
closing_reports clean_lines end_linenum opening_linenum opening_pos none = []
closing_reports clean_lines end_linenum opening_linenum opening_pos (some l) =
    closed_body_reports clean_lines end_linenum opening_linenum opening_pos l.line l.linenum l.pos

unfoldable pub body_reports : CleansedLines → ℕ → ℕ → Option Opening → List Report
body_reports clean_lines end_linenum end_pos none = []
body_reports clean_lines end_linenum end_pos (some o) =
    closing_reports clean_lines end_linenum o.linenum (brace_pos end_linenum end_pos o)
      (close_expression clean_lines o.linenum (brace_pos end_linenum end_pos o))

-- A semicolon directly behind the condition
unfoldable pub empty_statement_reports : Bool → ℕ → Text → List Report
empty_statement_reports is_if end_linenum rest = when (is_match (txt ";") rest) (
    if is_if
    then report end_linenum (txt "whitespace/empty_conditional_body") 5
        (txt "Empty conditional bodies should use {}")
    else report end_linenum (txt "whitespace/empty_loop_body") 5
        (txt "Empty loop bodies should use {} or continue"))

unfoldable pub condition_reports : CleansedLines → Bool → Text → ℕ → Option ℕ → List Report
condition_reports clean_lines is_if end_line end_linenum none = []
condition_reports clean_lines is_if end_line end_linenum (some end_pos) =
    empty_statement_reports is_if end_linenum (drop end_pos end_line)
    ++ (if is_if
        then body_reports clean_lines end_linenum end_pos (
            opening_brace end_linenum (drop end_pos end_line)
              (drop (end_linenum + 1) clean_lines.elided))
        else [])

abbrev pub reports_at : CleansedLines → Bool → Option Location → List Report
reports_at clean_lines is_if none = []
reports_at clean_lines is_if (some l) = condition_reports clean_lines is_if l.line l.linenum l.pos

abbrev pub reports_of : CleansedLines → ℕ → Text → Option Found → List Report
reports_of clean_lines linenum line none = []
reports_of clean_lines linenum line (some m) =
    reports_at clean_lines (text_eq (group_or_empty 1 m) (txt "if"))
      (close_expression clean_lines linenum (found_or_zero (find line (txt "("))))

-- `CheckEmptyBlockBody`
unfoldable pub check_empty_block_body : CleansedLines → ℕ → List Report
check_empty_block_body clean_lines linenum =
    let line = line_of clean_lines.elided linenum in
    reports_of clean_lines linenum line (match_re (txt "\\s*(for|while|if)\\s*\\(") line)
