-- ===== src/LineChecks/BraceSpacing.antt =====
-- `CheckBracesSpacing`, `IsDecltype`, `CheckSectionSpacing`, `GetPreviousNonBlankLine`.
use netier.Base.{
  ℕ, zero, suc, ◌+◌, ◌-◌, min, Bool, false, not, ◌&&◌, ◌||◌, Option, none, some, List, [], ◌∷◌,
  ◌++◌, leb, ltb, Text, txt, length, take, drop, concat_list, if◌then◌else◌,
}
use netier.Regex.{Found, match_re, is_match, is_found, group_or_empty}
use netier.Suppress.{Report}
use netier.Cleanse.{CleansedLines}
use netier.Expression.Stack.{Location}
use netier.Expression.Forward.{close_expression}
use netier.Expression.Backward.{reverse_close_expression}
use netier.Nesting.Blocks.{BlockInfo, ClassInfo}
use netier.LineChecks.Common.{report, when, line_of, line_before, is_blank_line}
use netier.LineChecks.Types.{is_type}

abbrev pub text_behind : Text → Option ℕ → Text
text_behind line none = []
text_behind line (some pos) = drop pos line

-- `trailing_text`: the rest of the line, and two more lines before the last one of the file
abbrev pub trailing_text : CleansedLines → Option Location → Text
trailing_text clean_lines none = []
trailing_text clean_lines (some l) =
    text_behind l.line l.pos
    ++ concat_list (
        take (min (l.linenum + 3) (clean_lines.num_lines - 1) - (l.linenum + 1))
          (drop (l.linenum + 1) clean_lines.elided))

unfoldable pub before_brace_reports :
    CleansedLines → ℕ → List BlockInfo → Option Found → List Report
before_brace_reports clean_lines linenum stack none = []
before_brace_reports clean_lines linenum stack (some m) =
    let leading_text = group_or_empty 1 m in
    let trailing =
      trailing_text clean_lines (close_expression clean_lines linenum (length leading_text)) in
    when
      (not (is_match (txt "^[\\s}]*[{.;,)<>\\]:]") trailing)
        && not (is_type clean_lines stack leading_text))
      (report linenum (txt "whitespace/braces") 5 (txt "Missing space before {"))

unfoldable pub semicolon_reports : ℕ → Text → List Report
semicolon_reports linenum line =
    if is_found (txt ":\\s*;\\s*$") line
    then report linenum (txt "whitespace/semicolon") 5
        (txt "Semicolon defining empty statement. Use {} instead.")
      ∷ []
    else if is_found (txt "^\\s*;\\s*$") line
    then report linenum (txt "whitespace/semicolon") 5 (
        txt "Line contains only semicolon. If this should be an empty statement, "
        ++ txt "use {} instead.")
      ∷ []
    else when (is_found (txt "\\s+;\\s*$") line && not (is_found (txt "\\bfor\\b") line)) (
        report linenum (txt "whitespace/semicolon") 5 (
          txt "Extra space before last semicolon. If this should be an empty "
          ++ txt "statement, use {} instead."))

-- `CheckBracesSpacing`
unfoldable pub check_braces_spacing : CleansedLines → ℕ → List BlockInfo → List Report
check_braces_spacing clean_lines linenum stack =
    let line = line_of clean_lines.elided linenum in
    before_brace_reports clean_lines linenum stack (match_re (txt "^(.*[^ ({>]){") line)
    ++ (when (is_found (txt "}else") line)
          (report linenum (txt "whitespace/braces") 5 (txt "Missing space before else"))
        ++ semicolon_reports linenum line)

abbrev pub ends_in_decltype : Text → Option ℕ → Bool
ends_in_decltype line none = false
ends_in_decltype line (some start_col) = is_found (txt "\\bdecltype\\s*$") (take start_col line)

-- `IsDecltype`; none is an IndexError
unfoldable pub is_decltype : CleansedLines → ℕ → ℕ → Option Bool
is_decltype clean_lines linenum column =
    elim (reverse_close_expression clean_lines linenum column) [
      | none ↦ none
      | some l ↦ some (ends_in_decltype l.line l.pos)
    ]

-- The loop for `end_class_head`, over the lines from number `i` on
unfoldable pub class_head : ℕ → ℕ → List Text → ℕ
class_head starting_linenum i [] = starting_linenum
class_head starting_linenum i (line ∷ lines) =
    if is_found (txt "\\{\\s*$") line then i else class_head starting_linenum (i + 1) lines

unfoldable pub end_class_head : List Text → ℕ → ℕ → ℕ
end_class_head lines starting_linenum linenum =
    class_head starting_linenum starting_linenum
      (take (linenum - starting_linenum) (drop starting_linenum lines))

unfoldable pub section_reports : List Text → ℕ → ℕ → Option Found → List Report
section_reports lines starting_linenum linenum none = []
section_reports lines starting_linenum linenum (some m) =
    let prev_line = line_before lines linenum in
    when
      (not (is_blank_line prev_line)
        && (not (is_found (txt "\\b(class|struct)\\b") prev_line)
            && (not (is_found (txt "\\\\$") prev_line)
                && ltb (end_class_head lines starting_linenum linenum + 1) linenum)))
      (report linenum (txt "whitespace/blank_line") 3
        (txt "\"" ++ (group_or_empty 1 m ++ txt ":\" should be preceded by a blank line")))

-- `CheckSectionSpacing`, for the block and what its class adds
unfoldable pub check_section_spacing : CleansedLines → BlockInfo → ClassInfo → ℕ → List Report
check_section_spacing clean_lines block class linenum =
    if leb class.last_line (block.starting_linenum + 24) || leb linenum block.starting_linenum
    then []
    else section_reports clean_lines.lines block.starting_linenum linenum
        (match_re (txt "\\s*(public|protected|private):") (line_of clean_lines.lines linenum))

-- `GetPreviousNonBlankLine`, over the lines with numbers below the first argument; none is -1
unfoldable pub get_previous_non_blank_line : ℕ → List Text → Text × Option ℕ
get_previous_non_blank_line zero elided = ([], none)
get_previous_non_blank_line (suc prevlinenum) elided =
    let prevline = line_of elided prevlinenum in
    if not (is_blank_line prevline)
    then (prevline, some prevlinenum)
    else get_previous_non_blank_line prevlinenum elided
