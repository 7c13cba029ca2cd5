-- ===== src/LineChecks/Style.antt =====
-- `CheckStyle`, which calls most checks of a line.
pub mod Ends
use netier.Base.{
  ℕ, zero, suc, ◌+◌, ◌-◌, Bool, true, false, not, ◌&&◌, ◌||◌, Option, none, some, List, [], ◌∷◌,
  ◌++◌, ◌==◌, ltb, Text, txt, text_eq, starts_with, has_text, count_text, decimal, is_space, length,
  get_or, map, if◌then◌else◌,
}
use netier.Regex.{is_match, is_found}
use netier.Suppress.{Report}
use netier.Cleanse.{CleansedLines}
use netier.Nesting.Blocks.{BlockInfo, BlockClass, class_info}
use netier.Nesting.State.{innermost_class}
use netier.LineChecks.Common.{report, when, line_of}
use netier.LineChecks.BraceSpacing.{
  get_previous_non_blank_line, check_braces_spacing, check_section_spacing,
}
use netier.LineChecks.Braces.{Unicode, get_line_width, check_braces}
use netier.LineChecks.Semicolons.{Event, reported, check_trailing_semicolon}
use netier.LineChecks.EmptyBlocks.{check_empty_block_body}
use netier.LineChecks.Spacing.{check_spacing}
use netier.LineChecks.Operators.{
  check_operator_spacing, check_parenthesis_spacing, check_comma_spacing,
}
use netier.LineChecks.Calls.{check_spacing_for_function_call}
use netier.LineChecks.CheckMacros.{check_check}
use netier.LineChecks.AltTokens.{check_alt_tokens}

-- The loop that counts `initial_spaces`
unfoldable pub initial_spaces : Text → ℕ
initial_spaces [] = 0
initial_spaces (c ∷ line) = if c == b' ' then suc (initial_spaces line) else 0

-- `line and line[-1].isspace()`
unfoldable pub ends_in_space : Text → Bool
ends_in_space [] = false
ends_in_space (c ∷ []) = is_space c
ends_in_space (c ∷ d ∷ line) = ends_in_space (d ∷ line)

-- `prev`
abbrev pub previous_line : List Text → ℕ → Text
previous_line raw zero = []
previous_line raw (suc i) = line_of raw i

unfoldable pub is_weird_indent : CleansedLines → ℕ → Bool
is_weird_indent clean_lines linenum =
    let raw = clean_lines.lines_without_raw_strings in
    let line = line_of raw linenum in
    not (is_found (txt "[\",=><] *$") (previous_line raw linenum))
    && ((initial_spaces line == 1 || initial_spaces line == 3)
        && (not (is_match (txt "\\s*\\w+\\s*:\\s*\\\\?$") (line_of clean_lines.elided linenum))
            && not (
                not (text_eq (line_of clean_lines.raw_lines linenum) line)
                && is_match (txt "^\\s*\"\"") line)))

-- `is_header_guard`; the guard is `GetHeaderGuardCPPVariable(filename)` for a header, else none.
unfoldable pub is_header_guard : Option Text → Text → Bool
is_header_guard none line = false
is_header_guard (some cppvar) line =
    starts_with line (txt "#ifndef " ++ cppvar)
    || starts_with line (txt "#define " ++ cppvar)
    || starts_with line (txt "#endif  // " ++ cppvar)

-- Lines that may be long
unfoldable pub may_be_long : Option Text → Text → Bool
may_be_long guard line =
    starts_with line (txt "#include")
    || is_header_guard guard line
    || is_match (txt "^\\s*//.*http(s?)://\\S*$") line
    || is_match (txt "^\\s*//\\s*[^\\s]*$") line
    || is_match (txt "^// \\$Id:.*#[0-9]+ \\$$") line
    || is_match (txt "^\\s*/// [@\\\\](copydoc|copydetails|copybrief) .*$") line

unfoldable pub has_more_commands : Text → Text → Text → Bool
has_more_commands line cleansed_line prevline =
    ltb 1 (count_text cleansed_line (txt ";"))
    && (not (is_match (txt "^[^{};]*\\[[^\\[\\]]*\\][^{}]*\\{[^{}\\n\\r]*\\}") line)
        && (not (has_text cleansed_line (txt "for"))
            && ((not (has_text prevline (txt "for")) || has_text prevline (txt ";"))
                && not (
                    (has_text cleansed_line (txt "case ")
                      || has_text cleansed_line (txt "default:"))
                    && has_text cleansed_line (txt "break;")))))

-- The checks that `CheckStyle` makes itself
unfoldable pub own_reports : Unicode → ℕ → Option Text → CleansedLines → ℕ → List Report
own_reports u limit guard clean_lines linenum =
    let line = line_of clean_lines.lines_without_raw_strings linenum in
    when (has_text line (txt "\t"))
      (report linenum (txt "whitespace/tab") 1 (txt "Tab found; better to use spaces"))
    ++ (when (is_weird_indent clean_lines linenum) (
          report linenum (txt "whitespace/indent") 3 (
            txt "Weird number of spaces at line-start.  " ++ txt "Are you using a 2-space indent?"))
        ++ (when (ends_in_space line) (
              report linenum (txt "whitespace/end_of_line") 4
                (txt "Line ends in whitespace.  Consider deleting these extra spaces."))
            ++ (when (not (may_be_long guard line) && ltb limit (get_line_width u line)) (
                  report linenum (txt "whitespace/line_length") 2
                    (txt "Lines should be <= " ++ (decimal limit ++ txt " characters long")))
                ++ when
                    (has_more_commands line (line_of clean_lines.elided linenum)
                      (get_previous_non_blank_line linenum clean_lines.elided).0)
                    (report linenum (txt "whitespace/newline") 0
                      (txt "More than one command on the same line")))))

abbrev pub sections_of : CleansedLines → ℕ → BlockInfo → BlockClass → List Report
sections_of clean_lines linenum block (class_info c) =
    check_section_spacing clean_lines block c linenum
sections_of clean_lines linenum block _ = []

unfoldable pub section_reports_of : CleansedLines → ℕ → Option BlockInfo → List Report
section_reports_of clean_lines linenum none = []
section_reports_of clean_lines linenum (some b) = sections_of clean_lines linenum b b.block_class

-- The calls behind `CheckOperatorSpacing` and behind `CheckCheck`
unfoldable pub spacing_reports : CleansedLines → ℕ → List BlockInfo → List Report
spacing_reports clean_lines linenum stack =
    check_parenthesis_spacing clean_lines linenum
    ++ (check_comma_spacing clean_lines linenum
        ++ (check_braces_spacing clean_lines linenum stack
            ++ check_spacing_for_function_call clean_lines linenum))

unfoldable pub last_reports : CleansedLines → ℕ → List BlockInfo → List Report
last_reports clean_lines linenum stack =
    check_alt_tokens clean_lines linenum
    ++ section_reports_of clean_lines linenum (innermost_class stack)

-- The calls in their order, where the two checks with loops on fuel have made their reports
unfoldable pub style_events :
    Unicode
    → ℕ
    → Option Text
    → CleansedLines
    → ℕ
    → List BlockInfo
    → Option (List Report)
    → Option (List Report)
    → Option (List Event)
style_events u limit guard clean_lines linenum stack none macros = none
style_events u limit guard clean_lines linenum stack (some operators) none = none
style_events u limit guard clean_lines linenum stack (some operators) (some macros) = some (
    map reported
      (own_reports u limit guard clean_lines linenum ++ check_braces u limit clean_lines linenum)
    ++ (check_trailing_semicolon clean_lines linenum
        ++ map reported (
            check_empty_block_body clean_lines linenum
            ++ (check_spacing clean_lines linenum stack
                ++ (operators
                    ++ (spacing_reports clean_lines linenum stack
                        ++ (macros ++ last_reports clean_lines linenum stack)))))))

-- `CheckStyle`; none means that a loop ran out of fuel.
unfoldable pub check_style :
    Unicode → ℕ → Option Text → CleansedLines → ℕ → List BlockInfo → Option (List Event)
check_style u limit guard clean_lines linenum stack =
    style_events u limit guard clean_lines linenum stack
      (check_operator_spacing clean_lines linenum) (check_check clean_lines linenum)
