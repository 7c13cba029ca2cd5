-- ===== src/LineChecks/Calls.antt =====
-- `CheckSpacingForFunctionCall`.
use netier.Base.{ℕ, Bool, not, ◌&&◌, none, some, List, [], ◌∷◌, ◌++◌, Text, txt, if◌then◌else◌}
use netier.Regex.{search_re, is_found, group_or_empty}
use netier.Suppress.{Report}
use netier.Cleanse.{CleansedLines}
use netier.LineChecks.Common.{report, when, line_of}

-- The loop over the control structures: what stands in the parentheses of the first that matches
unfoldable pub call_text : Text → List Text → Text
call_text line [] = line
call_text line (pattern ∷ patterns) = elim (search_re pattern line) [
  | some m ↦ group_or_empty 1 m
  | none ↦ call_text line patterns
]

unfoldable pub control_patterns : List Text
control_patterns =
    txt "\\bif\\s*\\((.*)\\)\\s*{"
    ∷ txt "\\bfor\\s*\\((.*)\\)\\s*{"
    ∷ txt "\\bwhile\\s*\\((.*)\\)\\s*[{;]"
    ∷ txt "\\bswitch\\s*\\((.*)\\)\\s*{"
    ∷ []

unfoldable pub is_plain_call : Text → Bool
is_plain_call fncall =
    not (is_found (txt "\\b(if|for|while|switch|return|new|delete|catch|sizeof)\\b") fncall)
    && (not (is_found (txt " \\([^)]+\\)\\([^)]*(\\)|,$)") fncall)
        && not (is_found (txt " \\([^)]+\\)\\[[^\\]]+\\]") fncall))

unfoldable pub after_open_reports : ℕ → Text → List Report
after_open_reports linenum fncall =
    if is_found (txt "\\w\\s*\\(\\s(?!\\s*\\\\$)") fncall
    then report linenum (txt "whitespace/parens") 4 (txt "Extra space after ( in function call")
      ∷ []
    else when (is_found (txt "\\(\\s+(?!(\\s*\\\\)|\\()") fncall)
        (report linenum (txt "whitespace/parens") 2 (txt "Extra space after ("))

unfoldable pub before_open_reports : ℕ → Text → Text → List Report
before_open_reports linenum line fncall =
    when
      (is_found (txt "\\w\\s+\\(") fncall
        && (not (is_found (txt "_{0,2}asm_{0,2}\\s+_{0,2}volatile_{0,2}\\s+\\(") fncall)
            && (not (is_found (txt "#\\s*define|typedef|using\\s+\\w+\\s*=") fncall)
                && (not (is_found (txt "\\w\\s+\\((\\w+::)*\\*\\w+\\)\\(") fncall)
                    && not (is_found (txt "\\bcase\\s+\\(") fncall)))))
      (report linenum (txt "whitespace/parens")
        (if is_found (txt "\\boperator_*\\b") line then 0 else 4)
        (txt "Extra space before ( in function call"))

unfoldable pub before_close_reports : ℕ → Text → List Report
before_close_reports linenum fncall = when (is_found (txt "[^)]\\s+\\)\\s*[^{\\s]") fncall) (
    report linenum (txt "whitespace/parens") 2 (
      if is_found (txt "^\\s+\\)") fncall
      then txt "Closing ) should be moved to the previous line"
      else txt "Extra space before )"))

unfoldable pub check_spacing_for_function_call : CleansedLines → ℕ → List Report
check_spacing_for_function_call clean_lines linenum =
    let line = line_of clean_lines.elided linenum in
    let fncall = call_text line control_patterns in
    if is_plain_call fncall
    then after_open_reports linenum fncall
      ++ (before_open_reports linenum line fncall ++ before_close_reports linenum fncall)
    else []
