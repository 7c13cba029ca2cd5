-- ===== src/Language/Inheritance.antt =====
-- `CheckMakePairUsesDeduction`, `CheckRedundantVirtual`, `CheckRedundantOverrideOrFinal`.
use netier.Base.{
  ℕ, ◌+◌, ◌-◌, ◌&&◌, ◌||◌, Option, none, some, List, [], ◌∷◌, ◌++◌, ltb, Text, txt, length, take,
  drop, if◌then◌else◌,
}
use netier.Regex.{Found, match_re, search_re, is_match, is_found, group_or_empty}
use netier.Suppress.{Report}
use netier.Cleanse.{CleansedLines}
use netier.Expression.Stack.{Location}
use netier.Expression.Forward.{close_expression}
use netier.LineChecks.Common.{report, when, line_of, rfind}

-- `CheckMakePairUsesDeduction`
unfoldable pub check_make_pair_uses_deduction : CleansedLines → ℕ → List Report
check_make_pair_uses_deduction clean_lines linenum =
    when (is_found (txt "\\bmake_pair\\s*<") (line_of clean_lines.elided linenum)) (
      report linenum (txt "build/explicit_make_pair") 4 (
        txt "For C++11-compatibility, omit template arguments from make_pair"
        ++ txt " OR use pair directly OR if appropriate, construct a pair directly"))

-- The loop for the parenthesis, over the lines from number `i` on: its line and column
unfoldable pub parameter_start : ℕ → ℕ → List Text → Option (ℕ × ℕ)
parameter_start start_col i [] = none
parameter_start start_col i (line ∷ lines) =
    elim (match_re (txt "^([^(]*)\\(") (drop start_col line)) [
      | some m ↦ some (i, start_col + length (group_or_empty 1 m))
      | none ↦ parameter_start 0 (i + 1) lines
    ]

-- Up to three lines
abbrev pub lines_from : CleansedLines → ℕ → List Text
lines_from clean_lines i = take 3 (drop i clean_lines.elided)

abbrev pub parameter_end : CleansedLines → Option (ℕ × ℕ) → Option Location
parameter_end clean_lines none = none
parameter_end clean_lines (some (i, pos)) = close_expression clean_lines i pos

unfoldable pub virtual_report : ℕ → Option Found → List Report
virtual_report linenum none = []
virtual_report linenum (some m) =
    report linenum (txt "readability/inheritance") 4 (
      txt "\"virtual\" is redundant since function is "
      ++ (txt "already declared as \"" ++ (group_or_empty 1 m ++ txt "\"")))
    ∷ []

-- The loop for `override` and `final`
unfoldable pub virtual_loop : ℕ → ℕ → List Text → List Report
virtual_loop linenum end_col [] = []
virtual_loop linenum end_col (whole ∷ lines) =
    let line = drop end_col whole in
    virtual_report linenum (search_re (txt "\\b(override|final)\\b") line)
    ++ (if is_found (txt "[^\\w]\\s*$") line then [] else virtual_loop linenum 0 lines)

abbrev pub virtual_from : CleansedLines → ℕ → ℕ → Option ℕ → List Report
virtual_from clean_lines linenum end_line none = []
virtual_from clean_lines linenum end_line (some end_col) =
    virtual_loop linenum end_col (lines_from clean_lines end_line)

abbrev pub virtual_behind : CleansedLines → ℕ → Option Location → List Report
virtual_behind clean_lines linenum none = []
virtual_behind clean_lines linenum (some l) = virtual_from clean_lines linenum l.linenum l.pos

-- The column where the search starts is the length of the word, as in the source.
unfoldable pub virtual_reports : CleansedLines → ℕ → Text → Option Found → List Report
virtual_reports clean_lines linenum line none = []
virtual_reports clean_lines linenum line (some m) =
    if is_found (txt "\\b(public|protected|private)\\s+$") (group_or_empty 1 m)
      || (is_match (txt "^\\s+(public|protected|private)\\b") (group_or_empty 3 m)
          || is_match (txt "^.*[^:]:[^:].*$") line)
    then []
    else virtual_behind clean_lines linenum (
        parameter_end clean_lines
          (parameter_start (length (group_or_empty 2 m)) linenum (lines_from clean_lines linenum)))

-- `CheckRedundantVirtual`
unfoldable pub check_redundant_virtual : CleansedLines → ℕ → List Report
check_redundant_virtual clean_lines linenum =
    let line = line_of clean_lines.elided linenum in
    virtual_reports clean_lines linenum line (match_re (txt "^(.*)(\\bvirtual\\b)(.*)$") line)

-- `fragment`, or none where the check returns
abbrev pub declarator_rest : List Text → ℕ → Text → Option ℕ → Option Text
declarator_rest elided linenum line (some declarator_end) = some (drop declarator_end line)
declarator_rest elided linenum line none =
    if ltb 1 linenum
    then elim (rfind (line_of elided (linenum - 1)) b')') [ none ↦ none | some i ↦ some line ]
    else none

unfoldable pub override_reports : ℕ → Option Text → List Report
override_reports linenum none = []
override_reports linenum (some fragment) =
    when (is_found (txt "\\boverride\\b") fragment && is_found (txt "\\bfinal\\b") fragment) (
      report linenum (txt "readability/inheritance") 4
        (txt "\"override\" is redundant since function is " ++ txt "already declared as \"final\""))

-- `CheckRedundantOverrideOrFinal`
unfoldable pub check_redundant_override_or_final : CleansedLines → ℕ → List Report
check_redundant_override_or_final clean_lines linenum =
    let line = line_of clean_lines.elided linenum in
    override_reports linenum (declarator_rest clean_lines.elided linenum line (rfind line b')'))
