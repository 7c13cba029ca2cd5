-- ===== src/LineChecks/Operators.antt =====
-- `CheckOperatorSpacing`, `CheckParenthesisSpacing`, `CheckCommaSpacing`.
pub mod Hiding
use netier.Base.{
  ℕ, zero, suc, ◌+◌, Bool, true, false, not, ◌&&◌, ◌||◌, Option, none, some, List, [], ◌∷◌, ◌++◌,
  ◌==◌, leb, Text, txt, text_eq, length, is_digit, is_some, if◌then◌else◌,
}
use netier.Regex.{Found, match_re, search_re, is_match, is_found, replace_all, group_or_empty}
use netier.Suppress.{Report}
use netier.Cleanse.{CleansedLines}
use netier.Expression.Forward.{close_expression}
use netier.Expression.Backward.{reverse_close_expression}
use netier.LineChecks.Common.{report, when, line_of, is_empty, pos_of}

-- `'_' * n`
unfoldable pub underscores : ℕ → Text
underscores zero = []
underscores (suc n) = b'_' ∷ underscores n

abbrev pub operator_pattern : Text
operator_pattern = txt "^(.*\\boperator\\b)(\\S+)(\\s*\\(.*)$"

unfoldable pub without_operator : Found → Text
without_operator m =
    group_or_empty 1 m ++ (underscores (length (group_or_empty 2 m)) ++ group_or_empty 3 m)

-- The `while True` loop; none means that the fuel ran out.
unfoldable pub hide_operators : ℕ → Text → Option Text
hide_operators zero line = none
hide_operators (suc fuel) line = elim (match_re operator_pattern line) [
  | some m ↦ hide_operators fuel (without_operator m)
  | none ↦ some line
]

unfoldable pub equals_reports : ℕ → Text → List Report
equals_reports linenum line =
    when
      ((is_found (txt "[\\w.]=") line || is_found (txt "=[\\w.]") line)
        && (not (is_found (txt "\\b(if|while|for) ") line)
            && (not (is_found (txt "(>=|<=|==|!=|&=|\\^=|\\|=|\\+=|\\*=|\\/=|\\%=)") line)
                && not (is_found (txt "operator=") line))))
      (report linenum (txt "whitespace/operators") 4 (txt "Missing spaces around ="))

-- The report for `<` or `>` at which the expression has no other end
abbrev pub angle_report : ℕ → Text → Option ℕ → List Report
angle_report linenum angle none =
    report linenum (txt "whitespace/operators") 3 (txt "Missing spaces around " ++ angle) ∷ []
angle_report linenum angle (some pos) = []

unfoldable pub less_reports : CleansedLines → ℕ → Option Found → List Report
less_reports clean_lines linenum none = []
less_reports clean_lines linenum (some m) =
    angle_report linenum (txt "<")
      (pos_of (close_expression clean_lines linenum (length (group_or_empty 1 m))))

unfoldable pub greater_reports : CleansedLines → ℕ → Option Found → List Report
greater_reports clean_lines linenum none = []
greater_reports clean_lines linenum (some m) =
    angle_report linenum (txt ">")
      (pos_of (reverse_close_expression clean_lines linenum (length (group_or_empty 1 m))))

unfoldable pub comparison_reports : CleansedLines → ℕ → Text → Option Found → List Report
comparison_reports clean_lines linenum line (some m) =
    report linenum (txt "whitespace/operators") 3
      (txt "Missing spaces around " ++ group_or_empty 1 m)
    ∷ []
comparison_reports clean_lines linenum line none =
    if is_match (txt "#.*include") line
    then []
    else less_reports clean_lines linenum (match_re (txt "^(.*[^\\s<])<[^\\s=<,]") line)
      ++ greater_reports clean_lines linenum (match_re (txt "^(.*[^-\\s>])>[^\\s=>,]") line)

-- `s.isdigit()`, of a text with one character at most
abbrev pub all_digits : Text → Bool
all_digits [] = true
all_digits (c ∷ s) = is_digit c && all_digits s

abbrev pub is_number : Text → Bool
is_number [] = false
is_number (c ∷ s) = all_digits (c ∷ s)

unfoldable pub shift_reports : ℕ → Option Found → List Report
shift_reports linenum none = []
shift_reports linenum (some m) =
    when
      (not (is_number (group_or_empty 1 m) && is_number (group_or_empty 2 m))
        && not (
            text_eq (group_or_empty 1 m) (txt "operator")
            && text_eq (group_or_empty 2 m) (txt ";")))
      (report linenum (txt "whitespace/operators") 3 (txt "Missing spaces around <<"))

unfoldable pub unary_reports : ℕ → Option Found → List Report
unary_reports linenum none = []
unary_reports linenum (some m) =
    report linenum (txt "whitespace/operators") 4
      (txt "Extra space for operator " ++ group_or_empty 1 m)
    ∷ []

-- Behind the loop. The calls for `<` and `>` read the line as it was.
unfoldable pub operator_reports : CleansedLines → ℕ → Text → List Report
operator_reports clean_lines linenum line =
    equals_reports linenum line
    ++ (comparison_reports clean_lines linenum line
          (search_re (txt "[^<>=!\\s](==|!=|<=|>=|\\|\\|)[^<>=!\\s,;\\)]") line)
        ++ (shift_reports linenum
              (search_re (txt "(operator|[^\\s(<])(?:L|UL|LL|ULL|l|ul|ll|ull)?<<([^\\s,=<])") line)
            ++ (when (is_found (txt ">>[a-zA-Z_]") line)
                  (report linenum (txt "whitespace/operators") 3 (txt "Missing spaces around >>"))
                ++ unary_reports linenum
                    (search_re (txt "(!\\s|~\\s|[\\s]--[\\s;]|[\\s]\\+\\+[\\s;])") line))))

abbrev pub operator_reports_of : CleansedLines → ℕ → Option Text → Option (List Report)
operator_reports_of clean_lines linenum none = none
operator_reports_of clean_lines linenum (some line) =
    some (operator_reports clean_lines linenum line)

-- `CheckOperatorSpacing`, with a round of fuel for each character
unfoldable pub check_operator_spacing : CleansedLines → ℕ → Option (List Report)
check_operator_spacing clean_lines linenum =
    let line = line_of clean_lines.elided linenum in
    operator_reports_of clean_lines linenum (hide_operators (length line + 1) line)

unfoldable pub keyword_reports : ℕ → Option Found → List Report
keyword_reports linenum none = []
keyword_reports linenum (some m) =
    report linenum (txt "whitespace/parens") 5
      (txt "Missing space before ( in " ++ group_or_empty 1 m)
    ∷ []

-- The spaces inside the parentheses of `if`, `for`, `while`, `switch`
unfoldable pub is_mismatch : Text → Found → Bool
is_mismatch line m =
    let before = length (group_or_empty 2 m) in
    let behind = length (group_or_empty 4 m) in
    not (before == behind)
    && not (
        text_eq (group_or_empty 3 m) (txt ";") && before == 1 + behind
        || before == 0 && is_found (txt "\\bfor\\s*\\(.*; \\)") line)

unfoldable pub inside_reports : ℕ → Text → Option Found → List Report
inside_reports linenum line none = []
inside_reports linenum line (some m) =
    when (is_mismatch line m) (
      report linenum (txt "whitespace/parens") 5
        (txt "Mismatching spaces inside () in " ++ group_or_empty 1 m))
    ++ when (leb 2 (length (group_or_empty 2 m))) (
        report linenum (txt "whitespace/parens") 5
          (txt "Should have zero or one spaces inside ( and ) in " ++ group_or_empty 1 m))

-- `CheckParenthesisSpacing`
unfoldable pub check_parenthesis_spacing : CleansedLines → ℕ → List Report
check_parenthesis_spacing clean_lines linenum =
    let line = line_of clean_lines.elided linenum in
    keyword_reports linenum (search_re (txt " (if\\(|for\\(|while\\(|switch\\()") line)
    ++ inside_reports linenum line (
        search_re
          (txt "\\b(if|for|while|switch)\\s*" ++ txt "\\(([ ]*)(.).*[^ ]+([ ]*)\\)\\s*{\\s*$") line)

-- `CheckCommaSpacing`
unfoldable pub check_comma_spacing : CleansedLines → ℕ → List Report
check_comma_spacing clean_lines linenum =
    let raw = line_of clean_lines.lines_without_raw_strings linenum in
    let line = line_of clean_lines.elided linenum in
    when
      (is_found (txt ",[^,\\s]") (replace_all (txt "\\boperator\\s*,\\s*\\(") (txt "F(") line)
        && is_found (txt ",[^,\\s]") raw)
      (report linenum (txt "whitespace/comma") 3 (txt "Missing space after ,"))
    ++ when (is_found (txt ";[^\\s};\\\\)/]") line)
        (report linenum (txt "whitespace/semicolon") 3 (txt "Missing space after ;"))
