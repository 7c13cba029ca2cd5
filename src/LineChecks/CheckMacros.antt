-- ===== src/LineChecks/CheckMacros.antt =====
-- `FindCheckMacro`, `CheckCheck`, and the tables of the macros.
pub mod Loop
pub mod Negation
use netier.Base.{
  ℕ, zero, suc, ◌+◌, ◌-◌, Bool, true, false, not, ◌&&◌, ◌||◌, Option, none, some, List, [], ◌∷◌,
  ◌++◌, ◌==◌, Text, txt, text_eq, elem, has_text, strip, concat_list, length, take, drop,
  if◌then◌else◌,
}
use netier.Regex.{Found, match_re, is_match, group_or_empty}
use netier.Suppress.{Report}
use netier.Cleanse.{CleansedLines}
use netier.Expression.Stack.{Location, Scan, found, unclosed, pending}
use netier.Expression.Forward.{close_expression, find_end_of_expression_in_line}
use netier.LineChecks.Common.{report, when, line_of, is_empty}

unfoldable pub check_macros : List Text
check_macros =
    txt "DCHECK"
    ∷ txt "CHECK"
    ∷ txt "EXPECT_TRUE"
    ∷ txt "ASSERT_TRUE"
    ∷ txt "EXPECT_FALSE"
    ∷ txt "ASSERT_FALSE"
    ∷ []

-- The six comparisons with the ends of the names of their macros
unfoldable pub comparison_names : List (Text × Text)
comparison_names =
    (txt "==", txt "EQ")
    ∷ (txt "!=", txt "NE")
    ∷ (txt ">=", txt "GE")
    ∷ (txt ">", txt "GT")
    ∷ (txt "<=", txt "LE")
    ∷ (txt "<", txt "LT")
    ∷ []

unfoldable pub inverse_names : List (Text × Text)
inverse_names =
    (txt "==", txt "NE")
    ∷ (txt "!=", txt "EQ")
    ∷ (txt ">=", txt "LT")
    ∷ (txt ">", txt "LE")
    ∷ (txt "<=", txt "GT")
    ∷ (txt "<", txt "GE")
    ∷ []

unfoldable pub name_of : Text → List (Text × Text) → Text
name_of operator [] = []
name_of operator ((op, name) ∷ names) = if text_eq operator op then name else name_of operator names

-- `_CHECK_REPLACEMENT[macro][operator]`
unfoldable pub check_replacement : Text → Text → Text
check_replacement macro operator =
    if text_eq macro (txt "DCHECK")
    then txt "DCHECK_" ++ name_of operator comparison_names
    else if text_eq macro (txt "CHECK")
    then txt "CHECK_" ++ name_of operator comparison_names
    else if text_eq macro (txt "EXPECT_TRUE")
    then txt "EXPECT_" ++ name_of operator comparison_names
    else if text_eq macro (txt "ASSERT_TRUE")
    then txt "ASSERT_" ++ name_of operator comparison_names
    else if text_eq macro (txt "EXPECT_FALSE")
    then txt "EXPECT_" ++ name_of operator inverse_names
    else txt "ASSERT_" ++ name_of operator inverse_names

-- The loop of `FindCheckMacro`: a macro and a position
unfoldable pub first_macro : Text → List Text → Option (Text × ℕ)
first_macro line [] = none
first_macro line (macro ∷ macros) =
    if has_text line macro
    then elim (match_re (txt "^(.*\\b" ++ (macro ++ txt "\\s*)\\(")) line) [
      | some m ↦ some (macro, length (group_or_empty 1 m))
      | none ↦ first_macro line macros
    ]
    else first_macro line macros

unfoldable pub find_check_macro : Text → Option (Text × ℕ)
find_check_macro line = first_macro line check_macros

unfoldable pub macro_expression : List Text → ℕ → ℕ → Location → ℕ → Text
macro_expression lines linenum start_pos l end_pos =
    let line = line_of lines linenum in
    if linenum == l.linenum
    then drop (start_pos + 1) (take (end_pos - 1) line)
    else drop (start_pos + 1) line
      ++ (concat_list (take (l.linenum - (linenum + 1)) (drop (linenum + 1) lines))
          ++ take (end_pos - 1) l.line)

-- How the loop over the expression ends: `no_fuel` never happens with enough of it.
pub data Operands : Type 0 where
  no_fuel : Operands
  returned : Operands
  operands : Text → Option Text → Text → Operands

-- The kinds of token
pub data Token : Type 0 where
  parenthesis logical non_relational relational : Token

unfoldable pub token_kind : Text → Token
token_kind token =
    if text_eq token (txt "(")
    then parenthesis
    else if elem token (txt "&&" ∷ txt "||" ∷ [])
    then logical
    else if elem token (txt "<<" ∷ txt "<<=" ∷ txt ">>" ∷ txt ">>=" ∷ txt "->*" ∷ txt "->" ∷ [])
    then non_relational
    else relational

-- The next step of the loop: it ends, or goes on with `lhs` and `expression`
pub data Turn : Type 0 where
  ends : Operands → Turn
  goes_on : Text → Text → Turn

abbrev pub parenthesized : Text → Text → Scan → Turn
parenthesized lhs expression (found end) =
    goes_on (lhs ++ (b'(' ∷ take end expression)) (drop end expression)
parenthesized lhs expression unclosed = ends returned
parenthesized lhs expression (pending stack) = ends returned

unfoldable pub token_turn : Token → Text → Text → Text → Turn
token_turn parenthesis token lhs rest =
    parenthesized lhs rest (find_end_of_expression_in_line rest 0 (b'(' ∷ []))
token_turn logical token lhs rest = ends returned
token_turn non_relational token lhs rest = goes_on (lhs ++ token) rest
token_turn relational token lhs rest = ends (operands lhs (some token) rest)

abbrev pub operand_turn : Text → Option Found → Turn
operand_turn lhs none = ends (operands lhs none [])
operand_turn lhs (some m) = goes_on (lhs ++ group_or_empty 1 m) (group_or_empty 2 m)

abbrev pub first_match : Option Found → Option Found → Option Found
first_match none second = second
first_match (some m) second = some m

abbrev pub token_pattern : Text
token_pattern = txt "^\\s*(<<|<<=|>>|>>=|->\\*|->|&&|\\|\\||==|!=|>=|>|<=|<|\\()(.*)$"

abbrev pub operand_pattern : Text
operand_pattern = txt "^([^-=!<>()&|]+)(.*)$"

abbrev pub char_pattern : Text
char_pattern = txt "^(\\s*\\S)(.*)$"

unfoldable pub expression_turn : Text → Text → Turn
expression_turn lhs expression = elim (match_re token_pattern expression) [
  | some m ↦
      token_turn (token_kind (group_or_empty 1 m)) (group_or_empty 1 m) lhs (group_or_empty 2 m)
  | none ↦
      operand_turn lhs
        (first_match (match_re operand_pattern expression) (match_re char_pattern expression))
]

-- The loop `while expression`
unfoldable pub operands_of : ℕ → Text → Text → Operands
operands_of zero lhs expression = no_fuel
operands_of (suc fuel) lhs [] = operands lhs none []
operands_of (suc fuel) lhs (c ∷ expression) = elim (expression_turn lhs (c ∷ expression)) [
  | ends result ↦ result
  | goes_on lhs' expression' ↦ operands_of fuel lhs' expression'
]

abbrev pub constant_pattern : Text
constant_pattern = txt "^([-+]?(\\d+|0[xX][0-9a-fA-F]+)[lLuU]{0,3}|\".*\"|\\'.*\\')$"

unfoldable pub operator_reports : ℕ → Text → Text → Text → Text → List Report
operator_reports linenum macro lhs operator rhs =
    when
      (not (is_empty lhs)
        && (not (is_empty rhs)
            && (not (has_text rhs (txt "&&") || has_text rhs (txt "||"))
                && (is_match constant_pattern (strip lhs)
                    || is_match constant_pattern (strip rhs)))))
      (report linenum (txt "readability/check") 2 (
        txt "Consider using "
        ++ (check_replacement macro operator
            ++ (txt " instead of " ++ (macro ++ (txt "(a " ++ (operator ++ txt " b)")))))))

abbrev pub operands_reports : ℕ → Text → Operands → Option (List Report)
operands_reports linenum macro no_fuel = none
operands_reports linenum macro returned = some []
operands_reports linenum macro (operands lhs none rhs) = some []
operands_reports linenum macro (operands lhs (some operator) rhs) =
    some (operator_reports linenum macro lhs operator rhs)

unfoldable pub closed_macro_reports :
    List Text → ℕ → Text → ℕ → Location → Option ℕ → Option (List Report)
closed_macro_reports lines linenum macro start_pos l none = some []
closed_macro_reports lines linenum macro start_pos l (some end_pos) =
    let expression = macro_expression lines linenum start_pos l end_pos in
    if is_match (txt "\\s*;") (drop end_pos l.line)
    then operands_reports linenum macro (operands_of (length expression + 1) [] expression)
    else some []

abbrev pub macro_reports_at : List Text → ℕ → Text → ℕ → Option Location → Option (List Report)
macro_reports_at lines linenum macro start_pos none = some []
macro_reports_at lines linenum macro start_pos (some l) =
    closed_macro_reports lines linenum macro start_pos l l.pos

abbrev pub macro_reports : CleansedLines → ℕ → Option (Text × ℕ) → Option (List Report)
macro_reports clean_lines linenum none = some []
macro_reports clean_lines linenum (some (macro, start_pos)) =
    macro_reports_at clean_lines.elided linenum macro start_pos
      (close_expression clean_lines linenum start_pos)

-- `CheckCheck`; none means that the fuel ran out, a round for each character.
unfoldable pub check_check : CleansedLines → ℕ → Option (List Report)
check_check clean_lines linenum =
    macro_reports clean_lines linenum (find_check_macro (line_of clean_lines.elided linenum))
