-- ===== src/LineChecks/Proper/Operators.antt =====
-- The reports of `CheckOperatorSpacing`, `CheckParenthesisSpacing`, `CheckCommaSpacing`, and
-- `CheckSpacingForFunctionCall`.
use netier.Base.{ℕ, ◌<◌, ◌≡◌, Option, none, some, List, Text, arith, subst}
use mathlib.Core.Option.{some-injective}
use netier.Regex.{Found}
use netier.Suppress.{Report}
use netier.Cleanse.{CleansedLines}
use netier.LineChecks.Calls.{
  after_open_reports, before_open_reports, before_close_reports, check_spacing_for_function_call,
}
use netier.LineChecks.Operators.{
  equals_reports, angle_report, less_reports, greater_reports, comparison_reports, shift_reports,
  unary_reports, operator_reports, operator_reports_of, check_operator_spacing, keyword_reports,
  inside_reports, check_parenthesis_spacing, check_comma_spacing,
}
use netier.LineChecks.Proper.{AreProper, proper, nil}

module _ {n last : ℕ} (h : n < last) where
  equals_reports-AreProper : (line : Text) → AreProper n last (equals_reports n line)
  unfolding equals_reports
  equals_reports-AreProper line = search (proper, arith)

  angle_report-AreProper :
      (angle : Text) (pos : Option ℕ) → AreProper n last (angle_report n angle pos)
  angle_report-AreProper angle none = search (proper, arith)
  angle_report-AreProper angle (some pos) = nil

  less_reports-AreProper :
      (c : CleansedLines) (m : Option Found) → AreProper n last (less_reports c n m)
  unfolding less_reports
  less_reports-AreProper c none = nil
  less_reports-AreProper c (some m) = angle_report-AreProper _ _

  greater_reports-AreProper :
      (c : CleansedLines) (m : Option Found) → AreProper n last (greater_reports c n m)
  unfolding greater_reports
  greater_reports-AreProper c none = nil
  greater_reports-AreProper c (some m) = angle_report-AreProper _ _

  comparison_reports-AreProper :
      (c : CleansedLines) (line : Text) (m : Option Found)
      → AreProper n last (comparison_reports c n line m)
  unfolding comparison_reports
  comparison_reports-AreProper c line none =
      search (proper, less_reports-AreProper, greater_reports-AreProper)
  comparison_reports-AreProper c line (some m) = search (proper, arith)

  shift_reports-AreProper : (m : Option Found) → AreProper n last (shift_reports n m)
  unfolding shift_reports
  shift_reports-AreProper none = nil
  shift_reports-AreProper (some m) = search (proper, arith)

  unary_reports-AreProper : (m : Option Found) → AreProper n last (unary_reports n m)
  unfolding unary_reports
  unary_reports-AreProper none = nil
  unary_reports-AreProper (some m) = search (proper, arith)

  operator_reports-AreProper :
      (c : CleansedLines) (line : Text) → AreProper n last (operator_reports c n line)
  unfolding operator_reports
  operator_reports-AreProper c line = search (
    proper, arith, equals_reports-AreProper, comparison_reports-AreProper, shift_reports-AreProper,
    unary_reports-AreProper,
  )

  operator_reports_of-AreProper :
      (c : CleansedLines) (line : Option Text) (rs : List Report)
      → operator_reports_of c n line ≡ some rs
      → AreProper n last rs
  operator_reports_of-AreProper c none rs e = ground arith
  operator_reports_of-AreProper c (some line) rs e =
      subst (AreProper n last) (some-injective _ _ e) (operator_reports-AreProper c line)

  pub check_operator_spacing-AreProper :
      (c : CleansedLines) (rs : List Report)
      → check_operator_spacing c n ≡ some rs
      → AreProper n last rs
  unfolding check_operator_spacing
  check_operator_spacing-AreProper c rs e = operator_reports_of-AreProper c _ rs e

  keyword_reports-AreProper : (m : Option Found) → AreProper n last (keyword_reports n m)
  unfolding keyword_reports
  keyword_reports-AreProper none = nil
  keyword_reports-AreProper (some m) = search (proper, arith)

  inside_reports-AreProper :
      (line : Text) (m : Option Found) → AreProper n last (inside_reports n line m)
  unfolding inside_reports
  inside_reports-AreProper line none = nil
  inside_reports-AreProper line (some m) = search (proper, arith)

  pub check_parenthesis_spacing-AreProper :
      (c : CleansedLines) → AreProper n last (check_parenthesis_spacing c n)
  unfolding check_parenthesis_spacing
  check_parenthesis_spacing-AreProper c =
      search (proper, keyword_reports-AreProper, inside_reports-AreProper)

  pub check_comma_spacing-AreProper :
      (c : CleansedLines) → AreProper n last (check_comma_spacing c n)
  unfolding check_comma_spacing
  check_comma_spacing-AreProper c = search (proper, arith)

  before_open_reports-AreProper :
      (line fncall : Text) → AreProper n last (before_open_reports n line fncall)
  unfolding before_open_reports
  before_open_reports-AreProper line fncall = search (proper, arith)

  pub check_spacing_for_function_call-AreProper :
      (c : CleansedLines) → AreProper n last (check_spacing_for_function_call c n)
  unfolding check_spacing_for_function_call after_open_reports before_close_reports
  check_spacing_for_function_call-AreProper c =
      search (proper, arith, before_open_reports-AreProper)
