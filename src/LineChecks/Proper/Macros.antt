-- ===== src/LineChecks/Proper/Macros.antt =====
-- The reports of `CheckCheck` and `CheckAltTokens`.
use netier.Base.{ℕ, ◌<◌, ◌≡◌, Option, none, some, List, Text, arith}
use netier.Regex.{Found}
use netier.Suppress.{Report}
use netier.Cleanse.{CleansedLines}
use netier.Expression.Stack.{Location}
use netier.LineChecks.CheckMacros.{
  Operands, no_fuel, returned, operands, operator_reports, operands_reports, closed_macro_reports,
  macro_reports_at, macro_reports, check_check,
}
use netier.LineChecks.AltTokens.{alt_token_report, check_alt_tokens}
use netier.LineChecks.Proper.{
  IsProper, AreProper, proper, nil, map-AreProper, AreProperIf, known_reports, if-AreProperIf,
}

module _ {n last : ℕ} (h : n < last) where
  operator_reports-AreProper :
      (macro lhs operator rhs : Text) → AreProper n last (operator_reports n macro lhs operator rhs)
  unfolding operator_reports
  operator_reports-AreProper macro lhs operator rhs = search (proper, arith)

  operands_reports-AreProper :
      (macro : Text) (o : Operands) → AreProperIf n last (operands_reports n macro o)
  operands_reports-AreProper macro no_fuel = λ qs e. ground arith
  operands_reports-AreProper macro returned = known_reports nil
  operands_reports-AreProper macro (operands lhs none rhs) = known_reports nil
  operands_reports-AreProper macro (operands lhs (some operator) rhs) =
      known_reports (operator_reports-AreProper macro lhs operator rhs)

  closed_macro_reports-AreProper :
      (lines : List Text) (macro : Text) (start : ℕ) (l : Location) (pos : Option ℕ)
      → AreProperIf n last (closed_macro_reports lines n macro start l pos)
  unfolding closed_macro_reports
  closed_macro_reports-AreProper lines macro start l none = known_reports nil
  closed_macro_reports-AreProper lines macro start l (some pos) =
      if-AreProperIf _ (operands_reports-AreProper macro _) (known_reports nil)

  macro_reports_at-AreProper :
      (lines : List Text) (macro : Text) (start : ℕ) (l : Option Location)
      → AreProperIf n last (macro_reports_at lines n macro start l)
  macro_reports_at-AreProper lines macro start none = known_reports nil
  macro_reports_at-AreProper lines macro start (some l) =
      closed_macro_reports-AreProper lines macro start l _

  macro_reports-AreProper :
      (c : CleansedLines) (m : Option (Text × ℕ)) → AreProperIf n last (macro_reports c n m)
  macro_reports-AreProper c none = known_reports nil
  macro_reports-AreProper c (some (macro, start)) = macro_reports_at-AreProper _ macro start _

  pub check_check-AreProper :
      (c : CleansedLines) (rs : List Report) → check_check c n ≡ some rs → AreProper n last rs
  unfolding check_check
  check_check-AreProper c = macro_reports-AreProper c _

  alt_token_report-IsProper : (m : Found) → IsProper n last (alt_token_report n m)
  unfolding alt_token_report
  alt_token_report-IsProper m = search (proper, arith)

  pub check_alt_tokens-AreProper : (c : CleansedLines) → AreProper n last (check_alt_tokens c n)
  unfolding check_alt_tokens
  check_alt_tokens-AreProper c = search (proper, map-AreProper, alt_token_report-IsProper)
