-- ===== src/Language/Proper/Rules.antt =====
-- The reports of the rules of `CheckLanguage`, of `CheckGlobalStatic` and of `CheckPrintf`.
use netier.Base.{ℕ, ◌<◌, Bool, Option, none, some, Text, arith}
use netier.Regex.{Found}
use netier.Cleanse.{CleansedLines}
use netier.LineChecks.Proper.{AreProper, proper, nil}
use netier.Language.Statics.{
  string_reports, check_global_static, size_reports, copy_reports, check_printf,
}
use netier.Language.Arrays.{array_reports}
use netier.Language.Rules.{
  type_reports, int_reports, format_report_of, arguments_reports, printf_reports, memset_reports,
  using_reports, rule_reports,
}

module _ {n last : ℕ} (h : n < last) where
  string_reports-AreProper :
      (line : Text) (m : Option Found) → AreProper n last (string_reports n line m)
  unfolding string_reports
  string_reports-AreProper line none = nil
  string_reports-AreProper line (some m) = search (proper, arith)

  pub check_global_static-AreProper :
      (c : CleansedLines) → AreProper n last (check_global_static c n)
  unfolding check_global_static
  check_global_static-AreProper c = search (proper, arith, string_reports-AreProper)

  size_reports-AreProper : (m : Option Found) → AreProper n last (size_reports n m)
  unfolding size_reports
  size_reports-AreProper none = nil
  size_reports-AreProper (some m) = search (proper, arith)

  copy_reports-AreProper : (m : Option Found) → AreProper n last (copy_reports n m)
  unfolding copy_reports
  copy_reports-AreProper none = nil
  copy_reports-AreProper (some m) = search (proper, arith)

  pub check_printf-AreProper : (c : CleansedLines) → AreProper n last (check_printf c n)
  unfolding check_printf
  check_printf-AreProper c = search (proper, arith, size_reports-AreProper, copy_reports-AreProper)

  type_reports-AreProper : (m : Option Found) → AreProper n last (type_reports n m)
  unfolding type_reports
  type_reports-AreProper none = nil
  type_reports-AreProper (some m) = search (proper, arith)

  int_reports-AreProper : (line : Text) → AreProper n last (int_reports n line)
  unfolding int_reports
  int_reports-AreProper line = search (proper, arith, type_reports-AreProper)

  format_report_of-AreProper :
      (name : Text) (m : Option Found) → AreProper n last (format_report_of n name m)
  unfolding format_report_of
  format_report_of-AreProper name none = nil
  format_report_of-AreProper name (some m) = search (proper, arith)

  arguments_reports-AreProper :
      (name : Text) (args : Option Text) → AreProper n last (arguments_reports n name args)
  arguments_reports-AreProper name none = nil
  arguments_reports-AreProper name (some args) = format_report_of-AreProper name _

  printf_reports-AreProper :
      (line : Text) (m : Option Found) → AreProper n last (printf_reports n line m)
  unfolding printf_reports
  printf_reports-AreProper line none = nil
  printf_reports-AreProper line (some m) = arguments_reports-AreProper _ _

  memset_reports-AreProper : (m : Option Found) → AreProper n last (memset_reports n m)
  unfolding memset_reports
  memset_reports-AreProper none = nil
  memset_reports-AreProper (some m) = search (proper, arith)

  using_reports-AreProper : (line : Text) → AreProper n last (using_reports n line)
  unfolding using_reports
  using_reports-AreProper line = search (proper, arith)

  array_reports-AreProper : (m : Option Found) → AreProper n last (array_reports n m)
  unfolding array_reports
  array_reports-AreProper none = nil
  array_reports-AreProper (some m) = search (proper, arith)

  pub rule_reports-AreProper :
      (is_header : Bool) (line : Text) → AreProper n last (rule_reports is_header n line)
  unfolding rule_reports
  rule_reports-AreProper is_header line = search (
    proper, arith, int_reports-AreProper, printf_reports-AreProper, memset_reports-AreProper,
    using_reports-AreProper, array_reports-AreProper,
  )
