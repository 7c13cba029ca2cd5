-- ===== src/Language/Proper/Functions.antt =====
-- The reports on parameters, redundant words and C++11 features.
use netier.Base.{ℕ, ◌<◌, Option, none, some, List, [], ◌∷◌, Text, arith}
use netier.Regex.{Found}
use netier.Cleanse.{CleansedLines}
use netier.Expression.Stack.{Location}
use netier.Nesting.Blocks.{BlockClass}
use netier.LineChecks.Proper.{AreProper, proper, nil}
use netier.Language.References.{parameter_reports, check_for_non_const_reference}
use netier.Language.Inheritance.{
  check_make_pair_uses_deduction, virtual_report, virtual_loop, virtual_from, virtual_behind,
  virtual_reports, check_redundant_virtual, override_reports, check_redundant_override_or_final,
}
use netier.Language.Features.{
  header_reports, name_reports, flag_cxx11_features, cxx14_reports, flag_cxx14_features,
}

module _ {n last : ℕ} (h : n < last) where
  parameter_reports-AreProper : (ms : List Found) → AreProper n last (parameter_reports n ms)
  unfolding parameter_reports
  parameter_reports-AreProper [] = nil
  parameter_reports-AreProper (m ∷ ms) = search (proper, arith, parameter_reports-AreProper ms)

  pub check_for_non_const_reference-AreProper :
      (c : CleansedLines) (previous : Option BlockClass)
      → AreProper n last (check_for_non_const_reference c n previous)
  unfolding check_for_non_const_reference
  check_for_non_const_reference-AreProper c previous = search (proper, parameter_reports-AreProper)

  virtual_report-AreProper : (m : Option Found) → AreProper n last (virtual_report n m)
  unfolding virtual_report
  virtual_report-AreProper none = nil
  virtual_report-AreProper (some m) = search (proper, arith)

  virtual_loop-AreProper :
      (col : ℕ) (lines : List Text) → AreProper n last (virtual_loop n col lines)
  unfolding virtual_loop
  virtual_loop-AreProper col [] = nil
  virtual_loop-AreProper col (line ∷ lines) =
      search (proper, virtual_report-AreProper, virtual_loop-AreProper 0 lines)

  virtual_from-AreProper :
      (c : CleansedLines) (end_line : ℕ) (end_col : Option ℕ)
      → AreProper n last (virtual_from c n end_line end_col)
  virtual_from-AreProper c end_line none = nil
  virtual_from-AreProper c end_line (some end_col) = virtual_loop-AreProper end_col _

  virtual_behind-AreProper :
      (c : CleansedLines) (l : Option Location) → AreProper n last (virtual_behind c n l)
  virtual_behind-AreProper c none = nil
  virtual_behind-AreProper c (some l) = virtual_from-AreProper c _ _

  virtual_reports-AreProper :
      (c : CleansedLines) (line : Text) (m : Option Found)
      → AreProper n last (virtual_reports c n line m)
  unfolding virtual_reports
  virtual_reports-AreProper c line none = nil
  virtual_reports-AreProper c line (some m) = search (proper, virtual_behind-AreProper)

  pub check_redundant_virtual-AreProper :
      (c : CleansedLines) → AreProper n last (check_redundant_virtual c n)
  unfolding check_redundant_virtual
  check_redundant_virtual-AreProper c = virtual_reports-AreProper c _ _

  override_reports-AreProper : (m : Option Text) → AreProper n last (override_reports n m)
  unfolding override_reports
  override_reports-AreProper none = nil
  override_reports-AreProper (some m) = search (proper, arith)

  pub check_redundant_override_or_final-AreProper :
      (c : CleansedLines) → AreProper n last (check_redundant_override_or_final c n)
  unfolding check_redundant_override_or_final
  check_redundant_override_or_final-AreProper c = override_reports-AreProper _

  pub check_make_pair_uses_deduction-AreProper :
      (c : CleansedLines) → AreProper n last (check_make_pair_uses_deduction c n)
  unfolding check_make_pair_uses_deduction
  check_make_pair_uses_deduction-AreProper c = search (proper, arith)

  header_reports-AreProper : (m : Option Found) → AreProper n last (header_reports n m)
  unfolding header_reports
  header_reports-AreProper none = nil
  header_reports-AreProper (some m) = search (proper, arith)

  name_reports-AreProper :
      (line : Text) (names : List Text) → AreProper n last (name_reports n line names)
  unfolding name_reports
  name_reports-AreProper line [] = nil
  name_reports-AreProper line (name ∷ names) =
      search (proper, arith, name_reports-AreProper line names)

  pub flag_cxx11_features-AreProper :
      (c : CleansedLines) → AreProper n last (flag_cxx11_features c n)
  unfolding flag_cxx11_features
  flag_cxx11_features-AreProper c =
      search (proper, header_reports-AreProper, name_reports-AreProper)

  cxx14_reports-AreProper : (m : Option Found) → AreProper n last (cxx14_reports n m)
  unfolding cxx14_reports
  cxx14_reports-AreProper none = nil
  cxx14_reports-AreProper (some m) = search (proper, arith)

  pub flag_cxx14_features-AreProper :
      (c : CleansedLines) → AreProper n last (flag_cxx14_features c n)
  unfolding flag_cxx14_features
  flag_cxx14_features-AreProper c = cxx14_reports-AreProper _
