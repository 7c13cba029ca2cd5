-- ===== src/Language/Proper/Line.antt =====
-- The reports of all that `ProcessLine` calls behind `CheckStyle`.
use netier.Base.{ℕ, ◌<◌, ◌+◌, ◌≡◌, refl, Bool, Option, none, some, List, [], ◌∷◌, Text, arith}
use netier.Regex.{Found}
use netier.Suppress.{Report}
use netier.Cleanse.{CleansedLines}
use netier.Nesting.Blocks.{BlockInfo, BlockClass}
use netier.LineChecks.Simple.{
  Row, threading_loop, check_posix_threading, check_vlog_arguments, check_invalid_increment,
}
use netier.LineChecks.Constructs.{
  format_reports, declaration_reports, explicit_reports, reports_of_args, match_reports,
  class_reports, check_for_non_standard_constructs,
}
use netier.LineChecks.Proper.{
  AreProper, proper, nil, AreProper-append, AreProperIf, known_reports, if-AreProperIf,
}
use netier.Language.Rules.{and_later, language_reports}
use netier.Language.Line.{
  no_include_reports, later_reports, construct_reports, one_by_one, language_line,
}
use netier.Language.Proper.Rules.{
  check_global_static-AreProper, check_printf-AreProper, rule_reports-AreProper,
}
use netier.Language.Proper.Casts.{behind-AreProperIf, check_casts-AreProperIf}
use netier.Language.Proper.Functions.{
  check_for_non_const_reference-AreProper, check_redundant_virtual-AreProper,
  check_redundant_override_or_final-AreProper, check_make_pair_uses_deduction-AreProper,
}

module _ {n last : ℕ} (h : n < last) where
  and_later-AreProperIf :
      {later : List Report} (first : Option (List Report))
      → AreProper n last later
      → AreProperIf n last first
      → AreProperIf n last (and_later later first)
  and_later-AreProperIf none h h' = λ qs e. ground arith
  and_later-AreProperIf (some rs) h h' = known_reports (AreProper-append (h' rs refl) h)

  language_reports-AreProperIf :
      (is_header : Bool) (c : CleansedLines) → AreProperIf n last (language_reports is_header c n)
  unfolding language_reports
  language_reports-AreProperIf is_header c =
      and_later-AreProperIf _
        (search (
          proper,
          check_global_static-AreProper h c,
          check_printf-AreProper h c,
          rule_reports-AreProper h is_header,
        ))
        (check_casts-AreProperIf h c)

  threading_loop-AreProper :
      (line : Text) (rows : List Row) → AreProper n last (threading_loop n line rows)
  unfolding threading_loop
  threading_loop-AreProper line [] = nil
  threading_loop-AreProper line (row ∷ rows) =
      search (proper, arith, threading_loop-AreProper line rows)

  check_posix_threading-AreProper :
      (c : CleansedLines) → AreProper n last (check_posix_threading c n)
  unfolding check_posix_threading
  check_posix_threading-AreProper c = threading_loop-AreProper _ _

  later_reports-AreProper : (c : CleansedLines) → AreProper n last (later_reports c n)
  unfolding later_reports check_vlog_arguments check_invalid_increment
  later_reports-AreProper c = search (
    proper,
    arith,
    check_posix_threading-AreProper,
    check_make_pair_uses_deduction-AreProper h c,
    check_redundant_virtual-AreProper h c,
    check_redundant_override_or_final-AreProper h c,
  )

  declaration_reports-AreProper : (line : Text) → AreProper n last (declaration_reports n line)
  unfolding declaration_reports
  declaration_reports-AreProper line = search (proper, arith)

  format_reports-AreProper : (line : Text) → AreProper n last (format_reports n line)
  unfolding format_reports
  format_reports-AreProper line = search (proper, arith)

  explicit_reports-AreProper :
      (name : Text) (marked : Bool) (args : List Text)
      → AreProper n last (explicit_reports n name marked args)
  unfolding explicit_reports
  explicit_reports-AreProper name marked args = search (proper, arith)

  reports_of_args-AreProperIf :
      (name : Text) (marked : Bool) (args : Option (List Text))
      → AreProperIf n last (reports_of_args n name marked args)
  reports_of_args-AreProperIf name marked none = λ qs e. ground arith
  reports_of_args-AreProperIf name marked (some args) =
      known_reports (explicit_reports-AreProper name marked args)

  match_reports-AreProperIf :
      (name : Text) (m : Option Found) → AreProperIf n last (match_reports n name m)
  unfolding match_reports
  match_reports-AreProperIf name none = known_reports nil
  match_reports-AreProperIf name (some m) = reports_of_args-AreProperIf name _ _

  class_reports-AreProperIf :
      (line : Text) (b : Option BlockInfo) → AreProperIf n last (class_reports n line b)
  unfolding class_reports
  class_reports-AreProperIf line none = known_reports nil
  class_reports-AreProperIf line (some b) =
      if-AreProperIf _ (known_reports nil) (match_reports-AreProperIf _ _)

  check_for_non_standard_constructs-AreProperIf :
      (c : CleansedLines) (stack : List BlockInfo)
      → AreProperIf n last (check_for_non_standard_constructs c n stack)
  unfolding check_for_non_standard_constructs
  check_for_non_standard_constructs-AreProperIf c stack =
      behind-AreProperIf h _
        (AreProper-append (format_reports-AreProper _) (declaration_reports-AreProper _))
        (class_reports-AreProperIf _ _)

  construct_reports-AreProperIf :
      (c : CleansedLines) (stack : List BlockInfo) (previous : Option BlockClass)
      → AreProperIf n last (construct_reports c n stack previous)
  unfolding construct_reports
  construct_reports-AreProperIf c stack previous =
      behind-AreProperIf h _ (check_for_non_const_reference-AreProper h c previous) (
        and_later-AreProperIf _ (later_reports-AreProper c)
          (check_for_non_standard_constructs-AreProperIf c stack))

  no_include_reports-AreProperIf :
      (is_header : Bool) (c : CleansedLines) → AreProperIf n last (no_include_reports is_header c n)
  unfolding no_include_reports
  no_include_reports-AreProperIf is_header c =
      if-AreProperIf _ (known_reports nil) (language_reports-AreProperIf is_header c)

  one_by_one-AreProperIf :
      (first : Option (List Report)) {second : Option (List Report)}
      → AreProperIf n last first
      → AreProperIf n last second
      → AreProperIf n last (one_by_one first second)
  one_by_one-AreProperIf none h' h'' = λ qs e. ground arith
  one_by_one-AreProperIf (some rs) h' h'' = behind-AreProperIf h _ (h' rs refl) h''

-- Each error that `ProcessLine` reports behind `CheckStyle` for a line that is no include line is
-- for that line, and has a category of `_ERROR_CATEGORIES` and a confidence of at most 5.
pub language_line-AreProper :
    (is_header : Bool) (c : CleansedLines) (n : ℕ) (stack : List BlockInfo)
    (previous : Option BlockClass) (rs : List Report)
    → language_line is_header c n stack previous ≡ some rs
    → AreProper n (n + 1) rs
unfolding language_line
language_line-AreProper is_header c n stack previous =
    one_by_one-AreProperIf (omega arith) _
      (no_include_reports-AreProperIf (omega arith) is_header c)
      (construct_reports-AreProperIf (omega arith) c stack previous)
