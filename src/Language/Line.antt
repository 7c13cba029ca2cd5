-- ===== src/Language/Line.antt =====
-- `CheckLanguage` for a line that is no include line, and the checks behind it in `ProcessLine`.
use netier.Base.{ℕ, Bool, Option, none, some, List, [], ◌++◌, if◌then◌else◌}
use netier.Suppress.{Report}
use netier.Cleanse.{CleansedLines}
use netier.Nesting.Blocks.{BlockInfo, BlockClass}
use netier.LineChecks.Common.{line_of, is_empty}
use netier.LineChecks.Simple.{check_vlog_arguments, check_posix_threading, check_invalid_increment}
use netier.LineChecks.Constructs.{behind, check_for_non_standard_constructs}
use netier.Language.References.{check_for_non_const_reference}
use netier.Language.Inheritance.{
  check_make_pair_uses_deduction, check_redundant_virtual, check_redundant_override_or_final,
}
use netier.Language.Rules.{and_later, language_reports}

unfoldable pub no_include_reports : Bool → CleansedLines → ℕ → Option (List Report)
no_include_reports is_header clean_lines linenum =
    if is_empty (line_of clean_lines.elided linenum)
    then some []
    else language_reports is_header clean_lines linenum

-- The checks behind `CheckForNonStandardConstructs`
unfoldable pub later_reports : CleansedLines → ℕ → List Report
later_reports clean_lines linenum =
    check_vlog_arguments clean_lines linenum
    ++ (check_posix_threading clean_lines linenum
        ++ (check_invalid_increment clean_lines linenum
            ++ (check_make_pair_uses_deduction clean_lines linenum
                ++ (check_redundant_virtual clean_lines linenum
                    ++ check_redundant_override_or_final clean_lines linenum))))

-- The checks behind `CheckLanguage`
unfoldable pub construct_reports :
    CleansedLines → ℕ → List BlockInfo → Option BlockClass → Option (List Report)
construct_reports clean_lines linenum stack previous =
    behind (check_for_non_const_reference clean_lines linenum previous) (
      and_later (later_reports clean_lines linenum)
        (check_for_non_standard_constructs clean_lines linenum stack))

abbrev pub one_by_one : Option (List Report) → Option (List Report) → Option (List Report)
one_by_one none second = none
one_by_one (some first) second = behind first second

-- What `ProcessLine` reports behind `CheckStyle`, for a line that is no include line
unfoldable pub language_line :
    Bool → CleansedLines → ℕ → List BlockInfo → Option BlockClass → Option (List Report)
language_line is_header clean_lines linenum stack previous =
    one_by_one (no_include_reports is_header clean_lines linenum)
      (construct_reports clean_lines linenum stack previous)
