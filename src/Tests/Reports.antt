-- ===== src/Tests/Reports.antt =====
-- Filters, NOLINT comments and the counters of build_support/cpplint.py at work.
use netier.Base.{some, [], ◌∷◌, ◌≡◌, refl, Text, txt, starts_with, ends_with, elem, ◌||◌, ◌&&◌}
use netier.Categories.{
  default_filters, error_categories, legacy_error_categories, c_suppressed_categories,
  kernel_suppressed_categories,
}
use netier.Regex.{search_re}
use netier.Suppress.{
  Report, no_suppressions, parse_nolint_suppressions, nolint_match, nolint_group, nolint_category,
  unknown_category, is_error_suppressed_by_nolint, process_global_suppressions, is_c_file_line,
  is_kernel_file_line, mem_line, lines_of, add_line,
}
use netier.Suppress.Laws.{covers, suppressed-parse_nolint, any_line, suppressed-process_global}
use netier.LintState.{LintState, initial_state, is_signed, detailed, set_counting_style}
use netier.LintState.Filters.{AllSigned}
use netier.Report.{should_print_error, errors}
use netier.Report.Decision.{is_printed, should_print_error_lem}
use netier.Report.Totals.{Totals, errors-Totals}

-- A test that names this runs the suppressions.
running : Unit {0}
unfolding txt starts_with ends_with elem search_re error_categories legacy_error_categories
    c_suppressed_categories kernel_suppressed_categories parse_nolint_suppressions nolint_match
    nolint_group nolint_category unknown_category is_error_suppressed_by_nolint
    process_global_suppressions is_c_file_line is_kernel_file_line mem_line lines_of add_line
running = tt

abbrev next_line : Text
unfolding txt
next_line = txt "// NOLINTNEXTLINE(runtime/int)"

nolint_next_line :
    parse_nolint_suppressions next_line 7 no_suppressions
    ≡ (record { by_line = (some (txt "runtime/int"), 8 ∷ []) ∷ []; everywhere = [] }, [])
unfolding running
nolint_next_line = refl

nolint_unknown :
    parse_nolint_suppressions (txt "x; // NOLINT(no/such)") 7 no_suppressions
    ≡ (no_suppressions, unknown_category 7 (txt "no/such") ∷ [])
unfolding running
nolint_unknown = refl

suppressed-parse_nolint_example :
    is_error_suppressed_by_nolint
      (parse_nolint_suppressions next_line 7 no_suppressions).0
      (txt "runtime/int")
      8
    ≡ (is_error_suppressed_by_nolint no_suppressions (txt "runtime/int") 8
        || covers (nolint_match next_line) 7 (txt "runtime/int") 8)
suppressed-parse_nolint_example =
    suppressed-parse_nolint next_line 7 no_suppressions (txt "runtime/int") 8

suppressed-process_global_example :
    is_error_suppressed_by_nolint
      (process_global_suppressions (txt "// LINT_C_FILE" ∷ []) no_suppressions)
      (txt "readability/casting")
      3
    ≡ (is_error_suppressed_by_nolint no_suppressions (txt "readability/casting") 3
        || any_line is_c_file_line (txt "// LINT_C_FILE" ∷ [])
          && elem (txt "readability/casting") c_suppressed_categories
        || any_line is_kernel_file_line (txt "// LINT_C_FILE" ∷ [])
          && elem (txt "readability/casting") kernel_suppressed_categories)
suppressed-process_global_example =
    suppressed-process_global (txt "// LINT_C_FILE" ∷ []) no_suppressions
      (txt "readability/casting") 3

abbrev counting_state : LintState
counting_state = set_counting_style detailed initial_state

abbrev tab_report : Report
tab_report = record {
  linenum = 3;
  category = txt "whitespace/tab";
  confidence = 1;
  message = txt "Tab found";
}

abbrev order_report : Report
order_report = record tab_report { category = txt "build/include_alpha" }

default_AllSigned : AllSigned counting_state.filters
unfolding set_counting_style initial_state default_filters is_signed txt starts_with
default_AllSigned = (refl, tt)

should_print_error_lem_example :
    should_print_error no_suppressions counting_state (txt "build/include_alpha") 1 3
    ≡ some (is_printed no_suppressions counting_state order_report)
should_print_error_lem_example =
    should_print_error_lem no_suppressions counting_state order_report default_AllSigned

errors-Totals_example :
    (t : LintState) × (errors
        (txt "a.cc")
        no_suppressions
        (tab_report ∷ order_report ∷ [])
        counting_state
      ≡ some t)
    × Totals no_suppressions counting_state (tab_report ∷ order_report ∷ []) t
errors-Totals_example =
    errors-Totals (txt "a.cc") no_suppressions (tab_report ∷ order_report ∷ []) counting_state
      default_AllSigned
