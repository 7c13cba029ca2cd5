-- ===== src/Tests/LineTheorems.antt =====
-- What is proved of the checks of a line, at concrete lines.
use netier.Base.{
  ◌++◌, ◌↔◌, false, ◌+◌, ◌<◌, none, some, List, [], ◌∷◌, ◌≡◌, refl, arith, Text, txt, length, join,
}
use netier.Regex.{match_re}
use netier.Cleanse.{CleansedLines}
use netier.LineChecks.Common.{line_of, report}
use netier.LineChecks.Semicolons.{Event, reported, nolint_before, nolint_at}
use netier.LineChecks.Operators.{hide_operators, operator_pattern}
use netier.LineChecks.Operators.Hiding.{HasNoNewline, Hides, hide_operators_lem}
use netier.LineChecks.Constructs.{collapse_args, constructor_args}
use netier.LineChecks.Constructs.Arguments.{AllClose, collapse_args-join}
use netier.LineChecks.CheckMacros.{check_replacement}
use netier.LineChecks.CheckMacros.Negation.{
  less, operator_of, negated, Negates, check_replacement-negated,
}
use netier.LineChecks.Style.{check_style}
use netier.LineChecks.Style.Ends.{check_style-ends}
use netier.Language.Casts.{check_casts}
use netier.Language.Casts.Raises.{EndsBehindType, check_casts-raises}
use netier.Language.Inside.{get_text_inside}
use netier.Language.Inside.Nested.{Nested}
use netier.Language.Inside.Closes.{get_text_inside_lem}
use netier.Language.Line.{language_line}
use netier.Language.Proper.Line.{language_line-AreProper}
use netier.LineChecks.Proper.{AreProper}
use netier.Suppress.{Report}
use netier.Tests.Running.{running, plain_text, file}
use netier.Tests.LanguageReports.{language_running}

abbrev needless : CleansedLines
unfolding running
needless = file (txt "  if (a) {" ∷ txt "    b();" ∷ txt "  };" ∷ txt "" ∷ [])

abbrev needless_events : List Event
unfolding running
needless_events =
    nolint_before (txt "    b();") (some 2)
    ∷ nolint_at (txt "  };") 3
    ∷ reported (report 3 (txt "readability/braces") 4 (txt "You don't need a ; after a }"))
    ∷ []

needless_newlines : HasNoNewline (line_of needless.elided 1)
unfolding running
needless_newlines = omega arith

check_style-ends_example :
    (es : List Event) × (check_style plain_text 80 none needless 1 [] ≡ some es)
check_style-ends_example = check_style-ends plain_text 80 none needless 1 [] needless_newlines

abbrev comparison : Text
unfolding txt
comparison = txt "bool operator==(int a);"

comparison_newlines : HasNoNewline comparison
unfolding txt
comparison_newlines = omega arith

hide_operators_lem_example :
    (line' : Text) × (hide_operators (length comparison + 1) comparison ≡ some line')
    × Hides comparison line'
    × (match_re operator_pattern line' ≡ none)
hide_operators_lem_example = hide_operators_lem comparison comparison_newlines

abbrev parameters : Text
unfolding txt
parameters = txt "map<int, int> a, int b"

abbrev parameters_apart : List Text
unfolding txt
parameters_apart = txt "map<int, int> a" ∷ txt " int b" ∷ []

parameters_run : collapse_args (constructor_args parameters) ≡ some parameters_apart
unfolding running
parameters_run = refl

collapse_args-join_example : (join b',' parameters_apart ≡ parameters) × AllClose parameters_apart
collapse_args-join_example = collapse_args-join parameters parameters_apart parameters_run

check_replacement-negated_example :
    (check_replacement (txt "EXPECT_FALSE") (operator_of less)
      ≡ check_replacement (txt "EXPECT_TRUE") (operator_of (negated less)))
    × (check_replacement (txt "ASSERT_FALSE") (operator_of less)
        ≡ check_replacement (txt "ASSERT_TRUE") (operator_of (negated less)))
    × Negates (operator_of (negated less)) (operator_of less)
check_replacement-negated_example = check_replacement-negated less

abbrev cast_over_lines : CleansedLines
unfolding running
cast_over_lines = file (txt "  f(&static_cast<T*>" ∷ txt "    (a));" ∷ [])

cast_over_lines_run : check_casts cast_over_lines 1 ≡ none
unfolding running language_running
cast_over_lines_run = refl

cast_over_lines_length : 1 < length cast_over_lines.elided
unfolding running
cast_over_lines_length = omega arith

check_casts-raises_example : EndsBehindType cast_over_lines 1
check_casts-raises_example =
    check_casts-raises cast_over_lines 1 cast_over_lines_length cast_over_lines_run

abbrev sum_of_types : CleansedLines
unfolding running
sum_of_types = file (txt "  long a = int(b);" ∷ [])

abbrev sum_reports : List Report
unfolding txt
sum_reports =
    report 1 (txt "readability/casting") 4
      (txt "Using deprecated casting style.  Use static_cast<int>(...) instead")
    ∷ report 1 (txt "runtime/int") 4 (txt "Use int16/int64/etc, rather than the C type long")
    ∷ []

sum_run : language_line false sum_of_types 1 [] none ≡ some sum_reports
unfolding running language_running
sum_run = refl

language_line-AreProper_example : AreProper 1 2 sum_reports
language_line-AreProper_example =
    language_line-AreProper false sum_of_types 1 [] none sum_reports sum_run

get_text_inside_lem_example :
    (get_text_inside (txt "printf(" ++ txt "a(), b[c(d)]) {") (length (txt "printf("))
      ≡ some (txt "a(), b[c(d)]"))
    ↔ (Nested (txt "a(), b[c(d)]")
        × ((rest : Text) × (txt "a(), b[c(d)]) {" ≡ txt "a(), b[c(d)]" ++ (b')' ∷ rest))))
get_text_inside_lem_example =
    get_text_inside_lem (txt "printf(") (txt "a(), b[c(d)]) {") (txt "a(), b[c(d)]")
