-- ===== src/Report.antt =====
-- `_ShouldPrintError` and `Error` of build_support/cpplint.py, and the calls of a whole run.
pub mod Decision
pub mod Totals
use netier.Base.{
  ℕ, ◌+◌, Bool, true, false, not, Option, none, some, List, [], ◌∷◌, ◌++◌, ltb, if◌then◌else◌, Text,
  txt, starts_with, drop, decimal,
}
use netier.Suppress.{Report, Suppressions, is_error_suppressed_by_nolint}
use netier.LintState.{
  LintState, OutputFormat, emacs, eclipse, vs7, junit, increment_error_count, print_error,
  add_junit_failure,
}

-- One round of the loop over the filters: the new `is_filtered`, or none for an AssertionError.
unfoldable pub filter_step : Text → Text → Bool → Option Bool
filter_step category filt is_filtered =
    if starts_with filt (b'-' ∷ [])
    then some (if starts_with category (drop 1 filt) then true else is_filtered)
    else if starts_with filt (b'+' ∷ [])
    then some (if starts_with category (drop 1 filt) then false else is_filtered)
    else none

unfoldable pub filter_loop : Text → List Text → Bool → Option Bool
filter_loop category [] is_filtered = some is_filtered
filter_loop category (filt ∷ filts) is_filtered = elim (filter_step category filt is_filtered) [
  | none ↦ none
  | some is_filtered' ↦ filter_loop category filts is_filtered'
]

abbrev negated : Option Bool → Option Bool
negated none = none
negated (some b) = some (not b)

unfoldable pub should_print_error : Suppressions → LintState → Text → ℕ → ℕ → Option Bool
should_print_error sup s category confidence linenum =
    if is_error_suppressed_by_nolint sup category linenum
    then some false
    else if ltb confidence s.verbose_level
    then some false
    else negated (filter_loop category s.filters false)

abbrev write_stderr : Text → LintState → LintState
write_stderr message s = record s { stderr = s.stderr ++ message }

-- The message in the output format of the run.
unfoldable pub emit : OutputFormat → Text → Report → LintState → LintState
emit vs7 filename r s =
    print_error
      (filename
        ++ txt "("
        ++ decimal r.linenum
        ++ txt "): error cpplint: ["
        ++ r.category
        ++ txt "] "
        ++ r.message
        ++ txt " ["
        ++ decimal r.confidence
        ++ txt "]\n")
      s
emit eclipse filename r s =
    write_stderr
      (filename
        ++ txt ":"
        ++ decimal r.linenum
        ++ txt ": warning: "
        ++ r.message
        ++ txt "  ["
        ++ r.category
        ++ txt "] ["
        ++ decimal r.confidence
        ++ txt "]\n")
      s
emit junit filename r s =
    add_junit_failure
      (record {
        filename = filename;
        linenum = r.linenum;
        message = r.message;
        category = r.category;
        confidence = r.confidence;
      })
      s
emit emacs filename r s =
    write_stderr
      (filename
        ++ txt ":"
        ++ decimal r.linenum
        ++ txt ":  "
        ++ r.message
        ++ txt "  ["
        ++ r.category
        ++ txt "] ["
        ++ decimal r.confidence
        ++ txt "]\n")
      s

abbrev log_if : Text → Report → LintState → Option Bool → Option LintState
log_if filename r s none = none
log_if filename r s (some false) = some s
log_if filename r s (some true) =
    let counted = increment_error_count r.category s in
    some (emit counted.output_format filename r counted)

-- `Error`; none is an AssertionError
unfoldable pub error : Text → Suppressions → Report → LintState → Option LintState
error filename sup r s =
    log_if filename r s (should_print_error sup s r.category r.confidence r.linenum)

-- The calls of `Error` that one check makes, in order.
unfoldable pub errors : Text → Suppressions → List Report → LintState → Option LintState
errors filename sup [] s = some s
errors filename sup (r ∷ rs) s = elim (error filename sup r s) [
  | none ↦ none
  | some s' ↦ errors filename sup rs s'
]
