-- ===== src/LintState.antt =====
-- `_CppLintState` and the module functions that call its methods, of build_support/cpplint.py.
pub mod Filters
pub mod Counts
use netier.Base.{
  ℕ, ◌+◌, Bool, true, false, not, ◌&&◌, ◌||◌, Option, none, some, List, [], ◌∷◌, ◌++◌, ◌≡◌, ◌==◌,
  ltb, if◌then◌else◌, Text, txt, text_eq, starts_with, split_on, strip, decimal,
}
use netier.Categories.{default_filters}

-- The values of `counting`.
pub data Counting : Type 0 where
  total toplevel detailed : Counting

-- The values of `output_format`.
pub data OutputFormat : Type 0 where
  emacs eclipse vs7 junit : OutputFormat

-- An entry of `_junit_failures`.
pub record JunitFailure : Type 0 where
  pub filename : Text
  pub linenum : ℕ
  pub message : Text
  pub category : Text
  pub confidence : ℕ

-- The attributes, and what has been written to the two standard streams.
pub record LintState : Type 0 where
  pub verbose_level : ℕ
  pub error_count : ℕ
  pub filters : List Text
  pub filters_backup : List Text
  pub counting : Counting
  pub errors_by_category : List (Text × ℕ)
  pub quiet : Bool
  pub output_format : OutputFormat
  pub junit_errors : List Text
  pub junit_failures : List JunitFailure
  pub stdout : Text
  pub stderr : Text

unfoldable pub initial_state : LintState
initial_state = record {
  verbose_level = 1;
  error_count = 0;
  filters = default_filters;
  filters_backup = default_filters;
  counting = total;
  errors_by_category = [];
  quiet = false;
  output_format = emacs;
  junit_errors = [];
  junit_failures = [];
  stdout = [];
  stderr = [];
}

unfoldable pub set_output_format : OutputFormat → LintState → LintState
set_output_format f s = record s { output_format = f }

-- The setters that return the previous value.
unfoldable pub set_quiet : Bool → LintState → LintState × Bool
set_quiet quiet s = (record s { quiet = quiet }, s.quiet)

unfoldable pub set_verbose_level : ℕ → LintState → LintState × ℕ
set_verbose_level level s = (record s { verbose_level = level }, s.verbose_level)

unfoldable pub set_counting_style : Counting → LintState → LintState
set_counting_style style s = record s { counting = style }

-- Does a filter start with + or -?
unfoldable pub is_signed : Text → Bool
is_signed filt = starts_with filt (b'+' ∷ []) || starts_with filt (b'-' ∷ [])

-- The first loop of `AddFilters`: the pieces that are not blank, stripped.
unfoldable pub clean_filters : List Text → List Text
clean_filters [] = []
clean_filters (filt ∷ filts) = elim (strip filt) [
  | [] ↦ clean_filters filts
  | c ∷ clean ↦ (c ∷ clean) ∷ clean_filters filts
]

-- Its second loop: the first filter with no sign, for which ValueError is raised.
unfoldable pub unsigned_filter : List Text → Option Text
unsigned_filter [] = none
unsigned_filter (filt ∷ filts) =
    let rest = unsigned_filter filts in if is_signed filt then rest else some filt

-- How a method ends: normally, or with a ValueError that names a filter.
pub data Ending : Type 0 where
  done : Ending
  value_error : Text → Ending

unfoldable pub ending_of : Option Text → Ending
ending_of none = done
ending_of (some filt) =
    value_error
      (txt "Every filter in --filters must start with + or - (" ++ filt ++ txt " does not)")

-- The filters stay appended when the error is raised.
unfoldable pub add_filters : Text → LintState → LintState × Ending
add_filters filters s =
    let all = s.filters ++ clean_filters (split_on b',' filters) in
    (record s { filters = all }, ending_of (unsigned_filter all))

unfoldable pub set_filters : Text → LintState → LintState × Ending
unfolding add_filters
set_filters filters s = add_filters filters (record s { filters = default_filters })

unfoldable pub backup_filters : LintState → LintState
backup_filters s = record s { filters_backup = s.filters }

unfoldable pub restore_filters : LintState → LintState
restore_filters s = record s { filters = s.filters_backup }

unfoldable pub reset_error_counts : LintState → LintState
reset_error_counts s = record s { error_count = 0; errors_by_category = [] }

-- `d[category] += 1`, from 0 if the category is new
unfoldable pub bump : Text → List (Text × ℕ) → List (Text × ℕ)
bump category [] = (category, 1) ∷ []
bump category ((c, n) ∷ d) = if text_eq category c then (c, n + 1) ∷ d else (c, n) ∷ bump category d

abbrev first_piece : List Text → Text
first_piece [] = []
first_piece (piece ∷ pieces) = piece

unfoldable pub count_in : Counting → Text → List (Text × ℕ) → List (Text × ℕ)
count_in total category d = d
count_in toplevel category d = bump (first_piece (split_on b'/' category)) d
count_in detailed category d = bump category d

unfoldable pub increment_error_count : Text → LintState → LintState
increment_error_count category s = record s {
  error_count = s.error_count + 1;
  errors_by_category = count_in s.counting category s.errors_by_category;
}

abbrev pub is_junit : OutputFormat → Bool
is_junit junit = true
is_junit _ = false

-- `PrintInfo`. The global `_quiet`, which it tests too, is False: no statement sets it.
unfoldable pub print_info : Text → LintState → LintState
print_info message s =
    if not (is_junit s.output_format) then record s { stdout = s.stdout ++ message } else s

unfoldable pub print_error : Text → LintState → LintState
print_error message s =
    if is_junit s.output_format
    then record s { junit_errors = s.junit_errors ++ message ∷ [] }
    else record s { stderr = s.stderr ++ message }

unfoldable pub add_junit_failure : JunitFailure → LintState → LintState
add_junit_failure failure s = record s { junit_failures = s.junit_failures ++ failure ∷ [] }

-- `sorted` on the items of a dict, whose keys differ
unfoldable pub insert_sorted : Text × ℕ → List (Text × ℕ) → List (Text × ℕ)
insert_sorted item [] = item ∷ []
insert_sorted (c, n) ((d, m) ∷ items) =
    if netier.Base.text_gt c d then (d, m) ∷ insert_sorted (c, n) items else (c, n) ∷ (d, m) ∷ items

unfoldable pub sorted_items : List (Text × ℕ) → List (Text × ℕ)
sorted_items [] = []
sorted_items (item ∷ items) = insert_sorted item (sorted_items items)

unfoldable pub print_categories : List (Text × ℕ) → LintState → LintState
print_categories [] s = s
print_categories ((category, count) ∷ items) s = print_categories items (
    print_info (txt "Category '" ++ category ++ txt "' errors found: " ++ decimal count ++ txt "\n")
      s)

unfoldable pub print_error_counts : LintState → LintState
print_error_counts s =
    let s' = print_categories (sorted_items s.errors_by_category) s in
    if ltb 0 s.error_count
    then print_info (txt "Total errors found: " ++ decimal s.error_count ++ txt "\n") s'
    else s'
