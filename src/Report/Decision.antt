-- ===== src/Report/Decision.antt =====
-- When an error is printed.
use netier.Base.{
  Bool, true, false, not, ◌&&◌, Option, none, some, List, [], ◌∷◌, ◌≡◌, refl, arith, if◌then◌else◌,
  Text, starts_with, drop, leb, Bool-cases, inl, inr,
}
use netier.Suppress.{Report, Suppressions, is_error_suppressed_by_nolint}
use netier.LintState.{LintState, is_signed, increment_error_count}
use netier.LintState.Filters.{AllSigned}
use netier.Report.{filter_step, filter_loop, should_print_error, emit, error}

-- What the filters say of a category: the sign of the last one whose text begins it, `true` for -.
abbrev pub verdict : Text → List Text → Option Bool
verdict category [] = none
verdict category (filt ∷ filts) = elim (verdict category filts) [
  | some sign ↦ some sign
  | none ↦ if starts_with category (drop 1 filt) then some (starts_with filt (b'-' ∷ [])) else none
]

abbrev or_else : Option Bool → Bool → Bool
or_else none b = b
or_else (some a) b = a

filter_loop-verdict :
    (category : Text) (filts : List Text) (acc : Bool)
    → AllSigned filts
    → filter_loop category filts acc ≡ some (or_else (verdict category filts) acc)
unfolding filter_loop filter_step is_signed
filter_loop-verdict category [] acc h = refl
filter_loop-verdict category (filt ∷ filts) acc h = ground (
  arith,
  filter_loop-verdict category filts true h.1,
  filter_loop-verdict category filts false h.1,
  filter_loop-verdict category filts acc h.1,
)

-- Is a report to be printed?
abbrev pub is_printed : Suppressions → LintState → Report → Bool
is_printed sup s r =
    not (is_error_suppressed_by_nolint sup r.category r.linenum)
    && leb s.verbose_level r.confidence
    && not (or_else (verdict r.category s.filters) false)

-- With signed filters an error is printed exactly when no comment suppresses it, its confidence
-- reaches the verbosity level, and the last filter that begins its category, if any, is not a -.
-- No AssertionError is raised.
pub should_print_error_lem :
    (sup : Suppressions) (s : LintState) (r : Report)
    → AllSigned s.filters
    → should_print_error sup s r.category r.confidence r.linenum ≡ some (is_printed sup s r)
unfolding should_print_error
should_print_error_lem sup s r h = ground (arith, filter_loop-verdict r.category s.filters false h)

-- What the state is after a report that is printed.
abbrev pub logged : Text → Report → LintState → LintState
logged filename r s =
    let counted = increment_error_count r.category s in
    emit counted.output_format filename r counted

pub error_lem :
    (filename : Text) (sup : Suppressions) (r : Report) (s : LintState)
    → AllSigned s.filters
    → error filename sup r s ≡ some (if is_printed sup s r then logged filename r s else s)
unfolding error
error_lem filename sup r s h = elim (Bool-cases (is_printed sup s r)) [
  | inl yes' ↦ rw (should_print_error_lem sup s r h, yes')
  | inr no' ↦ rw (should_print_error_lem sup s r h, no')
]
