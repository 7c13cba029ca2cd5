-- ===== src/Report/Totals.antt =====
-- The counters after a list of errors.
use netier.Base.{
  ℕ, ◌+◌, true, false, ◌&&◌, some, List, [], ◌∷◌, ◌≡◌, ◌≢◌, refl, arith, if◌then◌else◌, Text,
  text_eq, inl, inr, Bool-cases, sym, ◌∙◌, subst,
}
use netier.Suppress.{Report, Suppressions}
use netier.LintState.{
  LintState, OutputFormat, emacs, total, increment_error_count, print_error, add_junit_failure,
  count_in,
}
use netier.LintState.Filters.{AllSigned}
use netier.LintState.Counts.{
  count_for, sum_counts, counted_as, sum_counts-count_in, count_for-count_in,
}
use netier.Report.{emit, errors}
use netier.Report.Decision.{is_printed, logged, error_lem}

-- How many reports are printed.
abbrev pub printed_count : Suppressions → LintState → List Report → ℕ
printed_count sup s [] = 0
printed_count sup s (r ∷ rs) = (if is_printed sup s r then 1 else 0) + printed_count sup s rs

-- How many of them are counted under a key.
abbrev pub printed_under : Text → Suppressions → LintState → List Report → ℕ
printed_under c sup s [] = 0
printed_under c sup s (r ∷ rs) =
    (if is_printed sup s r && text_eq c (counted_as s.counting r.category) then 1 else 0)
    + printed_under c sup s rs

-- Only the counters and the output differ between the states.
pub record SameSettings (s t : LintState) : Type 0 where
  pub level : t.verbose_level ≡ s.verbose_level
  pub filters : t.filters ≡ s.filters
  pub backup : t.filters_backup ≡ s.filters_backup
  pub counting : t.counting ≡ s.counting
  pub format : t.output_format ≡ s.output_format
  pub quiet : t.quiet ≡ s.quiet

emit-same :
    (k : OutputFormat) (filename : Text) (r : Report) (s : LintState)
    → SameSettings s (emit k filename r s)
      × ((emit k filename r s).error_count ≡ s.error_count)
      × ((emit k filename r s).errors_by_category ≡ s.errors_by_category)
unfolding emit print_error add_junit_failure
emit-same emacs filename r s = ground arith
emit-same _ filename r s = ground arith

is_printed-same :
    {s t : LintState} (sup : Suppressions) (r : Report)
    → SameSettings s t
    → is_printed sup t r ≡ is_printed sup s r
is_printed-same sup r h = rw (h.level, h.filters)

printed_count-same :
    {s t : LintState} (sup : Suppressions) (rs : List Report)
    → SameSettings s t
    → printed_count sup t rs ≡ printed_count sup s rs
printed_count-same sup [] h = refl
printed_count-same sup (r ∷ rs) h = rw (is_printed-same sup r h, printed_count-same sup rs h)

printed_under-same :
    {s t : LintState} (c : Text) (sup : Suppressions) (rs : List Report)
    → SameSettings s t
    → printed_under c sup t rs ≡ printed_under c sup s rs
printed_under-same c sup [] h = refl
printed_under-same c sup (r ∷ rs) h =
    rw (is_printed-same sup r h, h.counting, printed_under-same c sup rs h)

-- What a list of reports does to the state.
pub record Totals (sup : Suppressions) (s : LintState) (rs : List Report) (t : LintState)
    : Type 0 where
  pub settings : SameSettings s t
  pub errors_counted : t.error_count ≡ s.error_count + printed_count sup s rs
  pub by_key :
      s.counting ≢ total
      → (c : Text)
      → count_for c t.errors_by_category
        ≡ count_for c s.errors_by_category + printed_under c sup s rs
  pub by_sum :
      s.counting ≢ total
      → sum_counts t.errors_by_category ≡ sum_counts s.errors_by_category + printed_count sup s rs

Totals-nil : (sup : Suppressions) (s : LintState) → Totals sup s [] s
Totals-nil sup s = record {
  settings = record {
    level = refl;
    filters = refl;
    backup = refl;
    counting = refl;
    format = refl;
    quiet = refl;
  };
  errors_counted = omega arith;
  by_key = λ h c. omega arith;
  by_sum = λ h. omega arith;
}

logged-same : (filename : Text) (r : Report) (s : LintState) → SameSettings s (logged filename r s)
unfolding increment_error_count
logged-same filename r s =
    ground (arith, emit-same s.output_format filename r (increment_error_count r.category s))

logged-errors :
    (filename : Text) (r : Report) (s : LintState)
    → ((logged filename r s).error_count ≡ s.error_count + 1)
      × ((logged filename r s).errors_by_category
          ≡ count_in s.counting r.category s.errors_by_category)
unfolding increment_error_count
logged-errors filename r s =
    ground (arith, emit-same s.output_format filename r (increment_error_count r.category s))

Totals-logged :
    (filename : Text) (sup : Suppressions) (r : Report) (s : LintState)
    → is_printed sup s r ≡ true
    → Totals sup s (r ∷ []) (logged filename r s)
Totals-logged filename sup r s p =
    let (n, d) = logged-errors filename r s in
    record {
      settings = logged-same filename r s;
      errors_counted = rw p (omega (arith, n));
      by_key = λ h c.
          rw (p, d, count_for-count_in s.counting c r.category s.errors_by_category h)
            (ground arith);
      by_sum = λ h.
          rw (p, d, sum_counts-count_in s.counting r.category s.errors_by_category h) (omega arith);
    }

Totals-silent :
    (sup : Suppressions) (r : Report) (s : LintState)
    → is_printed sup s r ≡ false
    → Totals sup s (r ∷ []) s
Totals-silent sup r s p = record {
  settings = (Totals-nil sup s).settings;
  errors_counted = rw p (omega arith);
  by_key = λ h c. rw p (omega arith);
  by_sum = λ h. rw p (omega arith);
}

Totals-one :
    (filename : Text) (sup : Suppressions) (r : Report) (s : LintState)
    → Totals sup s (r ∷ []) (if is_printed sup s r then logged filename r s else s)
Totals-one filename sup r s = elim (Bool-cases (is_printed sup s r)) [
  | inl p ↦
      subst (λ b. Totals sup s (r ∷ []) (if b then logged filename r s else s)) (sym p)
        (Totals-logged filename sup r s p)
  | inr p ↦
      subst (λ b. Totals sup s (r ∷ []) (if b then logged filename r s else s)) (sym p)
        (Totals-silent sup r s p)
]

Totals-cons :
    {sup : Suppressions} {s t u : LintState} (r : Report) (rs : List Report)
    → Totals sup s (r ∷ []) t
    → Totals sup t rs u
    → Totals sup s (r ∷ rs) u
Totals-cons {sup} {s} {t} {u} r rs h k =
    let counting = h.settings.counting in
    record {
      settings = record {
        level = k.settings.level ∙ h.settings.level;
        filters = k.settings.filters ∙ h.settings.filters;
        backup = k.settings.backup ∙ h.settings.backup;
        counting = k.settings.counting ∙ counting;
        format = k.settings.format ∙ h.settings.format;
        quiet = k.settings.quiet ∙ h.settings.quiet;
      };
      errors_counted =
          omega (arith, h.errors_counted, k.errors_counted, printed_count-same sup rs h.settings);
      by_key = λ n c. omega (
        arith,
        h.by_key n c,
        k.by_key (λ e. n (sym counting ∙ e)) c,
        printed_under-same c sup rs h.settings,
      );
      by_sum = λ n. omega (
        arith,
        h.by_sum n,
        k.by_sum (λ e. n (sym counting ∙ e)),
        printed_count-same sup rs h.settings,
      );
    }

-- With signed filters a list of reports never ends in an AssertionError. It changes no setting,
-- counts each report that is printed once, and, unless only the total is counted, under the key
-- of its category and nowhere else, so that the sum over the keys grows like the total.
pub errors-Totals :
    (filename : Text) (sup : Suppressions) (rs : List Report) (s : LintState)
    → AllSigned s.filters
    → (t : LintState) × (errors filename sup rs s ≡ some t) × Totals sup s rs t
unfolding errors
errors-Totals filename sup [] s h = (s, refl, Totals-nil sup s)
errors-Totals filename sup (r ∷ rs) s h =
    let one = Totals-one filename sup r s in
    let s' : LintState = if is_printed sup s r then logged filename r s else s in
    let (t, ran, rest) = errors-Totals filename sup rs s' (rw one.settings.filters h) in
    (t, rw (error_lem filename sup r s h, errors) ran, Totals-cons r rs one rest)
