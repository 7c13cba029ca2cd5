-- ===== src/Suppress/Laws.antt =====
-- What NOLINT comments do to the set of suppressed errors.
use netier.Base.{
  ℕ, ◌+◌, Bool, true, false, ◌&&◌, ◌||◌, Option, none, some, List, [], ◌∷◌, ◌++◌, ◌==◌, ◌≡◌, ◌↔◌,
  arith, if◌then◌else◌, Text, txt, text_eq, text_eq_iff, starts_with, ends_with, elem, elem-append,
  is_some,
}
use netier.Categories.{error_categories, c_suppressed_categories, kernel_suppressed_categories}
use netier.Regex.{Found, group_of}
use netier.Suppress.{
  Key, key_eq, Suppressions, mem_line, lines_of, add_line, inner, nolint_category, nolint_group,
  nolint_match, apply_nolint, suppress_everywhere, parse_nolint_suppressions, is_c_file_line,
  is_kernel_file_line, process_global_suppressions, is_error_suppressed_by_nolint,
}

key_eq_iff : (j k : Key) → (key_eq j k ≡ true) ↔ (j ≡ k)
unfolding key_eq
key_eq_iff none none = ground arith
key_eq_iff (some a) (some b) = ground (arith, text_eq_iff a b)
key_eq_iff _ _ = ground arith

mem_line-add_line :
    (l : ℕ) (j k : Key) (n : ℕ) (d : List (Key × List ℕ))
    → mem_line l (lines_of j (add_line k n d)) ≡ (mem_line l (lines_of j d) || key_eq j k && l == n)
unfolding mem_line lines_of add_line
mem_line-add_line l j k n [] = ground arith
mem_line-add_line l j k n ((i, ls) ∷ d) =
    ground (arith, mem_line-add_line l j k n d, key_eq_iff j k, key_eq_iff k i, key_eq_iff j i)

-- Does a NOLINT comment with this second group name the category?
abbrev pub names_category : Option Text → Text → Bool
names_category none c = true
names_category (some g) c =
    text_eq g (txt "(*)")
    || starts_with g (txt "(")
      && ends_with g (txt ")")
      && elem (inner g) error_categories
      && text_eq c (inner g)

-- Does the NOLINT comment of a line, if it has one, cover an error?
abbrev pub covers : Option Found → ℕ → Text → ℕ → Bool
covers none linenum c l = false
covers (some m) linenum c l =
    l == (if is_some (group_of 1 m) then linenum + 1 else linenum)
    && names_category (group_of 2 m) c

nolint_group-suppressed :
    (g : Option Text) (line linenum : ℕ) (s : Suppressions) (c : Text) (l : ℕ)
    → is_error_suppressed_by_nolint (nolint_group g line linenum s).0 c l
      ≡ (is_error_suppressed_by_nolint s c l || l == line && names_category g c)
unfolding is_error_suppressed_by_nolint nolint_group nolint_category key_eq
nolint_group-suppressed none line linenum s c l = ground (
  arith,
  mem_line-add_line l (some c) none line s.by_line,
  mem_line-add_line l none none line s.by_line,
)
nolint_group-suppressed (some g) line linenum s c l = ground (
  arith,
  mem_line-add_line l (some c) none line s.by_line,
  mem_line-add_line l none none line s.by_line,
  mem_line-add_line l (some c) (some (inner g)) line s.by_line,
  mem_line-add_line l none (some (inner g)) line s.by_line,
)

apply_nolint-suppressed :
    (m : Option Found) (linenum : ℕ) (s : Suppressions) (c : Text) (l : ℕ)
    → is_error_suppressed_by_nolint (apply_nolint m linenum s).0 c l
      ≡ (is_error_suppressed_by_nolint s c l || covers m linenum c l)
unfolding apply_nolint
apply_nolint-suppressed none linenum s c l = ground arith
apply_nolint-suppressed (some m) linenum s c l =
    nolint_group-suppressed (group_of 2 m) _ linenum s c l

-- After the comment of a line has been read, an error is suppressed exactly when it was before
-- or when the comment covers it: on its own line, or the next for NOLINTNEXTLINE, for every
-- category or for the known one that it names.
pub suppressed-parse_nolint :
    (raw_line : Text) (linenum : ℕ) (s : Suppressions) (c : Text) (l : ℕ)
    → is_error_suppressed_by_nolint (parse_nolint_suppressions raw_line linenum s).0 c l
      ≡ (is_error_suppressed_by_nolint s c l || covers (nolint_match raw_line) linenum c l)
unfolding parse_nolint_suppressions
suppressed-parse_nolint raw_line linenum s c l =
    apply_nolint-suppressed (nolint_match raw_line) linenum s c l

abbrev pub any_line : (Text → Bool) → List Text → Bool
any_line p [] = false
any_line p (line ∷ lines) = p line || any_line p lines

-- A file is checked without the categories of C files if any line marks it as C, without those of
-- kernel files if any line marks it as kernel code, and nothing else changes.
pub suppressed-process_global :
    (lines : List Text) (s : Suppressions) (c : Text) (l : ℕ)
    → is_error_suppressed_by_nolint (process_global_suppressions lines s) c l ≡ (
        is_error_suppressed_by_nolint s c l
        || any_line is_c_file_line lines && elem c c_suppressed_categories
        || any_line is_kernel_file_line lines && elem c kernel_suppressed_categories)
unfolding process_global_suppressions is_error_suppressed_by_nolint
suppressed-process_global [] s c l = ground arith
suppressed-process_global (line ∷ lines) s c l = ground (
  arith,
  suppressed-process_global lines
      (suppress_everywhere (is_kernel_file_line line) kernel_suppressed_categories
        (suppress_everywhere (is_c_file_line line) c_suppressed_categories s))
      c l,
  elem-append c c_suppressed_categories s.everywhere,
  elem-append c kernel_suppressed_categories s.everywhere,
  elem-append c kernel_suppressed_categories (c_suppressed_categories ++ s.everywhere),
)
