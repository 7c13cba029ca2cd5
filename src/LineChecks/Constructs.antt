-- ===== src/LineChecks/Constructs.antt =====
-- `CheckForNonStandardConstructs`.
pub mod Arguments
use netier.Base.{
  ℕ, zero, suc, ◌+◌, ◌-◌, Bool, true, false, not, ◌&&◌, ◌||◌, Option, none, some, List, [], ◌∷◌,
  ◌++◌, ◌==◌, leb, ltb, Text, txt, text_eq, replace, strip, has_text, count_text, split_on, length,
  reverse, if◌then◌else◌,
}
use netier.Regex.{Found, match_re, is_match, is_found, group_or_empty}
use netier.Suppress.{Report}
use netier.Cleanse.{CleansedLines}
use netier.Nesting.Blocks.{BlockInfo, BlockClass, class_info, ClassInfo}
use netier.Nesting.State.{innermost_class}
use netier.LineChecks.Common.{report, when, line_of, is_empty}

unfoldable pub format_reports : ℕ → Text → List Report
format_reports linenum line =
    when (is_found (txt "printf\\s*\\(.*\".*%[-+ ]?\\d*q") line) (
      report linenum (txt "runtime/printf_format") 3
        (txt "%q in format strings is deprecated.  Use %ll instead."))
    ++ (when (is_found (txt "printf\\s*\\(.*\".*%\\d+\\$") line) (
          report linenum (txt "runtime/printf_format") 2
            (txt "%N$ formats are unconventional.  Try rewriting to avoid them."))
        ++ when (is_found (txt "(\"|\\').*\\\\(%|\\[|\\(|{)") (replace line (txt "\\\\") [])) (
            report linenum (txt "build/printf_format") 3
              (txt "%, [, (, and { are undefined character escapes.  Unescape them.")))

unfoldable pub declaration_reports : ℕ → Text → List Report
declaration_reports linenum line =
    when
      (is_found
        (txt "\\b(const|volatile|void|char|short|int|long"
          ++ (txt "|float|double|signed|unsigned"
              ++ (txt "|schar|u?int8|u?int16|u?int32|u?int64)"
                  ++ txt "\\s+(register|static|extern|typedef)\\b")))
        line)
      (report linenum (txt "build/storage_class") 5 (
        txt "Storage-class specifier (static, extern, typedef, etc) should be "
        ++ txt "at the beginning of the declaration."))
    ++ (when (is_match (txt "\\s*#\\s*endif\\s*[^/\\s]+") line) (
          report linenum (txt "build/endif_comment") 5
            (txt "Uncommented text after #endif is non-standard.  Use a comment."))
        ++ (when (is_match (txt "\\s*class\\s+(\\w+\\s*::\\s*)+\\w+\\s*;") line) (
              report linenum (txt "build/forward_decl") 5
                (txt "Inner-style forward declarations are invalid.  Remove this line."))
            ++ (when
                  (is_found
                    (txt "(\\w+|[+-]?\\d+(\\.\\d*)?)\\s*(<|>)\\?=?\\s*(\\w+|[+-]?\\d+)(\\.\\d*)?")
                    line)
                  (report linenum (txt "build/deprecated") 3
                    (txt ">? and <? (max and min) operators are non-standard and deprecated."))
                ++ when (is_found (txt "^\\s*const\\s*string\\s*&\\s*\\w+\\s*;") line) (
                    report linenum (txt "runtime/member_string_references") 2 (
                      txt "const string& members are dangerous. It is much better to use "
                      ++ txt "alternatives, such as pointers or simple constants.")))))

-- `name.split('::')[-1]`
unfoldable pub base_name_onto : Text → Text → Text
base_name_onto piece [] = reverse piece
base_name_onto piece (c ∷ []) = reverse (c ∷ piece)
base_name_onto piece (c ∷ d ∷ s) = elim (c == b':' && d == b':') [
  | true ↦ base_name_onto [] s
  | false ↦ base_name_onto (c ∷ piece) (d ∷ s)
]

unfoldable pub base_name : Text → Text
base_name name = base_name_onto [] name

-- Does an argument go on behind a comma?
unfoldable pub is_unbalanced : Text → Bool
is_unbalanced arg =
    ltb (count_text arg (txt ">")) (count_text arg (txt "<"))
    || ltb (count_text arg (txt ")")) (count_text arg (txt "("))

abbrev pub with_first : Text → Option (List Text) → Option (List Text)
with_first arg none = none
with_first arg (some args) = some (arg ∷ args)

-- The loops over `constructor_args`, from the argument `arg` on; none is an IndexError, for an
-- argument that is not balanced at the end of the list.
unfoldable pub collapse_from : Text → List Text → Option (List Text)
collapse_from arg [] = if is_unbalanced arg then none else some (arg ∷ [])
collapse_from arg (next ∷ rest) = elim (is_unbalanced arg) [
  | true ↦ collapse_from (arg ++ (b',' ∷ next)) rest
  | false ↦ with_first arg (collapse_from next rest)
]

unfoldable pub collapse_args : List Text → Option (List Text)
collapse_args [] = some []
collapse_args (arg ∷ args) = collapse_from arg args

unfoldable pub constructor_args : Text → List Text
constructor_args [] = []
constructor_args (c ∷ s) = split_on b',' (c ∷ s)

abbrev pub count_with : Text → List Text → ℕ
count_with part [] = 0
count_with part (arg ∷ args) =
    if has_text arg part then suc (count_with part args) else count_with part args

abbrev pub first_arg : List Text → Text
first_arg [] = []
first_arg (arg ∷ args) = arg

unfoldable pub is_noarg : List Text → Bool
is_noarg args =
    length args == 0 || (length args == 1 && text_eq (strip (first_arg args)) (txt "void"))

unfoldable pub is_onearg : List Text → Bool
is_onearg args =
    (length args == 1 && not (is_noarg args))
    || ((leb 1 (length args)
          && (not (is_noarg args) && leb (length args) (count_with (txt "=") args + 1)))
        || (leb (length args) 2 && leb 1 (count_with (txt "&&...") args)))

unfoldable pub is_initializer_list_constructor : List Text → Bool
is_initializer_list_constructor args =
    is_onearg args && is_found (txt "\\bstd\\s*::\\s*initializer_list\\b") (first_arg args)

-- Class names hold only word characters, which `re.escape` need not escape.
unfoldable pub is_copy_constructor : Text → List Text → Bool
is_copy_constructor name args =
    is_onearg args
    && is_match
        (txt "(const\\s+)?" ++ (name ++ txt "(\\s*<[^>]*>)?(\\s+const)?\\s*(?:<\\w+>\\s*)?&"))
        (strip (first_arg args))

unfoldable pub explicit_reports : ℕ → Text → Bool → List Text → List Report
explicit_reports linenum name is_marked_explicit args =
    if not is_marked_explicit
      && (is_onearg args
          && (not (is_initializer_list_constructor args) && not (is_copy_constructor name args)))
    then (if leb 1 (count_with (txt "=") args) || leb 1 (count_with (txt "&&...") args)
        then report linenum (txt "runtime/explicit") 5
            (txt "Constructors callable with one argument " ++ txt "should be marked explicit.")
          ∷ []
        else report linenum (txt "runtime/explicit") 5
            (txt "Single-parameter constructors should be marked explicit.")
          ∷ [])
    else when (is_marked_explicit && (not (is_onearg args) && is_noarg args)) (
        report linenum (txt "runtime/explicit") 5
          (txt "Zero-parameter constructors should not be marked explicit."))

unfoldable pub explicit_match : Text → Text → Option Found
explicit_match name line =
    match_re
      (txt "\\s+(?:(?:inline|constexpr)\\s+)*(explicit\\s+)?(?:(?:inline|constexpr)\\s+)*"
        ++ (name ++ txt "\\s*\\(((?:[^()]|\\([^()]*\\))*)\\)"))
      line

abbrev pub reports_of_args : ℕ → Text → Bool → Option (List Text) → Option (List Report)
reports_of_args linenum name marked none = none
reports_of_args linenum name marked (some args) = some (explicit_reports linenum name marked args)

unfoldable pub match_reports : ℕ → Text → Option Found → Option (List Report)
match_reports linenum name none = some []
match_reports linenum name (some m) =
    reports_of_args linenum name (not (is_empty (group_or_empty 1 m)))
      (collapse_args (constructor_args (group_or_empty 2 m)))

abbrev pub class_name_of : BlockClass → Text
class_name_of (class_info c) = c.name
class_name_of _ = []

unfoldable pub class_reports : ℕ → Text → Option BlockInfo → Option (List Report)
class_reports linenum line none = some []
class_reports linenum line (some b) =
    let name = base_name (class_name_of b.block_class) in
    if not b.seen_open_brace then some [] else match_reports linenum name (explicit_match name line)

abbrev pub behind : List Report → Option (List Report) → Option (List Report)
behind first none = none
behind first (some rest) = some (first ++ rest)

-- `CheckForNonStandardConstructs`; none is an IndexError
unfoldable pub check_for_non_standard_constructs :
    CleansedLines → ℕ → List BlockInfo → Option (List Report)
check_for_non_standard_constructs clean_lines linenum stack =
    let line = line_of clean_lines.elided linenum in
    behind
      (format_reports linenum (line_of clean_lines.lines linenum)
        ++ declaration_reports linenum line)
      (class_reports linenum line (innermost_class stack))
