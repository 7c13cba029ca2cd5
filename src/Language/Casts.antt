-- ===== src/Language/Casts.antt =====
-- `ExpectingFunctionArgs`, `CheckCStyleCast`, `CheckCasts`.
pub mod Raises
use netier.Base.{
  ℕ, ◌+◌, ◌-◌, Bool, true, false, not, ◌&&◌, ◌||◌, Option, none, some, List, [], ◌∷◌, ◌++◌, ◌==◌,
  leb, ltb, is_some, Text, txt, starts_with, ends_with, length, take, drop, get_elem?, concat_list,
  if◌then◌else◌,
}
use netier.Regex.{Found, match_re, search_re, is_match, is_found, group_of, group_or_empty}
use netier.Suppress.{Report}
use netier.Cleanse.{CleansedLines}
use netier.Expression.Stack.{Location}
use netier.Expression.Forward.{close_expression}
use netier.LineChecks.Common.{report, when, line_of, is_empty}
use netier.LineChecks.Constructs.{behind}

-- `ExpectingFunctionArgs`
unfoldable pub expecting_function_args : CleansedLines → ℕ → Bool
expecting_function_args clean_lines linenum =
    let elided = clean_lines.elided in
    is_match (txt "^\\s*MOCK_(CONST_)?METHOD\\d+(_T)?\\(") (line_of elided linenum)
    || leb 2 linenum
      && (is_match (txt "^\\s*MOCK_(?:CONST_)?METHOD\\d+(?:_T)?\\((?:\\S+,)?\\s*$")
            (line_of elided (linenum - 1))
          || (is_match (txt "^\\s*MOCK_(?:CONST_)?METHOD\\d+(?:_T)?\\(\\s*$")
                (line_of elided (linenum - 2))
              || is_found (txt "\\bstd::m?function\\s*\\<\\s*$") (line_of elided (linenum - 1))))

-- The context, with up to four lines in front of it
unfoldable pub wide_context : List Text → ℕ → Text → Text
wide_context elided linenum context =
    let first = linenum - 5 in
    concat_list (take (linenum - 1 - first) (drop (first + 1) elided)) ++ context

unfoldable pub is_no_cast : List Text → ℕ → Text → Text → Bool
is_no_cast elided linenum context remainder =
    let wide = wide_context elided linenum context in
    is_match (txt ".*\\b(?:sizeof|alignof|alignas|[_A-Z][_A-Z0-9]*)\\s*$") context
    || (is_match (txt ".*\\b[_A-Z][_A-Z0-9]*\\s*\\((?:\\([^()]*\\)|[^()])*$") wide
        || (ends_with wide (txt " operator++")
            || (ends_with wide (txt " operator--")
                || is_match (txt "^\\s*(?:;|const\\b|throw\\b|final\\b|override\\b|[=>{),]|->)")
                    remainder)))

-- Every pattern begins with the parenthesis in front of its group, so `start(1) - 1` is the start
-- of the match.
unfoldable pub cast_reports : List Text → ℕ → Text → Text → Option Found → List Report
cast_reports elided linenum cast_type line none = []
cast_reports elided linenum cast_type line (some m) =
    when (not (is_no_cast elided linenum (take m.start line) (drop m.stop line))) (
      report linenum (txt "readability/casting") 4 (
        txt "Using C-style cast.  Use "
        ++ (cast_type ++ (txt "<" ++ (group_or_empty 1 m ++ txt ">(...) instead")))))

-- `CheckCStyleCast`, which returns true when it makes a report
unfoldable pub check_c_style_cast : CleansedLines → ℕ → Text → Text → List Report
check_c_style_cast clean_lines linenum cast_type pattern =
    let line = line_of clean_lines.elided linenum in
    cast_reports clean_lines.elided linenum cast_type line (search_re pattern line)

abbrev pub or_else_reports : List Report → List Report → List Report
or_else_reports [] other = other
or_else_reports (r ∷ rs) other = r ∷ rs

unfoldable pub c_style_reports : CleansedLines → ℕ → List Report
c_style_reports clean_lines linenum =
    (if expecting_function_args clean_lines linenum
      then []
      else check_c_style_cast clean_lines linenum (txt "static_cast")
          (txt "\\((int|float|double|bool|char|u?int(16|32|64))\\)"))
    ++ or_else_reports
        (check_c_style_cast clean_lines linenum (txt "const_cast")
          (txt "\\((char\\s?\\*+\\s?)\\)\\s*\""))
        (check_c_style_cast clean_lines linenum (txt "reinterpret_cast")
          (txt "\\((\\w+\\s?\\*+\\s?)\\)"))

abbrev pub is_function_pointer : Text → Bool
is_function_pointer s =
    not (is_empty s)
    && (is_match (txt "\\((?:[^() ]+::\\s*\\*\\s*)?[^() ]+\\)\\s*\\(") s
        || starts_with s (txt "(*)"))

-- A cast that is written as a conversion function
unfoldable pub conversion_reports : ℕ → Text → Found → List Report
conversion_reports linenum line m =
    let matched_type = group_or_empty 2 m in
    when
      (not (is_some (group_of 1 m))
        && (not (is_function_pointer (group_or_empty 3 m))
            && (not (is_match (txt "\\s*using\\s+\\S+\\s*=\\s*" ++ matched_type) line)
                && not (is_found (txt "new\\(\\S+\\)\\s*" ++ matched_type) line))))
      (report linenum (txt "readability/casting") 4 (
        txt "Using deprecated casting style.  "
        ++ (txt "Use static_cast<" ++ (matched_type ++ txt ">(...) instead"))))

-- The rest of the expression behind a cast, and the next line
abbrev pub behind_cast : CleansedLines → ℕ → Text → Option ℕ → Bool
behind_cast clean_lines y2 line none = false
behind_cast clean_lines y2 line (some x2) = is_match (txt "\\s*(?:->|\\[)") (
    drop x2 (line_of clean_lines.elided y2)
    ++ (if ltb (y2 + 1) clean_lines.num_lines then line_of clean_lines.elided (y2 + 1) else []))

abbrev pub is_dereferenced : CleansedLines → Option Location → Bool
is_dereferenced clean_lines none = false
is_dereferenced clean_lines (some l) = behind_cast clean_lines l.linenum l.line l.pos

-- `elided[y1][x1] == '('` and what follows; none is an IndexError
unfoldable pub dereference_at : CleansedLines → ℕ → Option ℕ → Option Bool
dereference_at clean_lines y1 none = some false
dereference_at clean_lines y1 (some x1) = elim (get_elem? (line_of clean_lines.elided y1) x1) [
  | none ↦ none
  | some char ↦ some (
      if char == b'('
      then is_dereferenced clean_lines (close_expression clean_lines y1 x1)
      else false)
]

abbrev pub dereference_of : CleansedLines → Option Location → Option Bool
dereference_of clean_lines none = none
dereference_of clean_lines (some l) = dereference_at clean_lines l.linenum l.pos

-- `parenthesis_error`
unfoldable pub is_parenthesis_error : CleansedLines → ℕ → Option Found → Option Bool
is_parenthesis_error clean_lines linenum none = some false
is_parenthesis_error clean_lines linenum (some m) =
    dereference_of clean_lines (close_expression clean_lines linenum (length (group_or_empty 1 m)))

abbrev pub address_report : ℕ → Option Bool → Option (List Report)
address_report linenum none = none
address_report linenum (some true) = some (
    report linenum (txt "readability/casting") 4 (
      txt "Are you taking an address of something dereferenced "
      ++ (txt "from a cast?  Wrapping the dereferenced expression in "
          ++ txt "parentheses will make the binding more obvious"))
    ∷ [])
address_report linenum (some false) = some (
    report linenum (txt "runtime/casting") 4 (
      txt "Are you taking an address of a cast?  "
      ++ (txt "This is dangerous: could be a temp var.  "
          ++ txt "Take the address before doing the cast, rather than after"))
    ∷ [])

abbrev pub bound_pattern : Text
bound_pattern = txt "^(.*&(?:static|dynamic|down|reinterpret)_cast\\b)<"

unfoldable pub address_reports : CleansedLines → ℕ → Option (List Report)
address_reports clean_lines linenum =
    let line = line_of clean_lines.elided linenum in
    if is_found
      (txt "(?:[^\\w]&\\(([^)*][^)]*)\\)[\\w(])|"
        ++ txt "(?:[^\\w]&(static|dynamic|down|reinterpret)_cast\\b)")
      line
    then address_report linenum
        (is_parenthesis_error clean_lines linenum (match_re bound_pattern line))
    else some []

-- Behind the first search
unfoldable pub casts_of : CleansedLines → ℕ → Text → Option Found → Option (List Report)
casts_of clean_lines linenum line none =
    behind (c_style_reports clean_lines linenum) (address_reports clean_lines linenum)
casts_of clean_lines linenum line (some m) =
    if expecting_function_args clean_lines linenum
    then behind (c_style_reports clean_lines linenum) (address_reports clean_lines linenum)
    else if is_match (txt "\\([^()]+\\)\\s*\\[") (group_or_empty 3 m)
    then some []
    else behind (conversion_reports linenum line m ++ c_style_reports clean_lines linenum)
        (address_reports clean_lines linenum)

-- `CheckCasts`; none is an IndexError
unfoldable pub check_casts : CleansedLines → ℕ → Option (List Report)
check_casts clean_lines linenum =
    let line = line_of clean_lines.elided linenum in
    casts_of clean_lines linenum line (
      search_re
        (txt "(\\bnew\\s+(?:const\\s+)?|\\S<\\s*(?:const\\s+)?)?\\b"
          ++ (txt "(int|float|double|bool|char|int32|uint32|int64|uint64)" ++ txt "(\\([^)].*)"))
        line)
