-- ===== src/Language/References.antt =====
-- `IsDerivedFunction`, `IsOutOfLineMethodDefinition`, `IsInitializerList`,
-- `CheckForNonConstReference`.
use netier.Base.{
  ℕ, zero, suc, ◌+◌, ◌-◌, min, Bool, true, false, not, ◌&&◌, ◌||◌, Option, none, some, List, [],
  ◌∷◌, ◌++◌, ltb, Text, txt, has_text, lstrip, strip, map, concat_list, length, take, drop,
  if◌then◌else◌,
}
use netier.Regex.{
  Found, match_re, search_re, find_all_re, replace_all, is_match, is_found, group_or_empty,
}
use netier.Suppress.{Report}
use netier.Cleanse.{CleansedLines}
use netier.Expression.Stack.{Location}
use netier.Expression.Forward.{close_expression}
use netier.Expression.Backward.{reverse_close_expression}
use netier.Nesting.Blocks.{BlockClass, class_info, namespace_info}
use netier.LineChecks.Common.{report, when, line_of, rfind}

abbrev pub function_pattern : Text
function_pattern = txt "^([^()]*\\w+)\\("

-- The loop back over at most ten lines for the start of the function: its line, and the match
unfoldable pub function_start : ℕ → ℕ → List Text → Option (ℕ × Found)
function_start zero i elided = none
function_start (suc rounds) i elided = elim (match_re function_pattern (line_of elided i)) [
  | some m ↦ some (i, m)
  | none ↦ function_start rounds (i - 1) elided
]

abbrev pub start_before : CleansedLines → ℕ → Option (ℕ × Found)
start_before clean_lines linenum = function_start (min 10 (linenum + 1)) linenum clean_lines.elided

abbrev pub has_override : Text → Option ℕ → Bool
has_override line none = false
has_override line (some closing_paren) = is_found (txt "\\boverride\\b") (drop closing_paren line)

abbrev pub is_overridden : Option Location → Bool
is_overridden none = false
is_overridden (some l) = has_override l.line l.pos

abbrev pub is_derived_at : CleansedLines → Option (ℕ × Found) → Bool
is_derived_at clean_lines none = false
is_derived_at clean_lines (some (i, m)) =
    is_overridden (close_expression clean_lines i (length (group_or_empty 1 m)))

-- `IsDerivedFunction`
unfoldable pub is_derived_function : CleansedLines → ℕ → Bool
is_derived_function clean_lines linenum =
    is_derived_at clean_lines (start_before clean_lines linenum)

abbrev pub is_out_of_line_at : CleansedLines → Option (ℕ × Found) → Bool
is_out_of_line_at clean_lines none = false
is_out_of_line_at clean_lines (some (i, m)) =
    is_match (txt "^[^()]*\\w+::\\w+\\(") (line_of clean_lines.elided i)

-- `IsOutOfLineMethodDefinition`
unfoldable pub is_out_of_line_method_definition : CleansedLines → ℕ → Bool
is_out_of_line_method_definition clean_lines linenum =
    is_out_of_line_at clean_lines (start_before clean_lines linenum)

-- What a line says of an initializer list, or none where the loop goes on
unfoldable pub initializer_line : Text → Option Bool
initializer_line line =
    if is_found (txt "\\s:\\s*\\w+[({]") line
    then some true
    else if is_found (txt "\\}\\s*,\\s*$") line
    then some true
    else if is_found (txt "[{};]\\s*$") line
    then some false
    else none

-- The loop over the lines in front, where line `i` is the second one behind the first argument
unfoldable pub initializer_loop : ℕ → List Text → Bool
initializer_loop zero elided = false
initializer_loop (suc k) elided = elim (initializer_line (line_of elided (k + 2))) [
  | some b ↦ b
  | none ↦ initializer_loop k elided
]

abbrev pub without_body : Text → Option Found → Text
without_body line none = line
without_body line (some m) = group_or_empty 1 m

-- `IsInitializerList`
unfoldable pub is_initializer_list : List Text → ℕ → Bool
is_initializer_list elided linenum =
    let line = line_of elided linenum in
    ltb 1 linenum
    && elim (initializer_line (without_body line (match_re (txt "^(.*)\\{\\s*$") line))) [
      | some b ↦ b
      | none ↦ initializer_loop (linenum - 2) elided
    ]

-- The end of a type on the line in front
unfoldable pub previous_part : Text → Text → Option Found
previous_part line previous_line =
    if is_match (txt "\\s*::(?:[\\w<>]|::)+\\s*&\\s*\\S") line
    then search_re (txt "\\b((?:const\\s*)?(?:[\\w<>]|::)+[\\w<>])\\s*$") previous_line
    else if is_match (txt "\\s*[a-zA-Z_]([\\w<>]|::)+\\s*&\\s*\\S") line
    then search_re (txt "\\b((?:const\\s*)?(?:[\\w<>]|::)+::)\\s*$") previous_line
    else none

abbrev pub lines_between : List Text → ℕ → ℕ → Text
lines_between elided first last =
    concat_list (map strip (take (last + 1 - first) (drop first elided)))

abbrev pub template_from : List Text → ℕ → Text → ℕ → Option ℕ → Text
template_from elided linenum line startline none = line
template_from elided linenum line startline (some startpos) =
    if ltb startline linenum then lines_between elided startline linenum else line

abbrev pub template_at : List Text → ℕ → Text → Option Location → Text
template_at elided linenum line none = line
template_at elided linenum line (some l) = template_from elided linenum line l.linenum l.pos

-- A template parameter over several lines
abbrev pub template_lines : CleansedLines → ℕ → Text → Option ℕ → Text
template_lines clean_lines linenum line none = line
template_lines clean_lines linenum line (some endpos) =
    template_at clean_lines.elided linenum line
      (reverse_close_expression clean_lines linenum endpos)

abbrev pub joined_with : CleansedLines → ℕ → Text → Option Found → Text
joined_with clean_lines linenum line (some m) = group_or_empty 1 m ++ lstrip line
joined_with clean_lines linenum line none =
    template_lines clean_lines linenum line (rfind line b'>')

-- The line, joined with those that its type begins on
unfoldable pub reference_line : CleansedLines → ℕ → Text
reference_line clean_lines linenum =
    let line = line_of clean_lines.elided linenum in
    if ltb 1 linenum
    then joined_with clean_lines linenum line
        (previous_part line (line_of clean_lines.elided (linenum - 1)))
    else line

-- Not at the top level, within a class, or within a namespace
abbrev pub is_inside_block : Option BlockClass → Bool
is_inside_block none = false
is_inside_block (some (class_info c)) = false
is_inside_block (some (namespace_info name)) = false
is_inside_block (some _) = true

-- The loop back over the lines in front for a constructor's initializer list
unfoldable pub is_in_initializers : ℕ → ℕ → List Text → Bool
is_in_initializers zero i elided = false
is_in_initializers (suc rounds) i elided =
    if not (is_found (txt "[),]\\s*$") (line_of elided i))
    then false
    else is_match (txt "^\\s*:\\s+\\S") (line_of elided i)
      || is_in_initializers rounds (i - 1) elided

abbrev pub whitelisted_functions : Text
whitelisted_functions =
    txt "(?:[sS]wap(?:<\\w:+>)?|"
    ++ (txt "operator\\s*[<>][<>]|" ++ (txt "static_assert|COMPILE_ASSERT" ++ txt ")\\s*\\("))

unfoldable pub is_whitelisted : List Text → ℕ → Text → Bool
is_whitelisted elided linenum line =
    if is_found whitelisted_functions line
    then true
    else not (is_found (txt "\\S+\\([^)]*$") line)
      && ((ltb 0 linenum && is_found whitelisted_functions (line_of elided (linenum - 1)))
          || (ltb 1 linenum && is_found whitelisted_functions (line_of elided (linenum - 2))))

abbrev pub ident_pattern : Text
ident_pattern = txt "[_a-zA-Z]\\w*"

abbrev pub type_pattern : Text
type_pattern =
    txt "(?:const\\s+)?(?:typename\\s+|class\\s+|struct\\s+|union\\s+|enum\\s+)?"
    ++ (txt "(?:\\w|" ++ (txt "\\s*<(?:<(?:<[^<>]*>|[^<>])*>|[^<>])*>|" ++ txt "::)+"))

unfoldable pub ref_param_pattern : Text
ref_param_pattern =
    txt "("
    ++ (type_pattern
        ++ (txt "(?:\\s*(?:\\bconst\\b|[*]))*\\s*"
            ++ (txt "&\\s*" ++ (ident_pattern ++ txt ")\\s*(?:=[^,()]+)?[,)]"))))

unfoldable pub const_ref_param_pattern : Text
const_ref_param_pattern =
    txt "(?:.*\\s*\\bconst\\s*&\\s*"
    ++ (ident_pattern
        ++ (txt "|const\\s+" ++ (type_pattern ++ (txt "\\s*&\\s*" ++ (ident_pattern ++ txt ")")))))

unfoldable pub ref_stream_param_pattern : Text
ref_stream_param_pattern = txt "(?:.*stream\\s*&\\s*" ++ (ident_pattern ++ txt ")")

-- The loop over the parameters
unfoldable pub parameter_reports : ℕ → List Found → List Report
parameter_reports linenum [] = []
parameter_reports linenum (m ∷ ms) =
    let parameter = group_or_empty 1 m in
    when
      (not (is_match const_ref_param_pattern parameter)
        && not (is_match ref_stream_param_pattern parameter))
      (report linenum (txt "runtime/references") 2 (
        txt "Is this a non-const reference? "
        ++ (txt "If so, make const or use a pointer: "
            ++ replace_all (txt " *<") (txt "<") parameter)))
    ++ parameter_reports linenum ms

-- Does the check return before it looks at the parameters?
unfoldable pub is_no_reference : CleansedLines → ℕ → Option BlockClass → Text → Bool
is_no_reference clean_lines linenum previous line =
    let elided = clean_lines.elided in
    not (has_text (line_of elided linenum) (txt "&"))
    || (is_derived_function clean_lines linenum
        || (is_out_of_line_method_definition clean_lines linenum
            || (is_inside_block previous
                || (is_in_initializers (min (linenum - 1) 9) (linenum - 1) elided
                    || (is_found (txt "\\\\\\s*$") line
                        || (is_initializer_list elided linenum
                            || is_whitelisted elided linenum line))))))

-- `CheckForNonConstReference`, where `previous` is the class of `previous_stack_top`
unfoldable pub check_for_non_const_reference : CleansedLines → ℕ → Option BlockClass → List Report
check_for_non_const_reference clean_lines linenum previous =
    let line = reference_line clean_lines linenum in
    if is_no_reference clean_lines linenum previous line
    then []
    else parameter_reports linenum
        (find_all_re ref_param_pattern (replace_all (txt "{[^}]*}") (txt " ") line))
