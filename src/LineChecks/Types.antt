-- ===== src/LineChecks/Types.antt =====
-- `_IsType`.
use netier.Base.{
  ℕ, zero, suc, ◌+◌, ◌-◌, Bool, true, false, ◌||◌, Option, none, some, List, [], ◌∷◌, ◌++◌, ltb,
  Text, txt, has_text, is_word, get_or, take, drop, if◌then◌else◌,
}
use netier.Regex.{Found, match_re, is_match, is_found, group_or_empty}
use netier.Cleanse.{CleansedLines}
use netier.Nesting.Blocks.{BlockInfo, BlockClass, namespace_info}

unfoldable pub types : Text
types =
    txt "^(?:"
    ++ (txt "(char(16_t|32_t)?)|wchar_t|"
        ++ (txt "bool|short|int|long|signed|unsigned|float|double|"
            ++ (txt "(ptrdiff_t|size_t|max_align_t|nullptr_t)|"
                ++ (txt "(u?int(_fast|_least)?(8|16|32|64)_t)|"
                    ++ (txt "(u?int(max|ptr)_t)|" ++ txt ")$")))))

-- `re.escape(s)`, in the style that escapes every character outside words
unfoldable pub escape : Text → Text
escape [] = []
escape (c ∷ s) = if is_word c then c ∷ escape s else b'\\' ∷ c ∷ escape s

abbrev pub token_of : Text → Option Found → Text
token_of expr none = expr
token_of expr (some m) = group_or_empty 1 m

unfoldable pub last_token : Text → Text
last_token expr = token_of expr (match_re (txt "^.*(\\b\\S+)$") expr)

-- The loop over `first_line`, which is one less than the second argument: none if it passes
-- the start of the next block
unfoldable pub template_line : ℕ → ℕ → List Text → Option ℕ
template_line next_block_start zero elided = none
template_line next_block_start (suc l) elided =
    if ltb l next_block_start
    then none
    else if has_text (get_or elided l []) (txt "template")
    then some l
    else template_line next_block_start l elided

-- Does a search find the pattern on one of the lines?
unfoldable pub is_found_on : Text → List Text → Bool
is_found_on pattern [] = false
is_found_on pattern (line ∷ lines) = is_found pattern line || is_found_on pattern lines

abbrev pub has_typename : Text → List Text → ℕ → Option ℕ → Bool
has_typename pattern elided last_line none = false
has_typename pattern elided last_line (some first_line) =
    is_found_on pattern (take (last_line + 1 - first_line) (drop first_line elided))

abbrev pub is_namespace : BlockClass → Bool
is_namespace (namespace_info name) = true
is_namespace _ = false

abbrev pub start_of : List BlockInfo → ℕ
start_of [] = 0
start_of (b ∷ below) = b.starting_linenum

-- The loop over the blocks, the innermost first
unfoldable pub walk_up : Text → List Text → List BlockInfo → Bool
walk_up pattern elided [] = false
walk_up pattern elided (b ∷ below) =
    if is_namespace b.block_class
    then false
    else has_typename pattern elided b.starting_linenum
        (template_line (start_of below) (b.starting_linenum + 1) elided)
      || walk_up pattern elided below

unfoldable pub is_type : CleansedLines → List BlockInfo → Text → Bool
is_type clean_lines stack expr =
    let token = last_token expr in
    if is_match types token
    then true
    else walk_up (txt "\\b(?:typename|class|struct)\\s+" ++ (escape token ++ txt "\\b"))
        clean_lines.elided stack
