-- ===== src/Cleanse/Strings.antt =====
-- Raw strings, and the collapse of strings and characters on a line.
use netier.Base.{
  ℕ, zero, suc, ◌+◌, ◌%◌, Bool, true, false, not, ◌&&◌, Option, none, some, List, [], ◌∷◌, ◌++◌,
  ◌==◌, if◌then◌else◌, Text, txt, find, replace, count_text, length, drop,
}
use netier.Regex.{Found, match_re, is_match, is_found, group_or_empty, replace_all}

-- `IsCppString`. The lowest bit of a difference is that of the sum.
unfoldable pub is_cpp_string : Text → Bool
is_cpp_string line =
    let line' = replace line (txt "\\\\") (txt "XX") in
    (count_text line' (txt "\"") + count_text line' (txt "\\\"") + count_text line' (txt "'\"'"))
      % 2
    == 1

-- A place of a multi-line raw string, by its delimiter, and the line so far.
abbrev pub RawLine : Type 0
RawLine = Option Text × Text

-- Does a `//` comment begin in front of the raw string?
unfoldable pub in_comment : Text → Bool
in_comment head = is_match (txt "^([^'\"]|'(\\\\.|[^'])*'|\"(\\\\.|[^\"])*\")*//") head

unfoldable pub raw_match : Text → Option Found
raw_match line = match_re (txt "^(.*?)\\b(?:R|u8R|uR|UR|LR)\"([^\\s\\\\()]*)\\((.*)$") line

-- The raw string that begins on the line, if one does.
unfoldable pub raw_start : Text → Option Found
raw_start line = elim (raw_match line) [
  | none ↦ none
  | some m ↦ if in_comment (group_or_empty 1 m) then none else some m
]

abbrev pub delimiter_of : Found → Text
delimiter_of m = b')' ∷ (group_or_empty 2 m ++ b'"' ∷ [])

-- The line with the raw string taken out, if the string ends on it.
unfoldable pub same_line_end : Found → Option Text
same_line_end m = elim (find (group_or_empty 3 m) (delimiter_of m)) [
  | none ↦ none
  | some end ↦ some (
      group_or_empty 1 m
      ++ (b'"' ∷ b'"' ∷ drop (end + length (delimiter_of m)) (group_or_empty 3 m)))
]

-- The `while` loop; none is out of rounds.
unfoldable pub raw_loop : ℕ → Text → Option RawLine
raw_loop zero line = none
raw_loop (suc fuel) line = elim (raw_start line) [
  | none ↦ some (none, line)
  | some m ↦ elim (same_line_end m) [
    | some line' ↦ raw_loop fuel line'
    | none ↦ some (some (delimiter_of m), group_or_empty 1 m ++ (b'"' ∷ b'"' ∷ []))
  ]
]

-- The result of the loop, or the line itself out of rounds
abbrev pub raw_result : Text → Option RawLine → RawLine
raw_result line none = (none, line)
raw_result line (some result) = result

abbrev space_of : Option Found → Text
space_of none = []
space_of (some m) = group_or_empty 1 m

-- One line, from the delimiter of the raw string that is open.
unfoldable pub raw_line : Option Text → Text → RawLine
raw_line none line = raw_result line (raw_loop (length line + 1) line)
raw_line (some delimiter) line = elim (find line delimiter) [
  | none ↦ (some delimiter, b'"' ∷ b'"' ∷ [])
  | some end ↦
      let line' =
        space_of (match_re (txt "^(\\s*)\\S") line)
        ++ (b'"' ∷ b'"' ∷ drop (end + length delimiter) line) in
      raw_result line' (raw_loop (length line' + 1) line')
]

unfoldable pub raw_lines : Option Text → List Text → List Text
raw_lines delimiter [] = []
raw_lines delimiter (line ∷ lines) =
    let (delimiter', line') = raw_line delimiter line in line' ∷ raw_lines delimiter' lines

-- `CleanseRawStrings`
unfoldable pub cleanse_raw_strings : List Text → List Text
cleanse_raw_strings lines = raw_lines none lines

-- What a round of the loop of `_CollapseStrings` does: end with the result, or go on with what is
-- collapsed and what is left.
pub data Round : Type 0 where
  finish : Text → Round
  go_on : Text → Text → Round

-- At a double quote, and at a single quote that is no digit separator.
unfoldable pub collapse_quote : ℕ → Text → Text → Text → Text → Round
collapse_quote quote collapsed elided head tail = elim (find tail (quote ∷ [])) [
  | some second ↦ go_on (collapsed ++ (head ++ (quote ∷ quote ∷ []))) (drop (second + 1) tail)
  | none ↦ finish (collapsed ++ elided)
]

unfoldable pub is_number_head : Text → Bool
is_number_head head = is_found (txt "\\b(?:0[bBxX]?|[1-9])[0-9a-fA-F]*$") head

-- At a digit separator
unfoldable pub collapse_literal : Text → Text → Option Found → Round
collapse_literal collapsed head none = finish collapsed
collapse_literal collapsed head (some m) =
    go_on (collapsed ++ (head ++ replace (group_or_empty 1 m) (txt "'") [])) (group_or_empty 2 m)

unfoldable pub literal_match : Text → Option Found
literal_match tail = match_re (txt "^((?:'?[0-9a-zA-Z_])*)(.*)$") (b'\'' ∷ tail)

unfoldable pub quote_match : Text → Option Found
quote_match elided = match_re (txt "^([^'\"]*)(['\"])(.*)$") elided

unfoldable pub is_double : Text → Bool
is_double quote = netier.Base.text_eq quote (b'"' ∷ [])

unfoldable pub collapse_at : Text → Text → Option Found → Round
collapse_at collapsed elided none = finish (collapsed ++ elided)
collapse_at collapsed elided (some m) =
    let head = group_or_empty 1 m in
    let tail = group_or_empty 3 m in
    if is_double (group_or_empty 2 m)
    then collapse_quote b'"' collapsed elided head tail
    else if is_number_head head
    then collapse_literal collapsed head (literal_match tail)
    else collapse_quote b'\'' collapsed elided head tail

-- The loop; none is out of rounds.
unfoldable pub collapse_loop : ℕ → Text → Text → Option Text
collapse_loop zero collapsed elided = none
collapse_loop (suc fuel) collapsed elided =
    elim (collapse_at collapsed elided (quote_match elided)) [
      | finish result ↦ some result
      | go_on collapsed' elided' ↦ collapse_loop fuel collapsed' elided'
    ]

-- The result of the loop, or the line itself out of rounds
abbrev pub collapse_result : Text → Option Text → Text
collapse_result elided none = elided
collapse_result elided (some result) = result

-- `_RE_PATTERN_INCLUDE`
unfoldable pub include_match : Text → Option Found
include_match line = match_re (txt "^\\s*#\\s*include\\s*([<\"])([^>\"]*)[>\"].*$") line

-- `_RE_PATTERN_CLEANSE_LINE_ESCAPES.sub('', elided)`
unfoldable pub without_escapes : Text → Text
without_escapes line = replace_all (txt "\\\\([abfnrtv?\"\\\\']|\\d+|x[0-9a-fA-F]+)") [] line

-- `_CollapseStrings`
unfoldable pub collapse_strings : Text → Text
collapse_strings elided = elim (include_match elided) [
  | some m ↦ elided
  | none ↦
      let elided' = without_escapes elided in
      collapse_result elided' (collapse_loop (length elided' + 1) [] elided')
]
