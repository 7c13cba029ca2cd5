-- ===== src/LineChecks/AltTokens.antt =====
-- `CheckAltTokens`.
use netier.Base.{ℕ, ◌||◌, List, [], ◌∷◌, ◌++◌, Text, txt, has_text, map, join, if◌then◌else◌}
use netier.Regex.{Found, find_all_re, is_match, group_or_empty}
use netier.Suppress.{Report}
use netier.Cleanse.{CleansedLines}
use netier.LineChecks.Common.{report, line_of}
use netier.LineChecks.CheckMacros.{name_of}

unfoldable pub alt_token_replacement : List (Text × Text)
alt_token_replacement =
    (txt "and", txt "&&")
    ∷ (txt "bitor", txt "|")
    ∷ (txt "or", txt "||")
    ∷ (txt "xor", txt "^")
    ∷ (txt "compl", txt "~")
    ∷ (txt "bitand", txt "&")
    ∷ (txt "and_eq", txt "&=")
    ∷ (txt "or_eq", txt "|=")
    ∷ (txt "xor_eq", txt "^=")
    ∷ (txt "not", txt "!")
    ∷ (txt "not_eq", txt "!=")
    ∷ []

abbrev pub first_of : Text × Text → Text
first_of p = p.0

unfoldable pub alt_token_pattern : Text
alt_token_pattern =
    txt "[ =()](" ++ (join b'|' (map first_of alt_token_replacement) ++ txt ")(?=[ (]|$)")

unfoldable pub alt_token_report : ℕ → Found → Report
alt_token_report linenum m = report linenum (txt "readability/alt_tokens") 2 (
    txt "Use operator "
    ++ (name_of (group_or_empty 1 m) alt_token_replacement
        ++ (txt " instead of " ++ group_or_empty 1 m)))

-- `CheckAltTokens`
unfoldable pub check_alt_tokens : CleansedLines → ℕ → List Report
check_alt_tokens clean_lines linenum =
    let line = line_of clean_lines.elided linenum in
    if is_match (txt "^\\s*#") line || has_text line (txt "/*") || has_text line (txt "*/")
    then []
    else map (alt_token_report linenum) (find_all_re alt_token_pattern line)
