-- ===== src/LineChecks/Spacing.antt =====
-- `CheckSpacing`.
use netier.Base.{
  ℕ, zero, suc, ◌+◌, ◌-◌, Bool, false, not, ◌&&◌, ◌||◌, Option, none, some, List, [], ◌∷◌, ◌++◌,
  ltb, Text, txt, text_eq, length, get_or, take, drop, has_text, lstrip, if◌then◌else◌,
}
use netier.Regex.{Found, match_re, is_match, is_found, group_or_empty}
use netier.Suppress.{Report}
use netier.Cleanse.{CleansedLines}
use netier.Nesting.Blocks.{BlockInfo}
use netier.Nesting.State.{in_namespace_body, in_extern_c}
use netier.LineChecks.Common.{report, when, line_of, line_before, is_blank_line, is_empty, rfind}
use netier.LineChecks.Comments.{check_comment}

-- The loop over `search_position`, which is one less than the first argument: where it stops
unfoldable pub initializer_start : ℕ → List Text → ℕ
initializer_start zero elided = zero
initializer_start (suc p) elided =
    if is_match (txt " {6}\\w") (get_or elided p []) then initializer_start p elided else suc p

-- `search_position >= 0 and elided[search_position][:5] == '    :'`
abbrev pub opens_initializers : ℕ → List Text → Bool
opens_initializers zero elided = false
opens_initializers (suc p) elided = text_eq (take 5 (get_or elided p [])) (txt "    :")

-- `exception`
unfoldable pub is_exception : List Text → ℕ → Text → Bool
is_exception elided linenum prev_line =
    if is_match (txt " {6}\\w") prev_line
    then opens_initializers (initializer_start (linenum - 1) elided) elided
    else is_match (txt " {4}\\w[^\\(]*\\)\\s*(const\\s*)?(\\{\\s*$|:)") prev_line
      || is_match (txt " {4}:") prev_line

-- `prevbrace != -1 and prev_line[prevbrace:].find('}') == -1`
abbrev pub is_open_at : Text → Option ℕ → Bool
is_open_at prev_line none = false
is_open_at prev_line (some prevbrace) = not (has_text (drop prevbrace prev_line) (txt "}"))

unfoldable pub block_start_reports : List Text → ℕ → Text → List Report
block_start_reports elided linenum prev_line =
    when
      (is_open_at prev_line (rfind prev_line b'{') && not (is_exception elided linenum prev_line))
      (report linenum (txt "whitespace/blank_line") 2
        (txt "Redundant blank line at the start of a code block " ++ txt "should be deleted."))

unfoldable pub block_end_reports : CleansedLines → ℕ → List Report
block_end_reports clean_lines linenum =
    let next_line = line_of clean_lines.lines_without_raw_strings (linenum + 1) in
    when
      (ltb (linenum + 1) clean_lines.num_lines
        && (not (is_empty next_line)
            && (is_match (txt "\\s*}") next_line && not (has_text next_line (txt "} else ")))))
      (report linenum (txt "whitespace/blank_line") 3
        (txt "Redundant blank line at the end of a code block " ++ txt "should be deleted."))

unfoldable pub after_section_reports : ℕ → Option Found → List Report
after_section_reports linenum none = []
after_section_reports linenum (some m) =
    report linenum (txt "whitespace/blank_line") 3
      (txt "Do not leave a blank line after \"" ++ (group_or_empty 1 m ++ txt ":\""))
    ∷ []

-- The branch for a blank line
unfoldable pub blank_line_reports : CleansedLines → ℕ → List Report
blank_line_reports clean_lines linenum =
    let prev_line = line_before clean_lines.elided linenum in
    block_start_reports clean_lines.elided linenum prev_line
    ++ (block_end_reports clean_lines linenum
        ++ after_section_reports linenum
            (match_re (txt "\\s*(public|protected|private):") prev_line))

unfoldable pub next_line_start : CleansedLines → ℕ → ℕ
next_line_start clean_lines linenum =
    let next_line = line_of clean_lines.lines_without_raw_strings (linenum + 1) in
    if ltb (linenum + 1) clean_lines.num_lines
    then length next_line - length (lstrip next_line)
    else 0

unfoldable pub code_reports : ℕ → Text → List Report
code_reports linenum line =
    when
      (is_found (txt "\\w\\s+\\[") line
        && not (is_found (txt "(?:auto&?|delete|return)\\s+\\[") line))
      (report linenum (txt "whitespace/braces") 5 (txt "Extra space before ["))
    ++ when
        (is_found (txt "for *\\(.*[^:]:[^: ]") line || is_found (txt "for *\\(.*[^: ]:[^:]") line)
        (report linenum (txt "whitespace/forcolon") 2
          (txt "Missing space around colon in range-based for loop"))

-- `CheckSpacing`
unfoldable pub check_spacing : CleansedLines → ℕ → List BlockInfo → List Report
check_spacing clean_lines linenum stack =
    let line = line_of clean_lines.lines_without_raw_strings linenum in
    (if is_blank_line line && (not (in_namespace_body stack) && not (in_extern_c stack))
      then blank_line_reports clean_lines linenum
      else [])
    ++ (check_comment line linenum (next_line_start clean_lines linenum)
        ++ code_reports linenum (line_of clean_lines.elided linenum))
