-- ===== src/Tests/Cleansing.antt =====
-- The cleaning of lines in build_support/cpplint.py at concrete lines.
use netier.Base.{
  some, ◌≤◌, ℕ, length, ◌+◌, List, [], ◌∷◌, ◌≡◌, refl, Text, txt, find, strip, starts_with,
  ends_with, replace, count_text, text_eq,
}
use netier.Regex.{match_re, search_re, replace_all}
use netier.Cleanse.{cleansed_lines, without_comments, without_strings}
use netier.Cleanse.Strings.{
  cleanse_raw_strings, raw_lines, raw_line, RawLine, raw_loop, raw_start, raw_match, in_comment,
  same_line_end, collapse_strings, collapse_loop, collapse_at, collapse_quote, collapse_literal,
  quote_match, literal_match, is_number_head, is_double, include_match, without_escapes,
  is_cpp_string,
}
use netier.Cleanse.Comments.{
  remove_multi_line_comments, remove_loop, remove_round, find_next_multi_line_comment_start,
  find_next_multi_line_comment_end, first_line, starts_comment, ends_comment, clear_lines,
  remove_multi_line_comments_from_range, unclosed_report, cleanse_comments, without_c_comments,
  without_line_comment,
}
use netier.Cleanse.Rounds.{IsTakenOut, collapse_loop-ends, raw_loop-ends}
use netier.Cleanse.Copies.{cleansed_lines-length}
use netier.Cleanse.Blocks.{
  Outcome, remove_multi_line_comments-Outcome, Kept, remove_multi_line_comments-Kept,
}

running : Unit {0}
unfolding txt find strip starts_with ends_with replace count_text text_eq match_re search_re
    replace_all cleansed_lines without_comments without_strings cleanse_raw_strings raw_lines
    raw_line raw_loop raw_start raw_match in_comment same_line_end collapse_strings collapse_loop
    collapse_at collapse_quote collapse_literal quote_match literal_match is_number_head is_double
    include_match without_escapes is_cpp_string remove_multi_line_comments remove_loop remove_round
    find_next_multi_line_comment_start find_next_multi_line_comment_end first_line starts_comment
    ends_comment clear_lines remove_multi_line_comments_from_range unclosed_report cleanse_comments
    without_c_comments without_line_comment
running = tt

collapsed :
    (collapse_strings (txt "f(\"a\\\"b\", 'c', 1'000'000);") ≡ txt "f(\"\", '', 1000000);")
    × (collapse_strings (txt "#include \"a.h\"") ≡ txt "#include \"a.h\"")
unfolding running
collapsed = (refl, refl)

raw_strings :
    cleanse_raw_strings
      (txt "a = R\"x(1)x\" + R\"(2" ∷ txt "  // 3" ∷ txt "  4)\"; // 5" ∷ txt "// R\"(6" ∷ [])
    ≡ txt "a = \"\" + \"\"" ∷ txt "\"\"" ∷ txt "  \"\"; // 5" ∷ txt "// R\"(6" ∷ []
unfolding running
raw_strings = refl

comments :
    (cleanse_comments (txt "a = \"//\"; /* b */ c; // d") ≡ txt "a = \"//\"; c; // d")
    × (cleanse_comments (txt "b /* a */ = f( /* c */); // d") ≡ txt "b = f();")
unfolding running
comments = (refl, refl)

abbrev commented : List Text
commented = txt "a" ∷ txt "  /* b" ∷ txt "c */" ∷ txt "/* d */ e" ∷ txt "/* f" ∷ []

blocks : remove_multi_line_comments commented ≡ (
  txt "a" ∷ txt "/**/" ∷ txt "/**/" ∷ txt "/* d */ e" ∷ txt "/* f" ∷ [],
  unclosed_report 4 ∷ [],
)
unfolding running
blocks = refl

remove_multi_line_comments-Outcome_example :
    let r = remove_multi_line_comments commented in Outcome r.0 r.1
remove_multi_line_comments-Outcome_example = remove_multi_line_comments-Outcome commented

remove_multi_line_comments-Kept_example : Kept commented (remove_multi_line_comments commented).0
remove_multi_line_comments-Kept_example = remove_multi_line_comments-Kept commented

abbrev quoted : Text
unfolding txt
quoted = txt "f(\"a\", 'c', 1'000);"

collapse_loop-ends_example :
    (result : Text) × ((fuel : ℕ)
      → length quoted + 1 ≤ fuel
      → collapse_loop fuel [] quoted ≡ some result)
collapse_loop-ends_example = collapse_loop-ends [] quoted

abbrev raw : Text
unfolding txt
raw = txt "x = R\"a(b)a\" + R\"(c)\";"

raw_loop-ends_example :
    (result : RawLine) × ((fuel : ℕ) → length raw + 1 ≤ fuel → raw_loop fuel raw ≡ some result)
    × IsTakenOut result
raw_loop-ends_example = raw_loop-ends raw

abbrev small : List Text
unfolding txt
small = txt "x = R\"(a" ∷ txt "b)\"; // c" ∷ []

cleansed_lines-length_example :
    (length (cleansed_lines small).elided ≡ (cleansed_lines small).num_lines)
    × (length (cleansed_lines small).lines ≡ (cleansed_lines small).num_lines)
    × (length (cleansed_lines small).raw_lines ≡ (cleansed_lines small).num_lines)
    × (length (cleansed_lines small).lines_without_raw_strings ≡ (cleansed_lines small).num_lines)
    × ((cleansed_lines small).num_lines ≡ length small)
cleansed_lines-length_example = cleansed_lines-length small
