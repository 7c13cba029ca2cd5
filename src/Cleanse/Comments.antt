-- ===== src/Cleanse/Comments.antt =====
-- Comments over several lines and on one line.
use netier.Base.{
  ℕ, zero, suc, ◌+◌, ◌-◌, Bool, not, ◌&&◌, Option, none, some, is_some, List, [], ◌∷◌, ◌++◌, leb,
  if◌then◌else◌, Text, txt, find, strip, rstrip, starts_with, ends_with, length, take, drop, set,
}
use netier.Suppress.{Report}
use netier.Regex.{replace_all}
use netier.Cleanse.Strings.{is_cpp_string}

-- Does a comment start the line and go on behind its end?
unfoldable pub starts_comment : Text → Bool
starts_comment line =
    starts_with (strip line) (txt "/*") && not (is_some (find (drop 2 (strip line)) (txt "*/")))

unfoldable pub ends_comment : Text → Bool
ends_comment line = ends_with (strip line) (txt "*/")

-- The number of the first line that passes the test, counted from `i` on.
unfoldable pub first_line : (Text → Bool) → ℕ → List Text → Option ℕ
first_line test i [] = none
first_line test i (line ∷ lines) =
    let rest = first_line test (i + 1) lines in if test line then some i else rest

abbrev pub or_length : List Text → Option ℕ → ℕ
or_length lines none = length lines
or_length lines (some i) = i

unfoldable pub find_next_multi_line_comment_start : List Text → ℕ → ℕ
find_next_multi_line_comment_start lines lineix =
    or_length lines (first_line starts_comment lineix (drop lineix lines))

unfoldable pub find_next_multi_line_comment_end : List Text → ℕ → ℕ
find_next_multi_line_comment_end lines lineix =
    or_length lines (first_line ends_comment lineix (drop lineix lines))

-- `'/**/'`
abbrev pub blank_comment : Text
blank_comment = b'/' ∷ b'*' ∷ b'*' ∷ b'/' ∷ []

-- The loop of `RemoveMultiLineCommentsFromRange` over a number of lines
unfoldable pub clear_lines : ℕ → ℕ → List Text → List Text
clear_lines zero i lines = lines
clear_lines (suc n) i lines = clear_lines n (i + 1) (set lines i blank_comment)

unfoldable pub remove_multi_line_comments_from_range : List Text → ℕ → ℕ → List Text
remove_multi_line_comments_from_range lines begin end = clear_lines (end - begin) begin lines

unfoldable pub unclosed_report : ℕ → Report
unclosed_report lineix_begin = record {
  linenum = lineix_begin + 1;
  category = txt "readability/multiline_comment";
  confidence = 5;
  message = txt "Could not find end of multi-line comment";
}

-- How a round of the `while` loop ends, given the result of the later rounds.
unfoldable pub remove_round :
    ℕ → ℕ → ℕ → List Text → List Text × List Report → List Text × List Report
remove_round lineix begin end lines rest =
    if leb (length lines) lineix
    then (lines, [])
    else if leb (length lines) begin
    then (lines, [])
    else if leb (length lines) end
    then (lines, unclosed_report begin ∷ [])
    else rest

-- The `while` loop. Every round moves `lineix` on.
unfoldable pub remove_loop : ℕ → ℕ → List Text → List Text × List Report
remove_loop zero lineix lines = (lines, [])
remove_loop (suc fuel) lineix lines =
    let begin = find_next_multi_line_comment_start lines lineix in
    let end = find_next_multi_line_comment_end lines begin in
    remove_round lineix begin end lines
      (remove_loop fuel (end + 1) (remove_multi_line_comments_from_range lines begin (end + 1)))

-- `RemoveMultiLineComments`
unfoldable pub remove_multi_line_comments : List Text → List Text × List Report
remove_multi_line_comments lines = remove_loop (length lines + 1) 0 lines

-- `_RE_PATTERN_CLEANSE_LINE_C_COMMENTS.sub('', line)`
unfoldable pub without_c_comments : Text → Text
without_c_comments line =
    replace_all
      (txt "(\\s*/\\*(?:[^*]|\\*(?!/))*\\*/\\s*$|"
        ++ txt "/\\*(?:[^*]|\\*(?!/))*\\*/\\s+|"
        ++ txt "\\s+/\\*(?:[^*]|\\*(?!/))*\\*/(?=\\W)|"
        ++ txt "/\\*(?:[^*]|\\*(?!/))*\\*/)")
      [] line

-- The line without a `//` comment that begins outside of a string.
unfoldable pub without_line_comment : Text → Text
without_line_comment line = elim (find line (txt "//")) [
  | none ↦ line
  | some commentpos ↦
      if is_cpp_string (take commentpos line) then line else rstrip (take commentpos line)
]

-- `CleanseComments`
unfoldable pub cleanse_comments : Text → Text
cleanse_comments line = without_c_comments (without_line_comment line)
