-- ===== src/LineChecks/Comments.antt =====
-- `CheckComment`.
use netier.Base.{
  ℕ, ◌-◌, ◌%◌, Bool, true, not, ◌&&◌, ◌||◌, Option, none, some, List, [], ◌++◌, ◌==◌, leb, ltb,
  Text, txt, text_eq, within, length, get_or, take, drop, find, count_text, if◌then◌else◌,
}
use netier.Regex.{Found, match_re, is_match, replace_all, group_of, group_or_empty}
use netier.Suppress.{Report}
use netier.LineChecks.Common.{report, when, is_empty}

-- `c in string.whitespace`
abbrev pub is_whitespace : ℕ → Bool
is_whitespace c = c == 32 || within 9 13 c

-- Does something other than white space stand `back` characters before `pos`?
abbrev pub has_code : Text → ℕ → ℕ → Bool
has_code line pos back = leb back pos && not (is_whitespace (get_or line (pos - back) 32))

-- `re.sub(r'\\.', '', line[0:commentpos]).count('"') % 2 == 0`
unfoldable pub is_outside_quotes : Text → ℕ → Bool
is_outside_quotes line pos =
    count_text (replace_all (txt "\\\\.") [] (take pos line)) (txt "\"") % 2 == 0

-- The test of `middle_whitespace`, where a group that has not matched is None
abbrev pub is_run_on : Option Text → Bool
is_run_on none = true
is_run_on (some t) = not (text_eq t (txt " ")) && not (is_empty t)

unfoldable pub todo_reports : ℕ → Option Found → List Report
todo_reports linenum none = []
todo_reports linenum (some m) =
    when (ltb 1 (length (group_or_empty 1 m)))
      (report linenum (txt "whitespace/todo") 2 (txt "Too many spaces before TODO"))
    ++ (when (is_empty (group_or_empty 2 m)) (
          report linenum (txt "readability/todo") 2 (
            txt "Missing username in TODO; it should look like "
            ++ txt "\"// TODO(my_username): Stuff.\""))
        ++ when (is_run_on (group_of 3 m)) (
            report linenum (txt "whitespace/todo") 2
              (txt "TODO(my_username) should be followed by a space")))

unfoldable pub comment_reports : ℕ → Text → ℕ → ℕ → List Report
comment_reports linenum line next_line_start pos =
    let comment = drop pos line in
    when
      (not (is_match (txt "^.*{ *//") line && next_line_start == pos)
        && (has_code line pos 1 || has_code line pos 2))
      (report linenum (txt "whitespace/comments") 2
        (txt "At least two spaces is best between code and comments"))
    ++ (todo_reports linenum (match_re (txt "^//(\\s*)TODO(\\(.+?\\))?:?(\\s|$)?") comment)
        ++ when
            (is_match (txt "//[^ ]*\\w") comment
              && not (is_match (txt "(///|//\\!)(\\s+|$)") comment))
            (report linenum (txt "whitespace/comments") 4
              (txt "Should have a space between // and comment")))

abbrev pub reports_at : ℕ → Text → ℕ → Option ℕ → List Report
reports_at linenum line next_line_start none = []
reports_at linenum line next_line_start (some pos) =
    if is_outside_quotes line pos then comment_reports linenum line next_line_start pos else []

-- `CheckComment`
unfoldable pub check_comment : Text → ℕ → ℕ → List Report
check_comment line linenum next_line_start =
    reports_at linenum line next_line_start (find line (txt "//"))
