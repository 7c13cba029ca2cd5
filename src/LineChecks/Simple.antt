-- ===== src/LineChecks/Simple.antt =====
-- `CheckForMultilineCommentsAndStrings`, `CheckPosixThreading`, `CheckVlogArguments`,
-- `CheckInvalidIncrement`, `IsMacroDefinition`, `IsForwardClassDeclaration`.
use netier.Base.{
  ℕ, ◌+◌, ◌-◌, ◌%◌, Bool, ◌&&◌, ◌||◌, List, [], ◌∷◌, ◌++◌, ◌==◌, ltb, Text, txt, replace,
  count_text,
}
use netier.Regex.{is_match, is_found}
use netier.Suppress.{Report}
use netier.Cleanse.{CleansedLines}
use netier.LineChecks.Common.{report, when, line_of}

-- The lowest bit of a difference is that of the sum.
unfoldable pub check_for_multiline_comments_and_strings : CleansedLines → ℕ → List Report
check_for_multiline_comments_and_strings clean_lines linenum =
    let line = replace (line_of clean_lines.elided linenum) (txt "\\\\") [] in
    when (ltb (count_text line (txt "*/")) (count_text line (txt "/*"))) (
      report linenum (txt "readability/multiline_comment") 5 (
        txt "Complex multi-line /*...*/-style comment found. "
        ++ txt "Lint may give bogus warnings.  "
        ++ txt "Consider replacing these with //-style comments, "
        ++ txt "with #if 0...#endif, "
        ++ txt "or with more clearly structured multi-line comments."))
    ++ when ((count_text line (txt "\"") + count_text line (txt "\\\"")) % 2 == 1) (
        report linenum (txt "readability/multiline_string") 5 (
          txt "Multi-line string (\"...\") found.  This lint script doesn't "
          ++ txt "do well with such strings, and may give bogus warnings.  "
          ++ txt "Use C++11 raw strings or concatenation instead."))

-- A row of `_THREADING_LIST`: both functions, and the pattern behind `_UNSAFE_FUNC_PREFIX`
abbrev pub Row : Type 0
Row = Text × Text × Text

unfoldable pub threading_list : List Row
threading_list =
    (txt "asctime(", txt "asctime_r(", txt "asctime\\([^)]+\\)")
    ∷ (txt "ctime(", txt "ctime_r(", txt "ctime\\([^)]+\\)")
    ∷ (txt "getgrgid(", txt "getgrgid_r(", txt "getgrgid\\([^)]+\\)")
    ∷ (txt "getgrnam(", txt "getgrnam_r(", txt "getgrnam\\([^)]+\\)")
    ∷ (txt "getlogin(", txt "getlogin_r(", txt "getlogin\\(\\)")
    ∷ (txt "getpwnam(", txt "getpwnam_r(", txt "getpwnam\\([^)]+\\)")
    ∷ (txt "getpwuid(", txt "getpwuid_r(", txt "getpwuid\\([^)]+\\)")
    ∷ (txt "gmtime(", txt "gmtime_r(", txt "gmtime\\([^)]+\\)")
    ∷ (txt "localtime(", txt "localtime_r(", txt "localtime\\([^)]+\\)")
    ∷ (txt "rand(", txt "rand_r(", txt "rand\\(\\)")
    ∷ (txt "strtok(", txt "strtok_r(", txt "strtok\\([^)]+\\)")
    ∷ (txt "ttyname(", txt "ttyname_r(", txt "ttyname\\([^)]+\\)")
    ∷ []

unfoldable pub threading_loop : ℕ → Text → List Row → List Report
threading_loop linenum line [] = []
threading_loop linenum line ((single, multi, pattern) ∷ rows) =
    when (is_found (txt "(?:[-+*/=%^&|(<]\\s*|>\\s+)" ++ pattern) line) (
      report linenum (txt "runtime/threadsafe_fn") 2 (
        txt "Consider using "
        ++ multi
        ++ txt "...) instead of "
        ++ single
        ++ txt "...) for improved thread safety."))
    ++ threading_loop linenum line rows

unfoldable pub check_posix_threading : CleansedLines → ℕ → List Report
check_posix_threading clean_lines linenum =
    threading_loop linenum (line_of clean_lines.elided linenum) threading_list

unfoldable pub check_vlog_arguments : CleansedLines → ℕ → List Report
check_vlog_arguments clean_lines linenum =
    when
      (is_found (txt "\\bVLOG\\((INFO|ERROR|WARNING|DFATAL|FATAL)\\)")
        (line_of clean_lines.elided linenum))
      (report linenum (txt "runtime/vlog") 5 (
        txt "VLOG() should be used with numeric verbosity level.  "
        ++ txt "Use LOG() if you want symbolic severity levels."))

unfoldable pub check_invalid_increment : CleansedLines → ℕ → List Report
check_invalid_increment clean_lines linenum =
    when (is_match (txt "^\\s*\\*\\w+(\\+\\+|--);") (line_of clean_lines.elided linenum)) (
      report linenum (txt "runtime/invalid_increment") 5
        (txt "Changing pointer instead of value (or unused value of operator*)."))

-- `IsMacroDefinition`, of the line or of the line that goes on in it
unfoldable pub is_macro_definition : List Text → ℕ → Bool
is_macro_definition lines linenum =
    is_found (txt "^#define") (line_of lines linenum)
    || (ltb 0 linenum && is_found (txt "\\\\$") (line_of lines (linenum - 1)))

unfoldable pub is_forward_class_declaration : List Text → ℕ → Bool
is_forward_class_declaration lines linenum =
    is_match (txt "^\\s*(\\btemplate\\b)*.*class\\s+\\w+;\\s*$") (line_of lines linenum)
