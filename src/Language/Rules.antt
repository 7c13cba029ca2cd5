-- ===== src/Language/Rules.antt =====
-- The part of `CheckLanguage` behind the branch for include lines.
use netier.Base.{
  ℕ, ◌-◌, Bool, not, ◌&&◌, Option, none, some, List, [], ◌∷◌, ◌++◌, ◌==◌, Text, txt, text_eq, lower,
  length, take, drop, get_or, if◌then◌else◌,
}
use netier.Regex.{Found, match_re, search_re, is_match, is_found, group_or_empty}
use netier.Suppress.{Report}
use netier.Cleanse.{CleansedLines}
use netier.LineChecks.Common.{report, when, line_of}
use netier.Language.Casts.{check_casts}
use netier.Language.Statics.{check_global_static, check_printf}
use netier.Language.Inside.{get_text_inside}
use netier.Language.Arrays.{array_reports}

unfoldable pub type_reports : ℕ → Option Found → List Report
type_reports linenum none = []
type_reports linenum (some m) =
    report linenum (txt "runtime/int") 4
      (txt "Use int16/int64/etc, rather than the C type " ++ group_or_empty 1 m)
    ∷ []

unfoldable pub int_reports : ℕ → Text → List Report
int_reports linenum line =
    if is_found (txt "\\bshort port\\b") line
    then when (not (is_found (txt "\\bunsigned short port\\b") line)) (
        report linenum (txt "runtime/int") 4
          (txt "Use \"unsigned short\" for ports, not \"short\""))
    else type_reports linenum (search_re (txt "\\b(short|long(?! +double)|long long)\\b") line)

-- The match of the arguments, with the name of the function
unfoldable pub format_report_of : ℕ → Text → Option Found → List Report
format_report_of linenum function_name none = []
format_report_of linenum function_name (some m) =
    when (not (text_eq (group_or_empty 1 m) (txt "__VA_ARGS__"))) (
      report linenum (txt "runtime/printf") 4 (
        txt "Potential format string bug. Do "
        ++ (function_name ++ (txt "(\"%s\", " ++ (group_or_empty 1 m ++ txt ") instead.")))))

abbrev pub arguments_reports : ℕ → Text → Option Text → List Report
arguments_reports linenum function_name none = []
arguments_reports linenum function_name (some args) =
    format_report_of linenum function_name (match_re (txt "([\\w.\\->()]+)$") args)

-- The name as it stands in the line, from a match in the line in lower case
abbrev pub name_at : Text → Option Found → Text
name_at line none = []
name_at line (some m) = take (length (group_or_empty 1 m)) (drop m.start line)

-- The patterns are matched without regard to case: their letters are small, so they are matched in
-- the line in lower case.
unfoldable pub printf_reports : ℕ → Text → Option Found → List Report
printf_reports linenum line none = []
printf_reports linenum line (some m) =
    arguments_reports linenum
      (name_at line (search_re (txt "\\b((?:string)?printf)\\s*\\(") (lower line)))
      (get_text_inside line m.stop)

unfoldable pub memset_reports : ℕ → Option Found → List Report
memset_reports linenum none = []
memset_reports linenum (some m) =
    when (not (is_match (txt "^''|-?[0-9]+|0x[0-9A-Fa-f]$") (group_or_empty 2 m))) (
      report linenum (txt "runtime/memset") 4 (
        txt "Did you mean \"memset("
        ++ (group_or_empty 1 m ++ (txt ", 0, " ++ (group_or_empty 2 m ++ txt ")\"?")))))

unfoldable pub using_reports : ℕ → Text → List Report
using_reports linenum line = when (is_found (txt "\\busing namespace\\b") line) (
    if is_found (txt "\\bliterals\\b") line
    then report linenum (txt "build/namespaces_literals") 5
        (txt "Do not use namespace using-directives.  " ++ txt "Use using-declarations instead.")
    else report linenum (txt "build/namespaces") 5
        (txt "Do not use namespace using-directives.  " ++ txt "Use using-declarations instead."))

-- `line[-1] != '\\'`
abbrev pub has_no_backslash : Text → Bool
has_no_backslash line = not (get_or line (length line - 1) 0 == b'\\')

unfoldable pub rule_reports : Bool → ℕ → Text → List Report
rule_reports is_header linenum line =
    int_reports linenum line
    ++ (when (is_found (txt "\\boperator\\s*&\\s*\\(\\s*\\)") line) (
          report linenum (txt "runtime/operator") 4
            (txt "Unary operator& is dangerous.  Do not use it."))
        ++ (when (is_found (txt "\\}\\s*if\\s*\\(") line) (
              report linenum (txt "readability/braces") 4
                (txt "Did you mean \"else if\"? If not, start a new line for \"if\"."))
            ++ (printf_reports linenum line
                  (search_re (txt "\\b(string)?printf\\s*\\(") (lower line))
                ++ (memset_reports linenum
                      (search_re (txt "memset\\s*\\(([^,]*),\\s*([^,]*),\\s*0\\s*\\)") line)
                    ++ (using_reports linenum line
                        ++ (array_reports linenum
                              (match_re (txt "\\s*(.+::)?(\\w+) [a-z]\\w*\\[(.+)];") line)
                            ++ when
                                (is_header
                                  && (is_found (txt "\\bnamespace\\s*{") line
                                      && has_no_backslash line))
                                (report linenum (txt "build/namespaces") 4 (
                                  txt "Do not use unnamed namespaces in header files.  See "
                                  ++ (txt
                                        "https://google-styleguide.googlecode.com/svn/trunk/cppguide.xml#Namespaces"
                                      ++ txt " for more information.")))))))))

abbrev pub and_later : List Report → Option (List Report) → Option (List Report)
and_later later none = none
and_later later (some first) = some (first ++ later)

-- The checks behind the reset of the include state; none is an IndexError in `CheckCasts`.
unfoldable pub language_reports : Bool → CleansedLines → ℕ → Option (List Report)
language_reports is_header clean_lines linenum =
    and_later
      (check_global_static clean_lines linenum
        ++ (check_printf clean_lines linenum
            ++ rule_reports is_header linenum (line_of clean_lines.elided linenum)))
      (check_casts clean_lines linenum)
