-- ===== src/Language/Statics.antt =====
-- `CheckGlobalStatic` and `CheckPrintf`.
use netier.Base.{
  ℕ, ◌+◌, not, ◌&&◌, ◌||◌, Option, none, some, List, [], ◌∷◌, ◌++◌, ltb, Text, txt, text_eq, strip,
  if◌then◌else◌,
}
use netier.Regex.{Found, match_re, search_re, is_match, is_found, group_or_empty}
use netier.Suppress.{Report}
use netier.Cleanse.{CleansedLines}
use netier.LineChecks.Common.{report, when, line_of}

-- The line, with the next one for a declaration over two lines
unfoldable pub static_line : CleansedLines → ℕ → Text
static_line clean_lines linenum =
    let line = line_of clean_lines.elided linenum in
    if ltb (linenum + 1) clean_lines.num_lines && not (is_found (txt "[;({]") line)
    then line ++ strip (line_of clean_lines.elided (linenum + 1))
    else line

unfoldable pub string_reports : ℕ → Text → Option Found → List Report
string_reports linenum line none = []
string_reports linenum line (some m) =
    when
      (not (is_found (txt "\\bstring\\b(\\s+const)?\\s*[\\*\\&]\\s*(const\\s+)?\\w") line)
        && (not (is_found (txt "\\boperator\\W") line)
            && not (
                is_match (txt "\\s*(<.*>)?(::[a-zA-Z0-9_]+)*\\s*\\(([^\"]|$)")
                  (group_or_empty 4 m))))
      (if is_found (txt "\\bconst\\b") line
        then report linenum (txt "runtime/string") 4 (
            txt "For a static/global string constant, use a C style string "
            ++ (txt "instead: \""
                ++ (group_or_empty 1 m
                    ++ (txt "char"
                        ++ (group_or_empty 2 m
                            ++ (txt " " ++ (group_or_empty 3 m ++ txt "[]\".")))))))
        else report linenum (txt "runtime/string") 4
            (txt "Static/global string variables are not permitted."))

-- `CheckGlobalStatic`
unfoldable pub check_global_static : CleansedLines → ℕ → List Report
check_global_static clean_lines linenum =
    let line = static_line clean_lines linenum in
    string_reports linenum line (
      match_re
        (txt "((?:|static +)(?:|const +))(?::*std::)?string( +const)? +"
          ++ txt "([a-zA-Z0-9_:]+)\\b(.*)")
        line)
    ++ when
        (is_found (txt "\\b([A-Za-z0-9_]*_)\\(\\1\\)") line
          || is_found (txt "\\b([A-Za-z0-9_]*_)\\(CHECK_NOTNULL\\(\\1\\)\\)") line)
        (report linenum (txt "runtime/init") 4
          (txt "You seem to be initializing a member variable with itself."))

unfoldable pub size_reports : ℕ → Option Found → List Report
size_reports linenum none = []
size_reports linenum (some m) = when (not (text_eq (group_or_empty 2 m) (txt "0"))) (
    report linenum (txt "runtime/printf") 3 (
      txt "If you can, use sizeof("
      ++ (group_or_empty 1 m
          ++ (txt ") instead of " ++ (group_or_empty 2 m ++ txt " as the 2nd arg to snprintf.")))))

unfoldable pub copy_reports : ℕ → Option Found → List Report
copy_reports linenum none = []
copy_reports linenum (some m) =
    report linenum (txt "runtime/printf") 4
      (txt "Almost always, snprintf is better than " ++ group_or_empty 1 m)
    ∷ []

-- `CheckPrintf`
unfoldable pub check_printf : CleansedLines → ℕ → List Report
check_printf clean_lines linenum =
    let line = line_of clean_lines.elided linenum in
    size_reports linenum (search_re (txt "snprintf\\s*\\(([^,]*),\\s*([0-9]*)\\s*,") line)
    ++ (when (is_found (txt "\\bsprintf\\s*\\(") line)
          (report linenum (txt "runtime/printf") 5 (txt "Never use sprintf. Use snprintf instead."))
        ++ copy_reports linenum (search_re (txt "\\b(strcpy|strcat)\\s*\\(") line))
