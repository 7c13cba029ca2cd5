-- ===== src/Language/Features.antt =====
-- `FlagCxx11Features` and `FlagCxx14Features`.
use netier.Base.{
  ℕ, not, ◌&&◌, Option, none, some, List, [], ◌∷◌, ◌++◌, Text, txt, elem, starts_with,
  if◌then◌else◌,
}
use netier.Regex.{Found, match_re, is_match, is_found, group_or_empty}
use netier.Suppress.{Report}
use netier.Cleanse.{CleansedLines}
use netier.LineChecks.Common.{report, when, line_of}

abbrev pub include_pattern : Text
include_pattern = txt "\\s*#\\s*include\\s+[<\"]([^<\"]+)[\">]"

unfoldable pub cxx11_headers : List Text
cxx11_headers =
    txt "cfenv"
    ∷ txt "condition_variable"
    ∷ txt "fenv.h"
    ∷ txt "future"
    ∷ txt "mutex"
    ∷ txt "thread"
    ∷ txt "chrono"
    ∷ txt "ratio"
    ∷ txt "regex"
    ∷ txt "system_error"
    ∷ []

unfoldable pub header_reports : ℕ → Option Found → List Report
header_reports linenum none = []
header_reports linenum (some m) =
    when (starts_with (group_or_empty 1 m) (txt "tr1/")) (
      report linenum (txt "build/c++tr1") 5
        (txt "C++ TR1 headers such as <" ++ (group_or_empty 1 m ++ txt "> are unapproved.")))
    ++ when (elem (group_or_empty 1 m) cxx11_headers) (
        report linenum (txt "build/c++11") 5
          (txt "<" ++ (group_or_empty 1 m ++ txt "> is an unapproved C++11 header.")))

-- The loop over the names
unfoldable pub name_reports : ℕ → Text → List Text → List Report
name_reports linenum line [] = []
name_reports linenum line (top_name ∷ top_names) =
    when (is_found (txt "\\bstd::" ++ (top_name ++ txt "\\b")) line) (
      report linenum (txt "build/c++11") 5 (
        txt "std::"
        ++ (top_name
            ++ (txt " is an unapproved C++11 class or function.  Send c-style "
                ++ (txt "an example of where it would make your code more readable, and "
                    ++ txt "they may let you use it.")))))
    ++ name_reports linenum line top_names

-- `FlagCxx11Features`
unfoldable pub flag_cxx11_features : CleansedLines → ℕ → List Report
flag_cxx11_features clean_lines linenum =
    let line = line_of clean_lines.elided linenum in
    header_reports linenum (match_re include_pattern line)
    ++ (if is_match (txt "\\s*#") line && not (is_match (txt "\\s*#\\s*define\\b") line)
        then []
        else name_reports linenum line (txt "alignment_of" ∷ txt "aligned_union" ∷ []))

unfoldable pub cxx14_reports : ℕ → Option Found → List Report
cxx14_reports linenum none = []
cxx14_reports linenum (some m) =
    when (elem (group_or_empty 1 m) (txt "scoped_allocator" ∷ txt "shared_mutex" ∷ [])) (
      report linenum (txt "build/c++14") 5
        (txt "<" ++ (group_or_empty 1 m ++ txt "> is an unapproved C++14 header.")))

-- `FlagCxx14Features`
unfoldable pub flag_cxx14_features : CleansedLines → ℕ → List Report
flag_cxx14_features clean_lines linenum =
    cxx14_reports linenum (match_re include_pattern (line_of clean_lines.elided linenum))
