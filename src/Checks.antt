-- ===== src/Checks.antt =====
-- Checks of whole files in build_support/cpplint.py: `CheckForCopyright`, `CheckForBadCharacters`,
-- `CheckForNewlineAtEOF`.
pub mod Newline
use netier.Base.{
  ℕ, zero, suc, ◌+◌, ◌-◌, Bool, true, false, not, ◌&&◌, ◌||◌, List, [], ◌∷◌, ◌++◌, Text, txt,
  length, get_or, ltb, lower, has_text, is_blank, take, drop, split_on, if◌then◌else◌,
}
use netier.Suppress.{Report}

unfoldable pub has_copyright : List Text → Bool
has_copyright [] = false
has_copyright (line ∷ lines) = has_text (lower line) (txt "copyright") || has_copyright lines

unfoldable pub copyright_report : Report
copyright_report = record {
  linenum = 0;
  category = txt "legal/copyright";
  confidence = 5;
  message =
      txt "No copyright message found.  "
      ++ txt "You should have a line: \"Copyright [year] <Copyright Owner>\"";
}

-- `CheckForCopyright`: the lines 1 to 10
unfoldable pub check_for_copyright : List Text → List Report
check_for_copyright lines =
    if has_copyright (take 10 (drop 1 lines)) then [] else copyright_report ∷ []

unfoldable pub utf8_report : ℕ → Report
utf8_report linenum = record {
  linenum = linenum;
  category = txt "readability/utf8";
  confidence = 5;
  message = txt "Line contains invalid UTF-8 (or Unicode replacement character).";
}

unfoldable pub nul_report : ℕ → Report
nul_report linenum = record {
  linenum = linenum;
  category = txt "readability/nul";
  confidence = 5;
  message = txt "Line contains NUL byte.";
}

-- The loop of `CheckForBadCharacters`, from the number of the first line
unfoldable pub bad_characters_from : ℕ → List Text → List Report
bad_characters_from linenum [] = []
bad_characters_from linenum (line ∷ lines) =
    (if has_text line (0xfffd ∷ []) then utf8_report linenum ∷ [] else [])
    ++ (if has_text line (0 ∷ []) then nul_report linenum ∷ [] else [])
    ++ bad_characters_from (linenum + 1) lines

unfoldable pub check_for_bad_characters : List Text → List Report
check_for_bad_characters lines = bad_characters_from 0 lines

unfoldable pub newline_report : ℕ → Report
newline_report linenum = record {
  linenum = linenum;
  category = txt "whitespace/ending_newline";
  confidence = 5;
  message = txt "Could not find a newline character at the end of the file.";
}

-- `CheckForNewlineAtEOF`, for a list of at least two lines
unfoldable pub check_for_newline_at_eof : List Text → List Report
check_for_newline_at_eof lines =
    if ltb (length lines) 3 || not (is_blank (get_or lines (length lines - 2) []))
    then newline_report (length lines - 2) ∷ []
    else []

-- The lines that a file is checked as: its text, split at the newlines, between two marker lines
unfoldable pub numbered_lines : Text → List Text
numbered_lines content =
    (txt "// marker so line numbers and indices both start at 1" ∷ split_on 10 content)
    ++ txt "// marker so line numbers end in a known way" ∷ []
