-- ===== src/Cleanse.antt =====
-- The cleaning of lines in build_support/cpplint.py: `CleanseRawStrings`,
-- `RemoveMultiLineComments`, `CleanseComments`, `CleansedLines` and their helpers.
pub mod Strings
pub mod Comments
mod Scan
pub mod Rounds
pub mod Copies
pub mod Blocks
use netier.Base.{ℕ, zero, suc, Option, none, some, List, [], ◌∷◌, Text, length, map, get_or}
use netier.Cleanse.Strings.{cleanse_raw_strings, collapse_strings}
use netier.Cleanse.Comments.{cleanse_comments}

-- The four copies of the lines.
pub record CleansedLines : Type 0 where
  pub elided : List Text
  pub lines : List Text
  pub raw_lines : List Text
  pub num_lines : ℕ
  pub lines_without_raw_strings : List Text

-- The loop of `__init__`: the lines without comments, and those without strings either.
unfoldable pub without_comments : List Text → List Text
without_comments [] = []
without_comments (line ∷ lines) = cleanse_comments line ∷ without_comments lines

unfoldable pub without_strings : List Text → List Text
without_strings [] = []
without_strings (line ∷ lines) = cleanse_comments (collapse_strings line) ∷ without_strings lines

-- `__init__`
unfoldable pub cleansed_lines : List Text → CleansedLines
cleansed_lines lines =
    let whole = cleanse_raw_strings lines in
    record {
      elided = without_strings whole;
      lines = without_comments whole;
      raw_lines = lines;
      num_lines = length lines;
      lines_without_raw_strings = whole;
    }
