-- ===== src/Cleanse/Copies.antt =====
-- The copies of the lines that `CleansedLines` keeps.
use netier.Base.{suc, Option, List, [], ◌∷◌, ◌≡◌, refl, ap, ◌∙◌, Text, length}
use netier.Cleanse.Strings.{raw_line, raw_lines, cleanse_raw_strings}
use netier.Cleanse.{cleansed_lines, without_comments, without_strings}

raw_lines-length :
    (delimiter : Option Text) (lines : List Text)
    → length (raw_lines delimiter lines) ≡ length lines
unfolding raw_lines
raw_lines-length delimiter [] = refl
raw_lines-length delimiter (line ∷ lines) =
    ap suc (raw_lines-length (raw_line delimiter line).0 lines)

without_comments-length : (lines : List Text) → length (without_comments lines) ≡ length lines
unfolding without_comments
without_comments-length [] = refl
without_comments-length (line ∷ lines) = ap suc (without_comments-length lines)

without_strings-length : (lines : List Text) → length (without_strings lines) ≡ length lines
unfolding without_strings
without_strings-length [] = refl
without_strings-length (line ∷ lines) = ap suc (without_strings-length lines)

-- Each of the four copies has as many lines as the file, so that a line has the same number in all
-- of them, and `NumLines` is that number.
pub cleansed_lines-length :
    (lines : List Text)
    → (length (cleansed_lines lines).elided ≡ (cleansed_lines lines).num_lines)
      × (length (cleansed_lines lines).lines ≡ (cleansed_lines lines).num_lines)
      × (length (cleansed_lines lines).raw_lines ≡ (cleansed_lines lines).num_lines)
      × (length (cleansed_lines lines).lines_without_raw_strings ≡ (cleansed_lines lines).num_lines)
      × ((cleansed_lines lines).num_lines ≡ length lines)
unfolding cleansed_lines cleanse_raw_strings
cleansed_lines-length lines =
    let whole = raw_lines-length _ lines in
    (without_strings-length _ ∙ whole, without_comments-length _ ∙ whole, refl, whole, refl)
