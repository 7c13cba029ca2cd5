-- ===== src/LineChecks/Proper/Spacing.antt =====
-- The reports of `CheckComment` and `CheckSpacing`.
use netier.Base.{ℕ, ◌<◌, Option, none, some, List, Text, arith}
use netier.Regex.{Found}
use netier.Cleanse.{CleansedLines}
use netier.Nesting.Blocks.{BlockInfo}
use netier.LineChecks.Comments.{
  todo_reports, comment_reports, check_comment, reports_at, is_outside_quotes,
}
use netier.LineChecks.Spacing.{
  block_start_reports, block_end_reports, after_section_reports, blank_line_reports, code_reports,
  check_spacing,
}
use netier.LineChecks.Proper.{AreProper, proper, nil, if-AreProper}

module _ {n last : ℕ} (h : n < last) where
  todo_reports-AreProper : (m : Option Found) → AreProper n last (todo_reports n m)
  unfolding todo_reports
  todo_reports-AreProper none = nil
  todo_reports-AreProper (some m) = search (proper, arith)

  comment_reports-AreProper :
      (line : Text) (start pos : ℕ) → AreProper n last (comment_reports n line start pos)
  unfolding comment_reports
  comment_reports-AreProper line start pos = search (proper, arith, todo_reports-AreProper)

  reports_at-AreProper :
      (line : Text) (start : ℕ) (pos : Option ℕ) → AreProper n last (reports_at n line start pos)
  reports_at-AreProper line start none = nil
  reports_at-AreProper line start (some pos) =
      if-AreProper (is_outside_quotes line pos) (comment_reports-AreProper line start pos) nil

  check_comment-AreProper :
      (line : Text) (start : ℕ) → AreProper n last (check_comment line n start)
  unfolding check_comment
  check_comment-AreProper line start = reports_at-AreProper line start _

  after_section_reports-AreProper :
      (m : Option Found) → AreProper n last (after_section_reports n m)
  unfolding after_section_reports
  after_section_reports-AreProper none = nil
  after_section_reports-AreProper (some m) = search (proper, arith)

  blank_line_reports-AreProper : (c : CleansedLines) → AreProper n last (blank_line_reports c n)
  unfolding blank_line_reports block_start_reports block_end_reports
  blank_line_reports-AreProper c = search (proper, arith, after_section_reports-AreProper)

  code_reports-AreProper : (line : Text) → AreProper n last (code_reports n line)
  unfolding code_reports
  code_reports-AreProper line = search (proper, arith)

  pub check_spacing-AreProper :
      (c : CleansedLines) (stack : List BlockInfo) → AreProper n last (check_spacing c n stack)
  unfolding check_spacing
  check_spacing-AreProper c stack =
      search
        (proper, blank_line_reports-AreProper c, check_comment-AreProper, code_reports-AreProper)
