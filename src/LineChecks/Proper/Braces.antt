-- ===== src/LineChecks/Proper/Braces.antt =====
-- The reports of `CheckBraces`, `CheckBracesSpacing`, `CheckSectionSpacing`.
use netier.Base.{ℕ, ◌<◌, Bool, Option, none, some, List, Text, arith}
use netier.Regex.{Found}
use netier.Cleanse.{CleansedLines}
use netier.Nesting.Blocks.{BlockInfo, ClassInfo}
use netier.LineChecks.BraceSpacing.{
  before_brace_reports, semicolon_reports, check_braces_spacing, section_reports,
  check_section_spacing,
}
use netier.LineChecks.Braces.{
  Unicode, open_brace_reports, else_line_reports, else_reports, next_line_reports,
  semicolon_reports_at, body_reports, check_braces,
}
use netier.LineChecks.Proper.{AreProper, proper, nil}

module _ {n last : ℕ} (h : n < last) where
  before_brace_reports-AreProper :
      (c : CleansedLines) (stack : List BlockInfo) (m : Option Found)
      → AreProper n last (before_brace_reports c n stack m)
  unfolding before_brace_reports
  before_brace_reports-AreProper c stack none = nil
  before_brace_reports-AreProper c stack (some m) = search (proper, arith)

  semicolon_reports-AreProper : (line : Text) → AreProper n last (semicolon_reports n line)
  unfolding semicolon_reports
  semicolon_reports-AreProper line = search (proper, arith)

  pub check_braces_spacing-AreProper :
      (c : CleansedLines) (stack : List BlockInfo)
      → AreProper n last (check_braces_spacing c n stack)
  unfolding check_braces_spacing
  check_braces_spacing-AreProper c stack =
      search (proper, arith, before_brace_reports-AreProper, semicolon_reports-AreProper)

  section_reports-AreProper :
      (lines : List Text) (start : ℕ) (m : Option Found)
      → AreProper n last (section_reports lines start n m)
  unfolding section_reports
  section_reports-AreProper lines start none = nil
  section_reports-AreProper lines start (some m) = search (proper, arith)

  pub check_section_spacing-AreProper :
      (c : CleansedLines) (block : BlockInfo) (class : ClassInfo)
      → AreProper n last (check_section_spacing c block class n)
  unfolding check_section_spacing
  check_section_spacing-AreProper c block class = search (proper, section_reports-AreProper)

  next_line_reports-AreProper :
      (is_if : Bool) (indent : ℕ) (line : Text)
      → AreProper n last (next_line_reports n is_if indent line)
  unfolding next_line_reports
  next_line_reports-AreProper is_if indent line = search (proper, arith)

  semicolon_reports_at-AreProper :
      (elided : List Text) (is_if : Bool) (indent : ℕ) (i : Option ℕ)
      → AreProper n last (semicolon_reports_at elided n is_if indent i)
  unfolding semicolon_reports_at
  semicolon_reports_at-AreProper elided is_if indent none = nil
  semicolon_reports_at-AreProper elided is_if indent (some i) =
      search (proper, arith, next_line_reports-AreProper)

  body_reports-AreProper :
      (c : CleansedLines) (line : Text) (m : Option Found)
      → AreProper n last (body_reports c n line m)
  unfolding body_reports
  body_reports-AreProper c line none = nil
  body_reports-AreProper c line (some m) = search (proper, semicolon_reports_at-AreProper)

  else_reports-AreProper :
      (c : CleansedLines) (line : Text) → AreProper n last (else_reports c n line)
  unfolding else_reports
  else_reports-AreProper c line = search (proper, arith)

  pub check_braces-AreProper :
      (u : Unicode) (limit : ℕ) (c : CleansedLines) → AreProper n last (check_braces u limit c n)
  unfolding check_braces open_brace_reports else_line_reports
  check_braces-AreProper u limit c =
      search (proper, arith, else_reports-AreProper, body_reports-AreProper)
