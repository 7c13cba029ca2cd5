-- ===== src/LineChecks/Proper/Bodies.antt =====
-- The reports of `CheckEmptyBlockBody`, which are about the line where the condition ends.
use netier.Base.{ℕ, ◌<◌, ◌≡◌, refl, Bool, Option, none, some, Text, arith, length}
use netier.Regex.{Found}
use netier.Cleanse.{CleansedLines}
use netier.Expression.Stack.{Location}
use netier.Expression.Forward.{close_expression}
use netier.Expression.Moves.{PosMoves, close_expression-moves}
use netier.LineChecks.EmptyBlocks.{
  Opening, closed_body_reports, closing_reports, body_reports, empty_statement_reports,
  condition_reports, reports_at, reports_of, check_empty_block_body,
}
use netier.LineChecks.Proper.{AreProper, proper, nil, AreProper-from}

module _ {n last : ℕ} (h : n < last) where
  closed_body_reports-AreProper :
      (c : CleansedLines) (i p : ℕ) (line : Text) (j : ℕ) (pos : Option ℕ)
      → AreProper n last (closed_body_reports c n i p line j pos)
  unfolding closed_body_reports
  closed_body_reports-AreProper c i p line j none = nil
  closed_body_reports-AreProper c i p line j (some pos) = search (proper, arith)

  closing_reports-AreProper :
      (c : CleansedLines) (i p : ℕ) (l : Option Location)
      → AreProper n last (closing_reports c n i p l)
  closing_reports-AreProper c i p none = nil
  closing_reports-AreProper c i p (some l) = closed_body_reports-AreProper c i p _ _ _

  body_reports-AreProper :
      (c : CleansedLines) (p : ℕ) (o : Option Opening) → AreProper n last (body_reports c n p o)
  unfolding body_reports
  body_reports-AreProper c p none = nil
  body_reports-AreProper c p (some o) = closing_reports-AreProper c _ _ _

  condition_reports-AreProper :
      (c : CleansedLines) (is_if : Bool) (line : Text) (p : ℕ)
      → AreProper n last (condition_reports c is_if line n (some p))
  unfolding condition_reports empty_statement_reports
  condition_reports-AreProper c is_if line p = search (proper, arith, body_reports-AreProper)

module _ (c : CleansedLines) (n : ℕ) (h : n < length c.elided) where
  condition_reports-from :
      (is_if : Bool) (start : ℕ) (line : Text) (i : ℕ) (pos : Option ℕ)
      → PosMoves c.elided n start i pos
      → AreProper n (length c.elided) (condition_reports c is_if line i pos)
  unfolding condition_reports
  condition_reports-from is_if start line i none m = nil
  condition_reports-from is_if start line i (some p) (a, b, _, _) =
      AreProper-from a (condition_reports-AreProper b c is_if line p)

  reports_at-AreProper :
      (is_if : Bool) (pos : ℕ) (l : Option Location)
      → close_expression c n pos ≡ l
      → AreProper n (length c.elided) (reports_at c is_if l)
  reports_at-AreProper is_if pos none e = nil
  reports_at-AreProper is_if pos (some l) e =
      condition_reports-from is_if pos l.line l.linenum l.pos (close_expression-moves c n pos l h e)

  reports_of-AreProper :
      (line : Text) (m : Option Found) → AreProper n (length c.elided) (reports_of c n line m)
  reports_of-AreProper line none = nil
  reports_of-AreProper line (some m) = reports_at-AreProper _ _ _ refl

  pub check_empty_block_body-AreProper : AreProper n (length c.elided) (check_empty_block_body c n)
  unfolding check_empty_block_body
  check_empty_block_body-AreProper = reports_of-AreProper _ _
