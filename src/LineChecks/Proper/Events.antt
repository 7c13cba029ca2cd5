-- ===== src/LineChecks/Proper/Events.antt =====
-- The events of `CheckTrailingSemicolon` and the reports of `CheckEmptyBlockBody`, which are about
-- the line where an expression ends.
use netier.Base.{
  ℕ, zero, suc, ◌+◌, ◌≤◌, ◌<◌, ◌≡◌, refl, Bool, true, false, Option, none, some, List, [], ◌∷◌,
  ◌++◌, Text, arith, length, map, if◌then◌else◌,
}
use netier.Regex.{Found}
use netier.Suppress.{Report}
use netier.Cleanse.{CleansedLines}
use netier.Expression.Stack.{Location}
use netier.Expression.Forward.{close_expression}
use netier.Expression.Moves.{PosMoves, close_expression-moves}
use netier.LineChecks.Semicolons.{
  number_before, Event, reported, nolint_before, nolint_at, closing_events, events_at, events_of,
  semicolon_report, check_trailing_semicolon,
}
use netier.LineChecks.Proper.{IsProper, AreProper, proper, nil, also}

-- A report is proper, and a NOLINT comment is read from a line of the file that is at most one line
-- in front of the first one. In front of line 0, Python reads the last line, as number -1.
pub data Concerns (first last : ℕ) : Event → Type 0 where
  report_for : {r : Report} → IsProper first last r → Concerns first last (reported r)
  before_first : (t : Text) → first ≤ 0 → Concerns first last (nolint_before t none)
  before_line :
      (t : Text) (n : ℕ) → first ≤ n + 1 → n < last → Concerns first last (nolint_before t (some n))
  at_line : (t : Text) (n : ℕ) → first ≤ n → n < last → Concerns first last (nolint_at t n)

pub data AllConcern (first last : ℕ) : List Event → Type 0 where
  none_left : AllConcern first last []
  one_more :
      {e : Event} {es : List Event}
      → Concerns first last e
      → AllConcern first last es
      → AllConcern first last (e ∷ es)

module _ {first last : ℕ} where
  pub AllConcern-append :
      {es fs : List Event}
      → AllConcern first last es
      → AllConcern first last fs
      → AllConcern first last (es ++ fs)
  AllConcern-append none_left h' = h'
  AllConcern-append (one_more p h) h' = one_more p (AllConcern-append h h')

  pub map-AllConcern :
      {rs : List Report} → AreProper first last rs → AllConcern first last (map reported rs)
  map-AllConcern nil = none_left
  map-AllConcern (also p h) = one_more (report_for p) (map-AllConcern h)

if-AllConcern :
    {first last : ℕ} (b : Bool) {es fs : List Event}
    → AllConcern first last es
    → AllConcern first last fs
    → AllConcern first last (if b then es else fs)
if-AllConcern true h h' = h
if-AllConcern false h h' = h'

semicolon_report-IsProper :
    {first last : ℕ} (n : ℕ) → first ≤ n → n < last → IsProper first last (semicolon_report n)
unfolding semicolon_report
semicolon_report-IsProper {first} {last} n a b =
    let p : IsProper n last (semicolon_report n) = search (proper, arith) in
    record { from = a; before = b; known = p.known; sure = p.sure }

before_number :
    {first last : ℕ} (t : Text) (n : ℕ)
    → first ≤ n
    → n < last
    → Concerns first last (nolint_before t (number_before n))
before_number t zero a b = before_first t a
before_number t (suc n) a b = before_line t n (omega arith) (omega arith)

closing_events-AllConcern :
    (c : CleansedLines) (first start : ℕ) (line : Text) (n : ℕ) (pos : Option ℕ)
    → PosMoves c.elided first start n pos
    → AllConcern first (length c.elided) (closing_events c line n pos)
unfolding closing_events
closing_events-AllConcern c first start line n none m = none_left
closing_events-AllConcern c first start line n (some p) (a, b, _, _) =
    if-AllConcern _
      (one_more (before_number _ n a b) (
        one_more (at_line _ n a b)
          (one_more (report_for (semicolon_report-IsProper n a b)) none_left)))
      none_left

module _ (c : CleansedLines) (n : ℕ) (h : n < length c.elided) where
  events_at-AllConcern :
      (pos : ℕ) (l : Option Location)
      → close_expression c n pos ≡ l
      → AllConcern n (length c.elided) (events_at c l)
  events_at-AllConcern pos none e = none_left
  events_at-AllConcern pos (some l) e =
      closing_events-AllConcern c n pos l.line l.linenum l.pos
        (close_expression-moves c n pos l h e)

  events_of-AllConcern : (m : Option Found) → AllConcern n (length c.elided) (events_of c n m)
  events_of-AllConcern none = none_left
  events_of-AllConcern (some m) = events_at-AllConcern _ _ refl

  pub check_trailing_semicolon-AllConcern :
      AllConcern n (length c.elided) (check_trailing_semicolon c n)
  unfolding check_trailing_semicolon
  check_trailing_semicolon-AllConcern = events_of-AllConcern _
