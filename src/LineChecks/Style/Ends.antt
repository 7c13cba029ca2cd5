-- ===== src/LineChecks/Style/Ends.antt =====
-- `CheckStyle` ends.
use netier.Base.{ℕ, ◌≡◌, refl, Option, none, some, List, Text, arith}
use netier.Suppress.{Report}
use netier.Cleanse.{CleansedLines}
use netier.Nesting.Blocks.{BlockInfo}
use netier.LineChecks.Common.{line_of}
use netier.LineChecks.Braces.{Unicode}
use netier.LineChecks.Semicolons.{Event}
use netier.LineChecks.Operators.{operator_reports_of, check_operator_spacing}
use netier.LineChecks.Operators.Hiding.{HasNoNewline, hide_operators_lem}
use netier.LineChecks.CheckMacros.Loop.{check_check-Ends}
use netier.LineChecks.Style.{style_events, check_style}

abbrev Ends {ℓ} : {A : Type ℓ} → Option A → Type ℓ
Ends o = (a : _) × (o ≡ some a)

operator_reports_of-Ends :
    (c : CleansedLines) (n : ℕ) (line : Option Text)
    → Ends line
    → Ends (operator_reports_of c n line)
operator_reports_of-Ends c n none (_, e) = ground arith
operator_reports_of-Ends c n (some line) h = (_, refl)

check_operator_spacing-Ends :
    (c : CleansedLines) (n : ℕ)
    → HasNoNewline (line_of c.elided n)
    → Ends (check_operator_spacing c n)
unfolding check_operator_spacing
check_operator_spacing-Ends c n h =
    let (line, e, _, _) = hide_operators_lem (line_of c.elided n) h in
    operator_reports_of-Ends c n _ (line, e)

style_events-Ends :
    (u : Unicode) (limit : ℕ) (guard : Option Text) (c : CleansedLines) (n : ℕ)
    (stack : List BlockInfo) (operators macros : Option (List Report))
    → Ends operators
    → Ends macros
    → Ends (style_events u limit guard c n stack operators macros)
unfolding style_events
style_events-Ends u limit guard c n stack none macros (_, e) h = ground arith
style_events-Ends u limit guard c n stack (some operators) none h (_, e) = ground arith
style_events-Ends u limit guard c n stack (some operators) (some macros) h h' = (_, refl)

-- For a line with no newline in it, `CheckStyle` ends: none of its loops runs out of rounds.
pub check_style-ends :
    (u : Unicode) (limit : ℕ) (guard : Option Text) (c : CleansedLines) (n : ℕ)
    (stack : List BlockInfo)
    → HasNoNewline (line_of c.elided n)
    → (es : List Event) × (check_style u limit guard c n stack ≡ some es)
unfolding check_style
check_style-ends u limit guard c n stack h =
    style_events-Ends u limit guard c n stack _ _ (check_operator_spacing-Ends c n h)
      (check_check-Ends c n)
