-- ===== src/LineChecks/CheckMacros/Loop.antt =====
-- The loop of `CheckCheck` over the expression.
use netier.Base.{
  ℕ, zero, suc, ◌≤◌, ◌<◌, ◌≡◌, ◌≢◌, inl, inr, refl, Option, none, some, List, [], ◌∷◌, Bool, true,
  false, arith, Text, length, length-drop, Option-cases, if◌then◌else◌,
}
use netier.Regex.{Found, match_re}
use netier.Regex.Groups.{match_re-late, token_late, operand_late, char_late}
use netier.Suppress.{Report}
use netier.Cleanse.{CleansedLines}
use netier.Expression.Stack.{Location, Scan, found, unclosed, pending}
use netier.LineChecks.CheckMacros.{
  Operands, no_fuel, returned, operands, Token, parenthesis, logical, non_relational, relational,
  Turn, ends, goes_on, parenthesized, token_turn, operand_turn, first_match, expression_turn,
  operands_of, operands_reports, closed_macro_reports, macro_reports_at, macro_reports, check_check,
  token_pattern, operand_pattern, char_pattern,
}

-- A step ends the loop with a result, or goes on with a shorter text.
GoesOn : ℕ → Turn → Type 0
GoesOn n (ends result) = result ≢ no_fuel
GoesOn n (goes_on lhs expression) = suc (length expression) ≤ n

returned-ne-no_fuel : returned ≢ no_fuel
returned-ne-no_fuel e = cc

operands-ne-no_fuel : (l : Text) (o : Option Text) (r : Text) → operands l o r ≢ no_fuel
operands-ne-no_fuel l o r e = cc

parenthesized-GoesOn :
    (n : ℕ) (lhs expression : Text) (s : Scan)
    → suc (length expression) ≤ n
    → GoesOn n (parenthesized lhs expression s)
unfolding GoesOn
parenthesized-GoesOn n lhs expression (found end) h = omega (arith, length-drop {0} end expression)
parenthesized-GoesOn n lhs expression unclosed h = returned-ne-no_fuel
parenthesized-GoesOn n lhs expression (pending stack) h = returned-ne-no_fuel

token_turn-GoesOn :
    (n : ℕ) (k : Token) (token lhs rest : Text)
    → suc (length rest) ≤ n
    → GoesOn n (token_turn k token lhs rest)
unfolding token_turn GoesOn
token_turn-GoesOn n parenthesis token lhs rest h = parenthesized-GoesOn n lhs rest _ h
token_turn-GoesOn n logical token lhs rest h = returned-ne-no_fuel
token_turn-GoesOn n non_relational token lhs rest h = h
token_turn-GoesOn n relational token lhs rest h = operands-ne-no_fuel _ _ _

operand_turn-GoesOn :
    (lhs s : Text) (a b : Option Found)
    → match_re operand_pattern s ≡ a
    → match_re char_pattern s ≡ b
    → GoesOn (length s) (operand_turn lhs (first_match a b))
unfolding GoesOn
operand_turn-GoesOn lhs s none none p q = operands-ne-no_fuel _ _ _
operand_turn-GoesOn lhs s none (some m) p q = match_re-late 2 char_pattern s m char_late q
operand_turn-GoesOn lhs s (some m) b p q = match_re-late 2 operand_pattern s m operand_late p

expression_turn-GoesOn : (lhs s : Text) → GoesOn (length s) (expression_turn lhs s)
unfolding expression_turn
expression_turn-GoesOn lhs s = elim (Option-cases (match_re token_pattern s)) [
  | inl e ↦ rw (e, expression_turn) (operand_turn-GoesOn lhs s _ _ refl refl)
  | inr (m, e) ↦
      rw (e, expression_turn)
        (token_turn-GoesOn (length s) _ _ lhs _ (match_re-late 2 token_pattern s m token_late e))
]

turn_ends :
    (fuel : ℕ) (n : ℕ) (t : Turn)
    → ((lhs s : Text) → length s < fuel → operands_of fuel lhs s ≢ no_fuel)
    → n ≤ fuel
    → GoesOn n t
    → elim t [ ends result ↦ result | goes_on l s ↦ operands_of fuel l s ] ≢ no_fuel
unfolding GoesOn
turn_ends fuel n (ends result) f h g = g
turn_ends fuel n (goes_on l s) f h g = f l s (omega arith)

operands_of-enough : (fuel : ℕ) (lhs s : Text) → length s < fuel → operands_of fuel lhs s ≢ no_fuel
unfolding operands_of
operands_of-enough zero lhs s h = absurd (omega arith)
operands_of-enough (suc fuel) lhs [] h = operands-ne-no_fuel _ _ _
operands_of-enough (suc fuel) lhs (c ∷ s) h =
    turn_ends fuel (suc (length s)) (expression_turn lhs (c ∷ s)) (operands_of-enough fuel)
      (omega arith) (expression_turn-GoesOn lhs (c ∷ s))

abbrev Ends : Option (List Report) → Type 0
Ends o = (rs : List Report) × (o ≡ some rs)

if-Ends : (b : Bool) {o p : Option (List Report)} → Ends o → Ends p → Ends (if b then o else p)
if-Ends true h h' = h
if-Ends false h h' = h'

module _ (lines : List Text) (n : ℕ) (macro : Text) where
  operands_reports-Ends : (o : Operands) → o ≢ no_fuel → Ends (operands_reports n macro o)
  operands_reports-Ends no_fuel h = absurd (h refl)
  operands_reports-Ends returned h = (_, refl)
  operands_reports-Ends (operands lhs none rhs) h = (_, refl)
  operands_reports-Ends (operands lhs (some operator) rhs) h = (_, refl)

  closed_macro_reports-Ends :
      (start : ℕ) (l : Location) (pos : Option ℕ)
      → Ends (closed_macro_reports lines n macro start l pos)
  unfolding closed_macro_reports
  closed_macro_reports-Ends start l none = (_, refl)
  closed_macro_reports-Ends start l (some pos) =
      if-Ends _ (operands_reports-Ends _ (operands_of-enough _ [] _ (omega arith))) (_, refl)

  macro_reports_at-Ends :
      (start : ℕ) (l : Option Location) → Ends (macro_reports_at lines n macro start l)
  macro_reports_at-Ends start none = (_, refl)
  macro_reports_at-Ends start (some l) = closed_macro_reports-Ends start l l.pos

macro_reports-Ends :
    (c : CleansedLines) (n : ℕ) (m : Option (Text × ℕ)) → Ends (macro_reports c n m)
macro_reports-Ends c n none = (_, refl)
macro_reports-Ends c n (some (macro, start)) = macro_reports_at-Ends c.elided n macro start _

-- `CheckCheck` always ends.
pub check_check-Ends :
    (c : CleansedLines) (n : ℕ) → (rs : List Report) × (check_check c n ≡ some rs)
unfolding check_check
check_check-Ends c n = macro_reports-Ends c n _
