-- ===== src/Expression/Backward.antt =====
-- The scan back to the start of an expression.
use netier.Base.{
  ℕ, zero, suc, ◌+◌, ◌-◌, Bool, true, false, not, ◌&&◌, ◌||◌, Option, none, some, List, [], ◌∷◌,
  ◌==◌, ltb, if◌then◌else◌, Text, txt, get_or, get_elem?, take, drop, length,
}
use netier.Regex.{is_match}
use netier.Cleanse.{CleansedLines}
use netier.Expression.Stack.{
  Stack, Scan, found, unclosed, pending, Step, next, skip, stop, Location, is_closing, is_pair,
  drop_top, Kind, opening, closing, less, greater, semicolon, plain, kind_of, after_step,
}
use netier.Expression.Forward.{has_before, ends_in_operator, end_statement}

-- The start of a `(`, `[` or `{`, when the pending `>` are gone
unfoldable pub open_top : ℕ → ℕ → Stack → Step
open_top i char [] = stop unclosed
open_top i char (top ∷ []) = if is_pair char top then stop (found i) else stop unclosed
open_top i char (top ∷ below ∷ stack) =
    if is_pair char top then next (below ∷ stack) else stop unclosed

unfoldable pub open_angle : ℕ → Stack → Step
open_angle i [] = next []
open_angle i (top ∷ []) = if top == b'>' then stop (found i) else next (top ∷ [])
open_angle i (top ∷ below ∷ stack) =
    if top == b'>' then next (below ∷ stack) else next (top ∷ below ∷ stack)

-- The branches of the loop's body, for the character `char` at position `i`
unfoldable pub start_branch : Kind → Text → ℕ → ℕ → Stack → Step
start_branch closing line i char stack = next (char ∷ stack)
start_branch greater line i char stack =
    if ltb 0 i
      && (has_before line i b'-'
          || is_match (txt "\\s>=\\s") (drop (i - 1) line)
          || ends_in_operator (take i line))
    then skip stack
    else next (b'>' ∷ stack)
start_branch less line i char stack =
    if has_before line i b'<' then skip stack else open_angle i stack
start_branch opening line i char stack = open_top i char (drop_top b'>' stack)
start_branch semicolon line i char stack = end_statement (drop_top b'>' stack)
start_branch plain line i char stack = next stack

unfoldable pub start_step : Text → ℕ → ℕ → Stack → Step
start_step line i char stack = start_branch (kind_of char) line i char stack

-- The loop over the positions below `count`; a position is passed over if the last step says so.
unfoldable pub start_loop : Text → ℕ → Bool → Stack → Scan
start_loop line zero passes stack = pending stack
start_loop line (suc i) true stack = start_loop line i false stack
start_loop line (suc i) false stack =
    after_step (start_step line i (get_or line i 0) stack) (start_loop line i false)
      (start_loop line i true)

-- The position is the last one that is read; `endpos + 1` positions are.
unfoldable pub find_start_of_expression_in_line : Text → ℕ → Stack → Scan
find_start_of_expression_in_line line count stack = start_loop line count false stack

-- The loop over the lines in front of `linenum`
unfoldable pub open_loop : List Text → ℕ → Text → Scan → Location
open_loop lines linenum line (found n) = record { line = line; linenum = linenum; pos = some n }
open_loop lines linenum line unclosed = record { line = line; linenum = 0; pos = none }
open_loop lines linenum line (pending []) = record { line = line; linenum = 0; pos = none }
open_loop lines zero line (pending (top ∷ stack)) = record { line = line; linenum = 0; pos = none }
open_loop lines (suc linenum) line (pending (top ∷ stack)) =
    let line' = get_or lines linenum [] in
    open_loop lines linenum line'
      (find_start_of_expression_in_line line' (length line') (top ∷ stack))

unfoldable pub open_from : CleansedLines → ℕ → ℕ → ℕ → Location
open_from clean_lines linenum pos char =
    let line = get_or clean_lines.elided linenum [] in
    if not (is_closing char || char == b'>')
    then record { line = line; linenum = 0; pos = none }
    else open_loop clean_lines.elided linenum line
        (find_start_of_expression_in_line line (pos + 1) [])

-- `ReverseCloseExpression`; none is an IndexError, for a position that is not on the line
unfoldable pub reverse_close_expression : CleansedLines → ℕ → ℕ → Option Location
reverse_close_expression clean_lines linenum pos =
    elim (get_elem? (get_or clean_lines.elided linenum []) pos) [
      | none ↦ none
      | some char ↦ some (open_from clean_lines linenum pos char)
    ]
