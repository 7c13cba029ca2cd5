-- ===== src/Expression/Forward.antt =====
-- The scan to the end of an expression.
use netier.Base.{
  ℕ, zero, suc, ◌+◌, ◌-◌, Bool, false, not, ◌&&◌, ◌||◌, Option, none, some, List, [], ◌∷◌, ◌==◌,
  ltb, if◌then◌else◌, Text, txt, get_or, get_elem?, take, drop,
}
use netier.Regex.{is_match, is_found}
use netier.Cleanse.{CleansedLines}
use netier.Expression.Stack.{
  Stack, Scan, found, unclosed, pending, Step, next, stop, Location, is_opening, is_pair, drop_top,
  Kind, opening, closing, less, greater, semicolon, plain, kind_of, after_step,
}

-- Is the character in front of position `i` this one?
abbrev pub has_before : Text → ℕ → ℕ → Bool
has_before line zero char = false
has_before line (suc i) char = get_or line i 0 == char

-- `Search(r'\boperator\s*$', s)`
unfoldable pub ends_in_operator : Text → Bool
ends_in_operator s = is_found (txt "\\boperator\\s*$") s

-- The end of a `(`, `[` or `{`, when the pending `<` are gone
unfoldable pub close_top : ℕ → ℕ → Stack → Step
close_top i char [] = stop unclosed
close_top i char (top ∷ []) = if is_pair top char then stop (found (i + 1)) else stop unclosed
close_top i char (top ∷ below ∷ stack) =
    if is_pair top char then next (below ∷ stack) else stop unclosed

-- `<<`: an argument list that was begun is none.
unfoldable pub shift_left : Stack → Step
shift_left [] = next []
shift_left (top ∷ []) = if top == b'<' then stop unclosed else next (top ∷ [])
shift_left (top ∷ below ∷ stack) =
    if top == b'<' then next (below ∷ stack) else next (top ∷ below ∷ stack)

unfoldable pub close_angle : ℕ → Stack → Step
close_angle i [] = next []
close_angle i (top ∷ []) = if top == b'<' then stop (found (i + 1)) else next (top ∷ [])
close_angle i (top ∷ below ∷ stack) =
    if top == b'<' then next (below ∷ stack) else next (top ∷ below ∷ stack)

-- At a `;` the pending `<` must have been operators.
unfoldable pub end_statement : Stack → Step
end_statement [] = stop unclosed
end_statement (top ∷ stack) = next (top ∷ stack)

-- The branches of the loop's body, for the character `char` at position `i`
unfoldable pub end_branch : Kind → Text → ℕ → ℕ → Stack → Step
end_branch opening line i char stack = next (char ∷ stack)
end_branch less line i char stack =
    if has_before line i b'<'
    then shift_left stack
    else if ltb 0 i && ends_in_operator (take i line)
    then next stack
    else next (b'<' ∷ stack)
end_branch closing line i char stack = close_top i char (drop_top b'<' stack)
end_branch greater line i char stack =
    if ltb 0 i && (has_before line i b'-' || ends_in_operator (take (i - 1) line))
    then next stack
    else close_angle i stack
end_branch semicolon line i char stack = end_statement (drop_top b'<' stack)
end_branch plain line i char stack = next stack

unfoldable pub end_step : Text → ℕ → ℕ → Stack → Step
end_step line i char stack = end_branch (kind_of char) line i char stack

-- The loop from position `i`, over the characters from there on
unfoldable pub end_loop : Text → ℕ → Text → Stack → Scan
end_loop line i [] stack = pending stack
end_loop line i (char ∷ chars) stack =
    let go = end_loop line (i + 1) chars in after_step (end_step line i char stack) go go

unfoldable pub find_end_of_expression_in_line : Text → ℕ → Stack → Scan
find_end_of_expression_in_line line startpos stack =
    end_loop line startpos (drop startpos line) stack

-- The loop over the lines behind `linenum`, where the scan of the line `line` gave a result
unfoldable pub close_loop : ℕ → List Text → ℕ → Text → Scan → Location
close_loop num lines linenum line (found n) = record {
  line = line;
  linenum = linenum;
  pos = some n;
}
close_loop num lines linenum line unclosed = record { line = line; linenum = num; pos = none }
close_loop num lines linenum line (pending []) = record { line = line; linenum = num; pos = none }
close_loop num [] linenum line (pending (top ∷ stack)) = record {
  line = line;
  linenum = num;
  pos = none;
}
close_loop num (line' ∷ lines) linenum line (pending (top ∷ stack)) =
    close_loop num lines (linenum + 1) line' (find_end_of_expression_in_line line' 0 (top ∷ stack))

unfoldable pub close_from : CleansedLines → ℕ → ℕ → ℕ → Location
close_from clean_lines linenum pos char =
    let line = get_or clean_lines.elided linenum [] in
    if not (is_opening char || char == b'<') || is_match (txt "<[<=]") (drop pos line)
    then record { line = line; linenum = clean_lines.num_lines; pos = none }
    else close_loop clean_lines.num_lines (drop (linenum + 1) clean_lines.elided) linenum line
        (find_end_of_expression_in_line line pos [])

-- `CloseExpression`; none is an IndexError, for a position that is not on the line
unfoldable pub close_expression : CleansedLines → ℕ → ℕ → Option Location
close_expression clean_lines linenum pos =
    elim (get_elem? (get_or clean_lines.elided linenum []) pos) [
      | none ↦ none
      | some char ↦ some (close_from clean_lines linenum pos char)
    ]
