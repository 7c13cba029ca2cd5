-- ===== src/Expression/Moves.antt =====
-- How far `CloseExpression` moves on, whatever it starts from.
use netier.Base.{
  ℕ, ◌+◌, ◌-◌, ◌≤◌, ◌<◌, Bool, true, false, ◌&&◌, ◌||◌, Option, none, some, List, [], ◌∷◌, ◌≡◌,
  refl, arith, Text, length, get_or, drop, ltb, take, sym, ◌==◌, not, Option-cases, get_elem?,
  subst, txt, inl, inr, if◌then◌else◌,
}
use mathlib.Core.Option.{some-injective}
use netier.Regex.{is_match}
use netier.Cleanse.{CleansedLines}
use netier.Expression.Stack.{
  Stack, Scan, found, unclosed, pending, Step, next, skip, stop, Location, is_opening, kind_of,
  Kind, opening, closing, less, greater, semicolon, plain, after_step, is_pair, drop_top,
}
use netier.Expression.Forward.{
  end_step, end_branch, end_loop, find_end_of_expression_in_line, close_loop, close_from,
  close_expression, has_before, ends_in_operator, close_top, close_angle, shift_left, end_statement,
}
use netier.Expression.Closing.{drop-cons}

abbrev StepMoves : ℕ → Step → Type 0
StepMoves i (stop (found n)) = n ≡ i + 1
StepMoves i _ = Unit

abbrev ScanMoves : Text → ℕ → Scan → Type 0
ScanMoves line i (found n) = (i < n) × (n ≤ length line)
ScanMoves line i _ = Unit

if-moves :
    (b : Bool) (i : ℕ) (s t : Step)
    → StepMoves i s
    → StepMoves i t
    → StepMoves i (if b then s else t)
if-moves true i s t h h' = h
if-moves false i s t h h' = h'

close_top-moves : (i char : ℕ) (stack : Stack) → StepMoves i (close_top i char stack)
unfolding close_top
close_top-moves i char [] = tt
close_top-moves i char (top ∷ []) = if-moves (is_pair top char) i _ _ refl tt
close_top-moves i char (top ∷ below ∷ stack) = if-moves (is_pair top char) i _ _ tt tt

close_angle-moves : (i : ℕ) (stack : Stack) → StepMoves i (close_angle i stack)
unfolding close_angle
close_angle-moves i [] = tt
close_angle-moves i (top ∷ []) = if-moves (top == b'<') i _ _ refl tt
close_angle-moves i (top ∷ below ∷ stack) = if-moves (top == b'<') i _ _ tt tt

shift_left-moves : (i : ℕ) (stack : Stack) → StepMoves i (shift_left stack)
unfolding shift_left
shift_left-moves i [] = tt
shift_left-moves i (top ∷ []) = if-moves (top == b'<') i _ _ tt tt
shift_left-moves i (top ∷ below ∷ stack) = if-moves (top == b'<') i _ _ tt tt

end_statement-moves : (i : ℕ) (stack : Stack) → StepMoves i (end_statement stack)
unfolding end_statement
end_statement-moves i [] = tt
end_statement-moves i (top ∷ stack) = tt

end_branch-moves :
    (kind : Kind) (line : Text) (i char : ℕ) (stack : Stack)
    → StepMoves i (end_branch kind line i char stack)
unfolding end_branch
end_branch-moves opening line i char stack = tt
end_branch-moves less line i char stack =
    if-moves (has_before line i b'<') i _ _ (shift_left-moves i stack)
      (if-moves (ltb 0 i && ends_in_operator (take i line)) i _ _ tt tt)
end_branch-moves closing line i char stack = close_top-moves i char (drop_top b'<' stack)
end_branch-moves greater line i char stack =
    if-moves (ltb 0 i && (has_before line i b'-' || ends_in_operator (take (i - 1) line))) i
      (next stack) (close_angle i stack) tt (close_angle-moves i stack)
end_branch-moves semicolon line i char stack = end_statement-moves i (drop_top b'<' stack)
end_branch-moves plain line i char stack = tt

earlier : (line : Text) (i : ℕ) (s : Scan) → ScanMoves line (i + 1) s → ScanMoves line i s
earlier line i (found n) (a, b) = (omega arith, b)
earlier line i unclosed h = tt
earlier line i (pending stack) h = tt

after_step-moves :
    (line : Text) (i char : ℕ) (chars : Text) (step : Step) (go : Stack → Scan)
    → drop i line ≡ char ∷ chars
    → StepMoves i step
    → ((stack : Stack) → ScanMoves line (i + 1) (go stack))
    → ScanMoves line i (after_step step go go)
after_step-moves line i char chars (next stack) go d h f = earlier line i _ (f stack)
after_step-moves line i char chars (skip stack) go d h f = earlier line i _ (f stack)
after_step-moves line i char chars (stop (found n)) go d h f =
    let (l, _, _) = drop-cons i line char chars 0 d in (omega arith, omega arith)
after_step-moves line i char chars (stop unclosed) go d h f = tt
after_step-moves line i char chars (stop (pending stack)) go d h f = tt

end_loop-moves :
    (line : Text) (i : ℕ) (chars : Text) (stack : Stack)
    → drop i line ≡ chars
    → ScanMoves line i (end_loop line i chars stack)
unfolding end_loop end_step
end_loop-moves line i [] stack d = tt
end_loop-moves line i (char ∷ chars) stack d =
    after_step-moves line i char chars _ (end_loop line (i + 1) chars) d
      (end_branch-moves (kind_of char) line i char stack)
      (λ s. end_loop-moves line (i + 1) chars s (drop-cons i line char chars 0 d).2)

-- A place that is found lies on the line or behind it, and on its own line behind the start.
abbrev pub PosMoves : List Text → ℕ → ℕ → ℕ → Option ℕ → Type 0
PosMoves elided first start linenum none = Unit
PosMoves elided first start linenum (some p) =
    (first ≤ linenum)
    × (linenum < length elided)
    × (p ≤ length (get_or elided linenum []))
    × (linenum ≡ first → start < p)

close_loop-moves :
    (lines elided : List Text) (num linenum first start start' : ℕ) (line : Text) (scan : Scan)
    → drop (linenum + 1) elided ≡ lines
    → line ≡ get_or elided linenum []
    → linenum < length elided
    → first ≤ linenum
    → (linenum ≡ first → start ≤ start')
    → ScanMoves line start' scan
    → let l = close_loop num lines linenum line scan in PosMoves elided first start l.linenum l.pos
unfolding close_loop find_end_of_expression_in_line
close_loop-moves lines elided num linenum first start start' line (found n) d e a f g (x, y) =
    (f, a, rw⁻¹ e y, λ q. let z = g q in omega arith)
close_loop-moves lines elided num linenum first start start' line unclosed d e a f g h = tt
close_loop-moves lines elided num linenum first start start' line (pending []) d e a f g h = tt
close_loop-moves [] elided num linenum first start start' line (pending (top ∷ stack)) d e a f g h =
    tt
close_loop-moves (line' ∷ lines) elided num linenum first start start' line (pending (top ∷ stack))
      d e a f g h =
    let (m, get, rest) = drop-cons (linenum + 1) elided line' lines [] d in
    close_loop-moves lines elided num (linenum + 1) first start 0 line' _ rest (sym get) m
      (omega arith) (λ x. absurd (omega arith)) (end_loop-moves line' 0 line' (top ∷ stack) refl)

LocationMoves : List Text → ℕ → ℕ → Location → Type 0
LocationMoves elided first start l = PosMoves elided first start l.linenum l.pos

if-location :
    (b : Bool) (elided : List Text) (first start : ℕ) (k l : Location)
    → LocationMoves elided first start k
    → LocationMoves elided first start l
    → LocationMoves elided first start (if b then k else l)
if-location true elided first start k l h h' = h
if-location false elided first start k l h h' = h'

close_from-moves :
    (c : CleansedLines) (linenum pos char : ℕ)
    → linenum < length c.elided
    → LocationMoves c.elided linenum pos (close_from c linenum pos char)
unfolding close_from find_end_of_expression_in_line LocationMoves
close_from-moves c linenum pos char a =
    let line = get_or c.elided linenum [] in
    if-location (not (is_opening char || char == b'<') || is_match (txt "<[<=]") (drop pos line))
      c.elided linenum pos _ _ tt
      (close_loop-moves (drop (linenum + 1) c.elided) c.elided c.num_lines linenum linenum pos pos
        line _ refl refl a (omega arith) (λ x. omega arith)
        (end_loop-moves line pos (drop pos line) [] refl))

-- Whatever character it starts from, `CloseExpression` ends at no place, or on one of the elided
-- lines, at a place of that line that lies behind the start.
pub close_expression-moves :
    (c : CleansedLines) (linenum pos : ℕ) (l : Location)
    → linenum < length c.elided
    → close_expression c linenum pos ≡ some l
    → PosMoves c.elided linenum pos l.linenum l.pos
unfolding close_expression LocationMoves
close_expression-moves c linenum pos l a e =
    elim (Option-cases (get_elem? (get_or c.elided linenum []) pos)) [
      | inl g ↦ let e' = rw (g, close_expression) at e in ground arith
      | inr (char, g) ↦
          let e' : close_from c linenum pos char ≡ l =
            some-injective _ _ (rw (g, close_expression) at e) in
          subst (LocationMoves c.elided linenum pos) e' (close_from-moves c linenum pos char a)
    ]
