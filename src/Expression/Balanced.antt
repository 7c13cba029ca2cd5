-- ===== src/Expression/Balanced.antt =====
-- The scan to the end on text that is balanced.
use netier.Base.{
  ℕ, zero, suc, ◌+◌, true, false, some, [], ◌∷◌, ◌++◌, ◌≡◌, ◌⊎◌, arith, ◌==◌, Text, length, get_or,
  drop, append_assoc, ◌∙◌, length-append, txt, get_elem?, ap,
}
use netier.Regex.{is_match, match_re}
use netier.Expression.Stack.{
  Stack, found, next, stop, is_pair, kind_of, opening, closing, plain, semicolon, drop_top,
}
use netier.Expression.Forward.{
  end_step, end_branch, end_loop, find_end_of_expression_in_line, close_top, end_statement,
  close_loop, close_from, close_expression,
}
use netier.Cleanse.{CleansedLines}

-- Text with brackets in pairs, and without angle brackets.
pub data Balanced : Text → Type 0 where
  nothing : Balanced []
  other :
      {c : ℕ} {s : Text}
      → (kind_of c ≡ plain) ⊎ (kind_of c ≡ semicolon)
      → Balanced s
      → Balanced (c ∷ s)
  bracket :
      {a : ℕ} {u : Text} (b : ℕ) (s t : Text)
      → is_pair a b ≡ true
      → Balanced s
      → Balanced t
      → u ≡ s ++ (b ∷ t)
      → Balanced (a ∷ u)

is_pair-kinds :
    (a b : ℕ)
    → is_pair a b ≡ true
    → (kind_of a ≡ opening) × (kind_of b ≡ closing) × ((a == b'<') ≡ false)
unfolding kind_of
is_pair-kinds a b h = ground arith

-- A stack whose top is not a pending `<`.
abbrev IsFirm : Stack → Type 0
IsFirm [] = ⊥
IsFirm (top ∷ stack) = (top == b'<') ≡ false

other_step :
    (line : Text) (i c : ℕ) (stack : Stack)
    → (kind_of c ≡ plain) ⊎ (kind_of c ≡ semicolon)
    → IsFirm stack
    → end_step line i c stack ≡ next stack
unfolding end_step end_branch end_statement drop_top
other_step line i c [] k h = absurd h
other_step line i c (top ∷ stack) k h = ground arith

open_step :
    (line : Text) (i a : ℕ) (stack : Stack)
    → kind_of a ≡ opening
    → end_step line i a stack ≡ next (a ∷ stack)
unfolding end_step end_branch
open_step line i a stack h = rw h

close_step :
    (line : Text) (i a b : ℕ) (stack : Stack)
    → is_pair a b ≡ true
    → IsFirm stack
    → end_step line i b (a ∷ stack) ≡ next stack
unfolding end_step end_branch drop_top close_top
close_step line i a b [] p f = absurd f
close_step line i a b (top ∷ stack) p f = ground (arith, is_pair-kinds a b p)

last_step :
    (line : Text) (i a b : ℕ)
    → is_pair a b ≡ true
    → end_step line i b (a ∷ []) ≡ stop (found (i + 1))
unfolding end_step end_branch drop_top close_top
last_step line i a b p = ground (arith, is_pair-kinds a b p)

-- The scan passes over balanced text and leaves the stack as it was.
end_loop-Balanced :
    {s : Text} (line rest : Text) (i : ℕ) (stack : Stack)
    → Balanced s
    → IsFirm stack
    → end_loop line i (s ++ rest) stack ≡ end_loop line (i + length s) rest stack
unfolding end_loop
end_loop-Balanced line rest i stack nothing f = let e : i + 0 ≡ i = omega arith in rw e
end_loop-Balanced line rest i stack (other {c} {s} k t) f =
    let e : i + suc (length s) ≡ i + 1 + length s = omega arith in
    rw (e, other_step line i c stack k f) (end_loop-Balanced line rest (i + 1) stack t f)
end_loop-Balanced line rest i stack (bracket {a} {u} b s t p x y e) f =
    let n : i + suc (length (s ++ (b ∷ t))) ≡ i + 1 + length s + 1 + length t =
      omega (arith, length-append {0} s (b ∷ t)) in
    let (ka, kb, firm) = is_pair-kinds a b p in
    rw (e, n, open_step line i a stack ka, append_assoc)
      (end_loop-Balanced line (b ∷ (t ++ rest)) (i + 1) (a ∷ stack) x firm
        ∙ rw (close_step line (i + 1 + length s) a b stack p f, end_loop)
            (end_loop-Balanced line rest (i + 1 + length s + 1) stack y f))

-- A bracket, balanced text and the bracket that closes it, at a position of a line
pub find_end-Balanced :
    {s : Text} (line rest : Text) (pos a b : ℕ)
    → is_pair a b ≡ true
    → Balanced s
    → drop pos line ≡ a ∷ (s ++ (b ∷ rest))
    → find_end_of_expression_in_line line pos [] ≡ found (pos + length s + 2)
unfolding find_end_of_expression_in_line end_loop
find_end-Balanced {s} line rest pos a b p x d =
    let (ka, kb, firm) = is_pair-kinds a b p in
    let n : pos + 1 + length s + 1 ≡ pos + length s + 2 = omega arith in
    rw (d, end_loop, open_step line pos a [] ka)
      (end_loop-Balanced line (b ∷ rest) (pos + 1) (a ∷ []) x firm
        ∙ rw (end_loop, last_step line (pos + 1 + length s) a b p, n))

no_shift : (a : ℕ) (s : Text) → (a == b'<') ≡ false → is_match (txt "<[<=]") (a ∷ s) ≡ false
unfolding match_re txt
no_shift a s h = ground arith

get_of_drop :
    (line : Text) (pos a : ℕ) (rest : Text) → drop pos line ≡ a ∷ rest → get_elem? line pos ≡ some a
get_of_drop [] zero a rest h = cc
get_of_drop [] (suc pos) a rest h = cc
get_of_drop (x ∷ line) zero a rest h = ground arith
get_of_drop (x ∷ line) (suc pos) a rest h = get_of_drop line pos a rest h

close_from-Balanced :
    {s : Text} (c : CleansedLines) (linenum pos a b : ℕ) (rest : Text)
    → is_pair a b ≡ true
    → Balanced s
    → drop pos (get_or c.elided linenum []) ≡ a ∷ (s ++ (b ∷ rest))
    → close_from c linenum pos a ≡ record {
      line = get_or c.elided linenum [];
      linenum = linenum;
      pos = some (pos + length s + 2);
    }
unfolding close_from close_loop
close_from-Balanced {s} c linenum pos a b rest p x d = ground (
  arith,
  no_shift a (s ++ (b ∷ rest)),
  find_end-Balanced (get_or c.elided linenum []) rest pos a b p x d,
)

-- On a line with no angle brackets `CloseExpression` finds the right bracket: between a `(`, `[` or
-- `{` and the place that it returns stand balanced text and the closing bracket, on the same line.
pub close_expression-Balanced :
    {s : Text} (c : CleansedLines) (linenum pos a b : ℕ) (rest : Text)
    → is_pair a b ≡ true
    → Balanced s
    → drop pos (get_or c.elided linenum []) ≡ a ∷ (s ++ (b ∷ rest))
    → close_expression c linenum pos
      ≡ some (record {
        line = get_or c.elided linenum [];
        linenum = linenum;
        pos = some (pos + length s + 2);
      })
unfolding close_expression
close_expression-Balanced c linenum pos a b rest p x d =
    rw (get_of_drop _ pos a _ d, close_expression)
      (ap some (close_from-Balanced c linenum pos a b rest p x d))
