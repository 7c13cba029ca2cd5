-- ===== src/Expression/Closing.antt =====
-- Where `CloseExpression` ends.
use netier.Base.{
  ℕ, zero, suc, ◌+◌, ◌≤◌, ◌<◌, true, false, ◌&&◌, Option, none, some, List, [], ◌∷◌, ◌≡◌, refl, ◌⊎◌,
  arith, Text, length, get_or, get_elem?, drop, ltb, take, sym, subst,
}
use mathlib.Core.Option.{some-injective}
use netier.Cleanse.{CleansedLines}
use netier.Expression.Stack.{
  Stack, Scan, found, unclosed, pending, Step, next, skip, stop, Location, is_opening, kind_of,
  after_step,
}
use netier.Expression.Forward.{
  end_step, end_branch, end_loop, find_end_of_expression_in_line, close_loop, close_from,
  close_expression, has_before, ends_in_operator,
}
use netier.Expression.Bottom.{closes, HasBottom, StepKeeps, end_step-keeps}

-- A scan of a line from position `i`, of an expression that the bracket `b` opens.
abbrev pub ScanKeeps : ℕ → Text → ℕ → Scan → Type 0
ScanKeeps b line i (found n) =
    (k : ℕ) × (n ≡ suc k) × (i ≤ k) × (k < length line) × (closes b (get_or line k 0) ≡ true)
ScanKeeps b line i unclosed = Unit
ScanKeeps b line i (pending stack) = HasBottom b stack

module _ {ℓ} {A : Type ℓ} where
  -- What stands at the head behind `i` elements.
  pub drop-cons :
      (i : ℕ) (xs : List A) (x : A) (ys : List A) (d : A)
      → drop i xs ≡ x ∷ ys
      → (i < length xs) × (get_or xs i d ≡ x) × (drop (i + 1) xs ≡ ys)
  drop-cons zero [] x ys d h = cc
  drop-cons zero (z ∷ zs) x ys d h = ground arith
  drop-cons (suc i) [] x ys d h = cc
  drop-cons (suc i) (z ∷ zs) x ys d h =
      let (l, g, r) = drop-cons i zs x ys d h in
      (omega arith, g, let e : suc i + 1 ≡ suc (i + 1) = omega arith in rw e r)

module _ {ℓ} {A : Type ℓ} where
  pub drop-get :
      (xs : List A) (i : ℕ) (x : A)
      → get_elem? xs i ≡ some x
      → (drop i xs ≡ x ∷ drop (i + 1) xs) × (i < length xs)
  drop-get [] i x h = cc
  drop-get (y ∷ ys) zero x h = ground arith
  drop-get (y ∷ ys) (suc i) x h =
      let (d, l) = drop-get ys i x h in
      (let e : suc i + 1 ≡ suc (i + 1) = omega arith in rw e d, omega arith)

step_found :
    (b i n char : ℕ) (line chars : Text)
    → drop i line ≡ char ∷ chars
    → (n ≡ i + 1) × (closes b char ≡ true)
    → ScanKeeps b line i (found n)
step_found b i n char line chars d (e, c) =
    let (l, g, _) = drop-cons i line char chars 0 d in (i, omega arith, omega arith, l, rw g c)

weaken : (b i : ℕ) (line : Text) (s : Scan) → ScanKeeps b line (i + 1) s → ScanKeeps b line i s
weaken b i line (found n) (k, e, l, m, c) = (k, e, omega arith, m, c)
weaken b i line unclosed h = h
weaken b i line (pending stack) h = h

after_step-keeps :
    (b i char : ℕ) (line chars : Text) (step : Step) (go : Stack → Scan)
    → drop i line ≡ char ∷ chars
    → StepKeeps b i char step
    → ((stack : Stack) → HasBottom b stack → ScanKeeps b line (i + 1) (go stack))
    → ScanKeeps b line i (after_step step go go)
after_step-keeps b i char line chars (next stack) go d h f = weaken b i line _ (f stack h)
after_step-keeps b i char line chars (skip stack) go d h f = absurd h
after_step-keeps b i char line chars (stop (found n)) go d h f =
    step_found b i n char line chars d h
after_step-keeps b i char line chars (stop unclosed) go d h f = tt
after_step-keeps b i char line chars (stop (pending stack)) go d h f = absurd h

stack_step :
    (line : Text) (i char b : ℕ) (stack : Stack)
    → HasBottom b stack
    → StepKeeps b i char (end_step line i char stack)
stack_step line i char b [] h = absurd h
stack_step line i char b (top ∷ stack) h = end_step-keeps line i char b top stack h

end_loop-keeps :
    (chars line : Text) (b i : ℕ) (stack : Stack)
    → drop i line ≡ chars
    → HasBottom b stack
    → ScanKeeps b line i (end_loop line i chars stack)
unfolding end_loop
end_loop-keeps [] line b i stack d h = h
end_loop-keeps (char ∷ chars) line b i stack d h =
    let (_, _, rest) = drop-cons i line char chars 0 d in
    after_step-keeps b i char line chars _ _ d (stack_step line i char b stack h)
      (λ stack' h'. end_loop-keeps chars line b (i + 1) stack' rest h')

-- A bracket at `pos` that the scan takes for an opening one
abbrev pub Opens : Text → ℕ → ℕ → Type 0
Opens line pos char =
    (is_opening char ≡ true)
    ⊎ ((char ≡ b'<')
        × (has_before line pos b'<' ≡ false)
        × ((ltb 0 pos && ends_in_operator (take pos line)) ≡ false))

first_step :
    (line : Text) (pos char : ℕ)
    → Opens line pos char
    → end_step line pos char [] ≡ next (char ∷ [])
unfolding end_step end_branch kind_of
first_step line pos char h = ground arith

first_scan :
    (line : Text) (pos char : ℕ)
    → get_elem? line pos ≡ some char
    → Opens line pos char
    → ScanKeeps char line pos (find_end_of_expression_in_line line pos [])
unfolding find_end_of_expression_in_line end_loop
first_scan line pos char g h =
    let (d, l) = drop-get line pos char g in
    rw (d, end_loop, first_step line pos char h)
      (weaken char pos line _
        (end_loop-keeps (drop (pos + 1) line) line char (pos + 1) (char ∷ []) refl refl))

-- The place just behind the bracket that closes `b`, on a line from `first` on, and on that line
-- not in front of `start`
abbrev pub IsClosed : ℕ → List Text → ℕ → ℕ → Location → Option ℕ → Type 0
IsClosed b elided first start l none = Unit
IsClosed b elided first start l (some n) =
    (k : ℕ) × (n ≡ suc k)
    × (first ≤ l.linenum)
    × (l.linenum < length elided)
    × (l.line ≡ get_or elided l.linenum [])
    × (k < length l.line)
    × (closes b (get_or l.line k 0) ≡ true)
    × (l.linenum ≡ first → start ≤ k)

close_loop-keeps :
    (lines elided : List Text) (num linenum first start start' b : ℕ) (line : Text) (s : Scan)
    → drop (linenum + 1) elided ≡ lines
    → line ≡ get_or elided linenum []
    → linenum < length elided
    → first ≤ linenum
    → (linenum ≡ first → start ≤ start')
    → ScanKeeps b line start' s
    → let l = close_loop num lines linenum line s in IsClosed b elided first start l l.pos
unfolding close_loop find_end_of_expression_in_line
close_loop-keeps lines elided num linenum first start start' b line (found n) d e a f g h =
    let (k, q, i, m, c) = h in (k, q, f, a, e, m, c, λ x. let p = g x in omega arith)
close_loop-keeps lines elided num linenum first start start' b line unclosed d e a f g h = tt
close_loop-keeps lines elided num linenum first start start' b line (pending []) d e a f g h = tt
close_loop-keeps [] elided num linenum first start start' b line (pending (top ∷ stack)) d e a f g
      h =
    tt
close_loop-keeps (line' ∷ lines) elided num linenum first start start' b line
      (pending (top ∷ stack)) d e a f g h =
    let (m, get, rest) = drop-cons (linenum + 1) elided line' lines [] d in
    close_loop-keeps lines elided num (linenum + 1) first start 0 b line' _ rest (sym get) m
      (omega arith) (λ x. absurd (omega arith))
      (end_loop-keeps line' line' b 0 (top ∷ stack) refl h)

close_from-IsClosed :
    (c : CleansedLines) (linenum pos char : ℕ)
    → linenum < length c.elided
    → get_elem? (get_or c.elided linenum []) pos ≡ some char
    → Opens (get_or c.elided linenum []) pos char
    → let l = close_from c linenum pos char in IsClosed char c.elided linenum pos l l.pos
unfolding close_from
close_from-IsClosed c linenum pos char n g h = ground (
  arith,
  close_loop-keeps (drop (linenum + 1) c.elided) c.elided c.num_lines linenum linenum pos pos char
      (get_or c.elided linenum [])
      (find_end_of_expression_in_line (get_or c.elided linenum []) pos []) refl refl n (omega arith)
      (λ x. omega arith) (first_scan (get_or c.elided linenum []) pos char g h),
)

-- When `CloseExpression` finds a place for a bracket that opens an expression, the place lies just
-- behind a character that closes this very kind of bracket, on that line of the elided lines, which
-- is the bracket's line or a later one, and on its own line not in front of the bracket.
pub close_expression-IsClosed :
    (c : CleansedLines) (linenum pos char : ℕ) (l : Location)
    → linenum < length c.elided
    → get_elem? (get_or c.elided linenum []) pos ≡ some char
    → Opens (get_or c.elided linenum []) pos char
    → close_expression c linenum pos ≡ some l
    → IsClosed char c.elided linenum pos l l.pos
unfolding close_expression
close_expression-IsClosed c linenum pos char l n g h e =
    let e' : close_from c linenum pos char ≡ l =
      some-injective _ _ (rw (g, close_expression) at e) in
    subst (λ m. IsClosed char c.elided linenum pos m m.pos) e'
      (close_from-IsClosed c linenum pos char n g h)
