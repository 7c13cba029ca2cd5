-- ===== src/Nesting/Places.antt =====
-- The rounds of the loop of `InTemplateArgumentList`.
use netier.Base.{
  ℕ, zero, suc, ◌+◌, ◌-◌, ◌≤◌, ◌<◌, Bool, true, false, Option, none, some, List, [], ◌∷◌, ◌≡◌, refl,
  arith, ◌∙◌, Text, txt, get_or, length, drop, leb, ◌==◌, Option-cases, Bool-cases, inl, inr,
  if◌then◌else◌,
}
use netier.Regex.{match_re, group_or_empty}
use netier.Regex.Groups.{match_re-end, template_pattern}
use netier.Cleanse.{CleansedLines}
use netier.Expression.Stack.{Location}
use netier.Expression.Forward.{close_expression}
use netier.Expression.Moves.{PosMoves, close_expression-moves}
use netier.Nesting.Template.{
  Round, answer, go_on, after_expression, next_place, one_of_codes, token_round, match_round,
  template_round, after_round, template_loop, total_length, in_template_argument_list,
}

total_length-drop :
    (lines : List Text) (i : ℕ)
    → i < length lines
    → total_length (drop i lines)
      ≡ length (get_or lines i []) + 1 + total_length (drop (i + 1) lines)
unfolding total_length
total_length-drop [] i h = absurd (omega arith)
total_length-drop (line ∷ lines) zero h = omega arith
total_length-drop (line ∷ lines) (suc i) h =
    let e : suc i + 1 ≡ suc (i + 1) = omega arith in rw e (total_length-drop lines i (omega arith))

total_length_mono :
    (lines : List Text) (i j : ℕ)
    → i ≤ j
    → total_length (drop j lines) ≤ total_length (drop i lines)
unfolding total_length
total_length_mono [] zero zero h = omega arith
total_length_mono [] zero (suc j) h = omega arith
total_length_mono [] (suc i) zero h = omega arith
total_length_mono [] (suc i) (suc j) h = omega arith
total_length_mono (line ∷ lines) zero zero h = omega arith
total_length_mono (line ∷ lines) zero (suc j) h =
    omega (arith, total_length_mono lines 0 j (omega arith))
total_length_mono (line ∷ lines) (suc i) zero h = absurd (omega arith)
total_length_mono (line ∷ lines) (suc i) (suc j) h = total_length_mono lines i j (omega arith)

-- What is left of the lines from a place on
abbrev weight : List Text → ℕ → ℕ → ℕ
weight lines linenum pos = total_length (drop linenum lines) - pos

abbrev RoundMoves : List Text → ℕ → ℕ → Round → Type 0
RoundMoves lines linenum pos (answer b) = Unit
RoundMoves lines linenum pos (go_on linenum' pos') =
    (suc (weight lines linenum' pos') ≤ weight lines linenum pos)
    × (pos' ≤ length (get_or lines linenum' []))

if-moves :
    (b : Bool) (lines : List Text) (linenum pos : ℕ) (x y : Round)
    → RoundMoves lines linenum pos x
    → RoundMoves lines linenum pos y
    → RoundMoves lines linenum pos (if b then x else y)
if-moves true lines linenum pos x y h h' = h
if-moves false lines linenum pos x y h h' = h'

module _ (lines : List Text) (linenum pos : ℕ) (inside : linenum < length lines)
    (on_line : pos ≤ length (get_or lines linenum [])) where
  next_line-moves : RoundMoves lines linenum pos (go_on (linenum + 1) 0)
  next_line-moves = (omega (arith, total_length-drop lines linenum inside), omega arith)

  next_place-moves :
      (pos' : ℕ)
      → pos < pos'
      → RoundMoves lines linenum pos (next_place linenum pos' (get_or lines linenum []))
  unfolding next_place
  next_place-moves pos' h = elim (Bool-cases (leb (length (get_or lines linenum [])) pos')) [
    | inl e ↦ rw e next_line-moves
    | inr e ↦ rw e (ground (arith, total_length-drop lines linenum inside), ground arith)
  ]

  later_line-moves :
      (linenum' pos' : ℕ)
      → linenum ≤ linenum'
      → linenum' < length lines
      → pos' ≤ length (get_or lines linenum' [])
      → (linenum' ≡ linenum → pos < pos')
      → RoundMoves lines linenum pos (go_on linenum' pos')
  later_line-moves linenum' pos' a b c d = elim (Bool-cases (linenum' == linenum)) [
    | inl e ↦
        let q : linenum' ≡ linenum = ground arith in
        let c' = rw q at c in
        let d' = d q in (rw q (omega (arith, total_length-drop lines linenum inside)), c)
    | inr e ↦
        let q : linenum + 1 ≤ linenum' = ground arith in
        (
          omega (
            arith,
            total_length-drop lines linenum inside,
            total_length_mono lines (linenum + 1) linenum' q,
          ),
          c,
        )
  ]

  end_pos-moves :
      (start linenum' : ℕ) (o : Option ℕ)
      → pos ≤ start
      → PosMoves lines linenum start linenum' o
      → RoundMoves lines linenum pos
          (elim o [ some end_pos ↦ go_on linenum' end_pos | none ↦ answer false ])
  end_pos-moves start linenum' none h m = tt
  end_pos-moves start linenum' (some end_pos) h (a, b, c, d) =
      later_line-moves linenum' end_pos a b c (λ q. let x = d q in omega arith)

  after_expression-moves :
      (start : ℕ) (o : Option Location)
      → pos ≤ start
      → ((l : Location) → o ≡ some l → PosMoves lines linenum start l.linenum l.pos)
      → RoundMoves lines linenum pos (after_expression o)
  unfolding after_expression
  after_expression-moves start none h f = tt
  after_expression-moves start (some l) h f = end_pos-moves start l.linenum l.pos h (f l refl)

module _ (c : CleansedLines) (linenum pos : ℕ) (inside : linenum < length c.elided)
    (on_line : pos ≤ length (get_or c.elided linenum [])) where
  token_round-moves :
      (pos' token : ℕ)
      → pos < pos'
      → RoundMoves c.elided linenum pos
          (token_round c linenum pos' token (get_or c.elided linenum []))
  unfolding token_round
  token_round-moves pos' token h =
      if-moves (one_of_codes token (b'{' ∷ b'}' ∷ b';' ∷ [])) c.elided linenum pos _ _ tt (
        if-moves (one_of_codes token (b'>' ∷ b'=' ∷ b'[' ∷ b']' ∷ b'.' ∷ [])) c.elided linenum pos _
          _ tt
          (if-moves (token == b'<') c.elided linenum pos _ _
            (after_expression-moves c.elided linenum pos inside on_line (pos' - 1)
              (close_expression c linenum (pos' - 1)) (omega arith)
              (λ l e. close_expression-moves c linenum (pos' - 1) l inside e))
            (next_place-moves c.elided linenum pos inside on_line (pos' + 1) (omega arith))))

  template_round-moves : RoundMoves c.elided linenum pos (template_round c linenum pos)
  unfolding template_round match_round
  template_round-moves =
      let line = get_or c.elided linenum [] in
      elim (Option-cases (match_re (txt "^[^{};=\\[\\]\\.<>]*(.)") (drop pos line))) [
        | inl e ↦ rw (e, template_round) (next_line-moves c.elided linenum pos inside on_line)
        | inr (m, e) ↦
            let (moves, ends) = match_re-end 2 _ (drop pos line) m template_pattern e in
            rw (e, template_round)
              (token_round-moves (pos + m.stop) (get_or (group_or_empty 1 m) 0 0) (omega arith))
      ]

after_round-same :
    (lines : List Text) (linenum pos : ℕ) (r : Round) (go go' : ℕ → ℕ → Option Bool)
    → RoundMoves lines linenum pos r
    → ((linenum' pos' : ℕ)
        → suc (weight lines linenum' pos') ≤ weight lines linenum pos
        → pos' ≤ length (get_or lines linenum' [])
        → go linenum' pos' ≡ go' linenum' pos')
    → after_round r go ≡ after_round r go'
unfolding after_round
after_round-same lines linenum pos (answer b) go go' h f = refl
after_round-same lines linenum pos (go_on linenum' pos') go go' (a, b) f = f linenum' pos' a b

template_loop-enough :
    (c : CleansedLines) (fuel fuel' linenum pos : ℕ)
    → c.num_lines ≡ length c.elided
    → pos ≤ length (get_or c.elided linenum [])
    → suc (weight c.elided linenum pos) ≤ fuel
    → suc (weight c.elided linenum pos) ≤ fuel'
    → template_loop fuel c linenum pos ≡ template_loop fuel' c linenum pos
unfolding template_loop
template_loop-enough c zero fuel' linenum pos n p h h' = absurd (omega arith)
template_loop-enough c (suc fuel) zero linenum pos n p h h' = absurd (omega arith)
template_loop-enough c (suc fuel) (suc fuel') linenum pos n p h h' =
    elim (Bool-cases (leb c.num_lines linenum)) [
      | inl e ↦ rw e refl
      | inr e ↦
          let inside : linenum < length c.elided = ground arith in
          rw e (
            after_round-same c.elided linenum pos (template_round c linenum pos)
              (template_loop fuel c) (template_loop fuel' c)
              (template_round-moves c linenum pos inside p)
              (λ linenum' pos' a b.
                template_loop-enough c fuel fuel' linenum' pos' n b (omega arith) (omega arith)))
    ]

abbrev Ends : Option Bool → Type 0
Ends o = (b : Bool) × (o ≡ some b)

after_round-Ends :
    (lines : List Text) (linenum pos : ℕ) (r : Round) (go : ℕ → ℕ → Option Bool)
    → RoundMoves lines linenum pos r
    → ((linenum' pos' : ℕ)
        → suc (weight lines linenum' pos') ≤ weight lines linenum pos
        → pos' ≤ length (get_or lines linenum' [])
        → Ends (go linenum' pos'))
    → Ends (after_round r go)
unfolding after_round
after_round-Ends lines linenum pos (answer b) go h f = (b, refl)
after_round-Ends lines linenum pos (go_on linenum' pos') go (a, b) f = f linenum' pos' a b

template_loop-Ends :
    (c : CleansedLines) (fuel linenum pos : ℕ)
    → c.num_lines ≡ length c.elided
    → pos ≤ length (get_or c.elided linenum [])
    → suc (weight c.elided linenum pos) ≤ fuel
    → Ends (template_loop fuel c linenum pos)
unfolding template_loop
template_loop-Ends c zero linenum pos n p h = absurd (omega arith)
template_loop-Ends c (suc fuel) linenum pos n p h = elim (Bool-cases (leb c.num_lines linenum)) [
  | inl e ↦ rw e (false, refl)
  | inr e ↦
      let inside : linenum < length c.elided = ground arith in
      rw e (
        after_round-Ends c.elided linenum pos (template_round c linenum pos) (template_loop fuel c)
          (template_round-moves c linenum pos inside p)
          (λ linenum' pos' a b. template_loop-Ends c fuel linenum' pos' n b (omega arith)))
]

-- The loop of `InTemplateArgumentList` ends: for lines that are as many as they are said to be, and
-- a position on the line or at its end, it comes to its answer in at most as many rounds as the
-- lines have characters and ends, and one.
pub in_template-ends :
    (c : CleansedLines) (linenum pos : ℕ)
    → c.num_lines ≡ length c.elided
    → pos ≤ length (get_or c.elided linenum [])
    → (fuel : ℕ) → total_length c.elided + 1 ≤ fuel
    → template_loop fuel c linenum pos ≡ some (in_template_argument_list c linenum pos)
unfolding in_template_argument_list
in_template-ends c linenum pos n p fuel h =
    let less = total_length_mono c.elided 0 linenum (omega arith) in
    let (b, e) = template_loop-Ends c (total_length c.elided + 1) linenum pos n p (omega arith) in
    rw e (
      template_loop-enough c fuel (total_length c.elided + 1) linenum pos n p (omega arith)
        (omega arith)
      ∙ e)
