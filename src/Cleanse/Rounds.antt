-- ===== src/Cleanse/Rounds.antt =====
-- The rounds of the loops of `CleanseRawStrings` and `_CollapseStrings`.
use netier.Base.{
  ℕ, zero, suc, ◌+◌, ◌≤◌, Bool, true, false, none, some, [], ◌∷◌, ◌≡◌, refl, ap, ◌∙◌, ◌⊎◌, inl, inr,
  arith, Text, txt, find, find-length, length, length-append, drop, length-drop, Bool-cases,
  Option-cases, if◌then◌else◌,
}
use mathlib.Core.Option.{some-injective}
use netier.Regex.{Found, search_re, group_or_empty}
use netier.Regex.Groups.{match_re-split, match_re-within, quote_pattern, raw_pattern}
use netier.Cleanse.Strings.{
  Round, finish, go_on, collapse_quote, is_number_head, collapse_literal, literal_match,
  quote_match, is_double, collapse_at, collapse_loop, raw_match, raw_start, in_comment,
  same_line_end, delimiter_of, RawLine, raw_loop,
}

same_line_end-shorter :
    (line line' : Text) (m : Found)
    → raw_match line ≡ some m
    → same_line_end m ≡ some line'
    → suc (length line') ≤ length line
unfolding raw_match same_line_end
same_line_end-shorter line line' m e h =
    elim (Option-cases (find (group_or_empty 3 m) (delimiter_of m))) [
      | inl n ↦ let h' = rw (n, same_line_end) at h in ground arith
      | inr (end, f) ↦
          let apart = match_re-split 1 3 3 _ line m raw_pattern e in
          let within = find-length (group_or_empty 3 m) (delimiter_of m) end f in
          let g1 = group_or_empty 1 m in
          let g3 = group_or_empty 3 m in
          let cut = drop (end + length (delimiter_of m)) g3 in
          let h' = some-injective _ _ (rw (f, same_line_end) at h) in
          omega (
            arith,
            ap length h',
            length-append {0} g1 (b'"' ∷ b'"' ∷ cut),
            length-drop {0} (end + length (delimiter_of m)) g3,
          )
    ]

raw_start-match : (line : Text) (m : Found) → raw_start line ≡ some m → raw_match line ≡ some m
unfolding raw_start
raw_start-match line m e = elim (Option-cases (raw_match line)) [
  | inl n ↦ let e' = rw (n, raw_start) at e in ground arith
  | inr (m', n) ↦ elim (Bool-cases (in_comment (group_or_empty 1 m'))) [
    | inl c ↦ let e' = rw (n, c, raw_start) at e in ground arith
    | inr c ↦ n ∙ (rw (n, c, raw_start) at e)
  ]
]

raw_loop-enough :
    (fuel fuel' : ℕ) (line : Text)
    → length line + 1 ≤ fuel
    → length line + 1 ≤ fuel'
    → raw_loop fuel line ≡ raw_loop fuel' line
unfolding raw_loop
raw_loop-enough zero fuel' line h h' = absurd (omega arith)
raw_loop-enough (suc fuel) zero line h h' = absurd (omega arith)
raw_loop-enough (suc fuel) (suc fuel') line h h' = elim (Option-cases (raw_start line)) [
  | inl n ↦ rw (n, raw_loop) refl
  | inr (m, n) ↦ elim (Option-cases (same_line_end m)) [
    | inl o ↦ rw (n, raw_loop) (rw (o, raw_loop) refl)
    | inr (line', o) ↦
        let shorter = same_line_end-shorter line line' m (raw_start-match line m n) o in
        rw (n, raw_loop)
          (rw (o, raw_loop) (raw_loop-enough fuel fuel' line' (omega arith) (omega arith)))
  ]
]

-- With no raw string open at its end, a line has none that begins on it.
pub IsTakenOut : RawLine → Type 0
IsTakenOut (none, line) = raw_start line ≡ none
IsTakenOut (some delimiter, line) = Unit

raw_loop-IsTakenOut :
    (fuel : ℕ) (line : Text)
    → length line + 1 ≤ fuel
    → (result : RawLine) × (raw_loop fuel line ≡ some result) × IsTakenOut result
unfolding raw_loop IsTakenOut
raw_loop-IsTakenOut zero line h = absurd (omega arith)
raw_loop-IsTakenOut (suc fuel) line h = elim (Option-cases (raw_start line)) [
  | inl n ↦ rw (n, raw_loop) ((none, line), refl, n)
  | inr (m, n) ↦ elim (Option-cases (same_line_end m)) [
    | inl o ↦ rw (n, raw_loop) (rw (o, raw_loop) (_, refl, tt))
    | inr (line', o) ↦
        let shorter = same_line_end-shorter line line' m (raw_start-match line m n) o in
        rw (n, raw_loop) (rw (o, raw_loop) (raw_loop-IsTakenOut fuel line' (omega arith)))
  ]
]

-- The loop over the raw strings that begin and end on a line ends, in at most as many rounds as the
-- line has characters and one more; then, with no raw string open, none begins on the line.
pub raw_loop-ends :
    (line : Text)
    → (result : RawLine) × ((fuel : ℕ) → length line + 1 ≤ fuel → raw_loop fuel line ≡ some result)
      × IsTakenOut result
raw_loop-ends line =
    let (result, e, t) = raw_loop-IsTakenOut (length line + 1) line (omega arith) in
    (result, (λ fuel h. raw_loop-enough fuel (length line + 1) line h (omega arith) ∙ e), t)

-- What a round leaves, with one more for a round that goes on
left : Round → ℕ
left (finish result) = 0
left (go_on collapsed elided) = suc (length elided)

if-left :
    (b : Bool) (x y : Round) (l : ℕ)
    → (b ≡ true → left x ≤ l)
    → left y ≤ l
    → left (if b then x else y) ≤ l
if-left true x y l h h' = h refl
if-left false x y l h h' = h'

collapse_quote-left :
    (quote : ℕ) (collapsed elided head tail : Text)
    → left (collapse_quote quote collapsed elided head tail) ≤ suc (length tail)
unfolding left collapse_quote
collapse_quote-left quote collapsed elided head tail =
    elim (Option-cases (find tail (quote ∷ []))) [
      | inl n ↦ rw (n, left) (omega arith)
      | inr (second, n) ↦ rw (n, left) (omega (arith, length-drop {0} (second + 1) tail))
    ]

collapse_literal-left :
    (collapsed head tail : Text)
    → left (collapse_literal collapsed head (literal_match tail)) ≤ suc (suc (length tail))
unfolding left collapse_literal literal_match
collapse_literal-left collapsed head tail = elim (Option-cases (literal_match tail)) [
  | inl n ↦ rw n (omega arith)
  | inr (m, n) ↦ rw n (omega (arith, match_re-within 2 _ (b'\'' ∷ tail) m n))
]

is_number_head-nonempty : (head : Text) → is_number_head head ≡ true → 1 ≤ length head
unfolding is_number_head search_re txt
is_number_head-nonempty [] h = ground arith
is_number_head-nonempty (c ∷ head) h = omega arith

collapse_at-left :
    (collapsed elided : Text)
    → left (collapse_at collapsed elided (quote_match elided)) ≤ length elided
unfolding left collapse_at quote_match
collapse_at-left collapsed elided = elim (Option-cases (quote_match elided)) [
  | inl n ↦ rw n (omega arith)
  | inr (m, n) ↦
      let head = group_or_empty 1 m in
      let tail = group_or_empty 3 m in
      let apart = match_re-split 1 3 1 _ elided m quote_pattern n in
      rw n (
        if-left (is_double (group_or_empty 2 m)) _ _ (length elided)
          (λ h. omega (arith, collapse_quote-left b'"' collapsed elided head tail))
          (if-left (is_number_head head) _ _ (length elided)
            (λ h.
              omega
                (arith, collapse_literal-left collapsed head tail, is_number_head-nonempty head h))
            (omega (arith, collapse_quote-left b'\'' collapsed elided head tail))))
]

round-cases :
    (r : Round)
    → ((result : Text) × (r ≡ finish result))
      ⊎ ((collapsed : Text) × (elided : Text) × (r ≡ go_on collapsed elided))
round-cases (finish result) = inl (result, refl)
round-cases (go_on collapsed elided) = inr (collapsed, elided, refl)

collapse_loop-enough :
    (fuel fuel' : ℕ) (collapsed elided : Text)
    → length elided + 1 ≤ fuel
    → length elided + 1 ≤ fuel'
    → collapse_loop fuel collapsed elided ≡ collapse_loop fuel' collapsed elided
unfolding collapse_loop left
collapse_loop-enough zero fuel' collapsed elided h h' = absurd (omega arith)
collapse_loop-enough (suc fuel) zero collapsed elided h h' = absurd (omega arith)
collapse_loop-enough (suc fuel) (suc fuel') collapsed elided h h' =
    elim (round-cases (collapse_at collapsed elided (quote_match elided))) [
      | inl (result, e) ↦ rw (e, collapse_loop) refl
      | inr (collapsed', elided', e) ↦
          let shorter = rw (e, left) at (collapse_at-left collapsed elided) in
          rw (e, collapse_loop)
            (collapse_loop-enough fuel fuel' collapsed' elided' (omega arith) (omega arith))
    ]

collapse_loop-Ends :
    (fuel : ℕ) (collapsed elided : Text)
    → length elided + 1 ≤ fuel
    → (result : Text) × (collapse_loop fuel collapsed elided ≡ some result)
unfolding collapse_loop left
collapse_loop-Ends zero collapsed elided h = absurd (omega arith)
collapse_loop-Ends (suc fuel) collapsed elided h =
    elim (round-cases (collapse_at collapsed elided (quote_match elided))) [
      | inl (result, e) ↦ rw (e, collapse_loop) (result, refl)
      | inr (collapsed', elided', e) ↦
          let shorter = rw (e, left) at (collapse_at-left collapsed elided) in
          rw (e, collapse_loop) (collapse_loop-Ends fuel collapsed' elided' (omega arith))
    ]

-- The loop of `_CollapseStrings` ends, in at most as many rounds as the line has characters and one
-- more.
pub collapse_loop-ends :
    (collapsed elided : Text)
    → (result : Text) × ((fuel : ℕ)
        → length elided + 1 ≤ fuel
        → collapse_loop fuel collapsed elided ≡ some result)
collapse_loop-ends collapsed elided =
    let (result, e) = collapse_loop-Ends (length elided + 1) collapsed elided (omega arith) in
    (
      result,
      λ fuel h. collapse_loop-enough fuel (length elided + 1) collapsed elided h (omega arith) ∙ e,
    )
