-- ===== src/LineChecks/Operators/Hiding.antt =====
-- The loop of `CheckOperatorSpacing` that replaces the names of operators.
use netier.Base.{
  ℕ, zero, suc, ◌+◌, ◌≤◌, ◌<◌, ◌≡◌, ◌≢◌, inl, inr, refl, none, some, [], ◌∷◌, ◌++◌, ◌==◌, arith,
  Text, length, is_word, Option-cases, if◌then◌else◌, append-nil, subst, sym, ap,
}
use netier.Regex.{Found, match_re, group_or_empty}
use netier.Regex.Parts.{match_re-IsInThree, operator_chain, IsInThree, StartsOutside, IsEnd}
use netier.LineChecks.Operators.{underscores, operator_pattern, without_operator, hide_operators}

-- Every character keeps its column, and is kept or becomes an underscore.
pub data Hides : Text → Text → Type 0 where
  all_kept : Hides [] []
  kept : (c : ℕ) {s t : Text} → Hides s t → Hides (c ∷ s) (c ∷ t)
  hidden : (c : ℕ) {s t : Text} → Hides s t → Hides (c ∷ s) (b'_' ∷ t)

abbrev pub HasNoNewline : Text → Type 0
HasNoNewline [] = Unit {0}
HasNoNewline (c ∷ s) = (c ≢ 10) × HasNoNewline s

Hides-refl : (s : Text) → Hides s s
Hides-refl [] = all_kept
Hides-refl (c ∷ s) = kept c (Hides-refl s)

Hides-trans : {s t u : Text} → Hides s t → Hides t u → Hides s u
Hides-trans all_kept all_kept = all_kept
Hides-trans (kept c h) (kept d k) = kept c (Hides-trans h k)
Hides-trans (kept c h) (hidden d k) = hidden c (Hides-trans h k)
Hides-trans (hidden c h) (kept d k) = hidden c (Hides-trans h k)
Hides-trans (hidden c h) (hidden d k) = hidden c (Hides-trans h k)

Hides-HasNoNewline : {s t : Text} → Hides s t → HasNoNewline s → HasNoNewline t
Hides-HasNoNewline all_kept n = tt
Hides-HasNoNewline (kept c h) (a, n) = (a, Hides-HasNoNewline h n)
Hides-HasNoNewline (hidden c h) (a, n) = (omega arith, Hides-HasNoNewline h n)

HasNoNewline-behind : (a b : Text) → HasNoNewline (a ++ b) → HasNoNewline b
HasNoNewline-behind [] b n = n
HasNoNewline-behind (c ∷ a) b (_, n) = HasNoNewline-behind a b n

Hides-behind : (a : Text) {s t : Text} → Hides s t → Hides (a ++ s) (a ++ t)
Hides-behind [] h = h
Hides-behind (c ∷ a) h = kept c (Hides-behind a h)

Hides-underscores : (g s : Text) → Hides (g ++ s) (underscores (length g) ++ s)
unfolding underscores
Hides-underscores [] s = Hides-refl s
Hides-underscores (c ∷ g) s = hidden c (Hides-underscores g s)

-- The number of characters that are no underscores
marks : Text → ℕ
marks [] = 0
marks (c ∷ s) = (if c == b'_' then 0 else 1) + marks s

marks-length : (s : Text) → marks s ≤ length s
unfolding marks
marks-length [] = omega arith
marks-length (c ∷ s) = ground (arith, marks-length s)

marks-append : (a b : Text) → marks (a ++ b) ≡ marks a + marks b
unfolding marks
marks-append [] b = omega arith
marks-append (c ∷ a) b = omega (arith, marks-append a b)

marks-underscores : (n : ℕ) → marks (underscores n) ≡ 0
unfolding marks underscores
marks-underscores zero = refl
marks-underscores (suc n) = omega (arith, marks-underscores n)

marks-outside : (g : Text) → StartsOutside g → 1 ≤ marks g
unfolding marks is_word
marks-outside g o = rw o.parts (ground (arith, o.outside))

abbrev Parts : Text → Found → Type 0
Parts line m = IsInThree line m.groups m.rest

parts : (line : Text) (m : Found) → match_re operator_pattern line ≡ some m → Parts line m
parts line m e = match_re-IsInThree operator_pattern line m operator_chain e

end-nil : (rest : Text) → IsEnd rest → HasNoNewline rest → rest ≡ []
end-nil rest (inl e) n = e
end-nil rest (inr e) n = let (a, _) = rw e at n in absurd (a refl)

rest-nil : (line : Text) (m : Found) → Parts line m → HasNoNewline line → m.rest ≡ []
rest-nil line m p n = end-nil m.rest p.end (
    HasNoNewline-behind (group_or_empty 3 m) _ (
      HasNoNewline-behind (group_or_empty 2 m) _
        (HasNoNewline-behind (group_or_empty 1 m) _ (subst HasNoNewline p.whole n))))

three :
    (line : Text) (m : Found)
    → Parts line m
    → HasNoNewline line
    → line ≡ group_or_empty 1 m ++ (group_or_empty 2 m ++ group_or_empty 3 m)
three line m p n = rw (rest-nil line m p n, append-nil) at (p.whole)

round-Hides :
    (line : Text) (m : Found) → Parts line m → HasNoNewline line → Hides line (without_operator m)
unfolding without_operator
round-Hides line m p n =
    subst (λ s. Hides s (without_operator m)) (sym (three line m p n))
      (Hides-behind (group_or_empty 1 m)
        (Hides-underscores (group_or_empty 2 m) (group_or_empty 3 m)))

round-marks :
    (line : Text) (m : Found)
    → Parts line m
    → HasNoNewline line
    → suc (marks (without_operator m)) ≤ marks line
unfolding without_operator
round-marks line m p n =
    let a = group_or_empty 1 m in
    let b = group_or_empty 2 m in
    let c = group_or_empty 3 m in
    let e : marks line ≡ marks (a ++ (b ++ c)) = ap marks (three line m p n) in
    omega (
      arith,
      marks-append a (b ++ c),
      marks-append b c,
      marks-append a (underscores (length b) ++ c),
      marks-append (underscores (length b)) c,
      marks-underscores (length b),
      marks-outside b p.second,
    )

hide_operators-enough :
    (fuel : ℕ) (line : Text)
    → HasNoNewline line
    → marks line < fuel
    → (line' : Text) × (hide_operators fuel line ≡ some line')
      × Hides line line'
      × (match_re operator_pattern line' ≡ none)
unfolding hide_operators
hide_operators-enough zero line n h = absurd (omega arith)
hide_operators-enough (suc fuel) line n h = elim (Option-cases (match_re operator_pattern line)) [
  | inl e ↦ (line, rw (e, hide_operators) refl, Hides-refl line, e)
  | inr (m, e) ↦
      let p = parts line m e in
      let k = round-Hides line m p n in
      let (line', run, hides, over) =
        hide_operators-enough fuel (without_operator m) (Hides-HasNoNewline k n)
          (omega (arith, round-marks line m p n)) in
      (line', rw (e, hide_operators) run, Hides-trans k hides, over)
]

-- For a line with no newline in it, the loop that hides the names of operators ends within a round
-- for each character and one more. Every character is then as it was, in its column, or an
-- underscore, and no call of an operator is left that the loop's pattern matches.
pub hide_operators_lem :
    (line : Text)
    → HasNoNewline line
    → (line' : Text) × (hide_operators (length line + 1) line ≡ some line')
      × Hides line line'
      × (match_re operator_pattern line' ≡ none)
hide_operators_lem line n =
    hide_operators-enough (length line + 1) line n (omega (arith, marks-length line))
