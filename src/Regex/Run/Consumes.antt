-- ===== src/Regex/Run/Consumes.antt =====
-- The text that a match passes over.
use netier.Base.{
  ℕ, zero, suc, ◌+◌, ◌-◌, ◌≤◌, Bool, true, false, Option, none, some, List, [], ◌∷◌, ◌++◌, ◌==◌,
  ◌≡◌, refl, sym, ap, ◌∙◌, arith, Text, length, take, starts_with, append_assoc, length-append,
}
use netier.Regex.Syntax.{Re, empty, one, seq, alt, rep, group, back, bol, eol, boundary, look}
use netier.Regex.Run.{
  Place, group_text, step, keep_if, advance, back_to, minus_one, is_spent, rounds, record_group,
  runs,
}
use netier.Regex.Run.Progress.{
  All, nil, also, All-append, All-elim, All-if, All-flat_map, All-keep_if, All-in_order, All-map,
  All-imp,
}
use netier.Regex.Run.Steady.{starts_with-length}

-- From the first place to the second the match passes over a text.
abbrev pub Consumes : Place → Place → Type 0
Consumes s t = (w : Text) × (s.rest ≡ w ++ t.rest) × (t.pos ≡ s.pos + length w)

pub Consumes-refl : (s : Place) → Consumes s s
Consumes-refl s = ([], refl, omega arith)

Consumes-trans : (s t u : Place) → Consumes s t → Consumes t u → Consumes s u
Consumes-trans s t u (w, e, p) (w', e', p') = (
  w ++ w',
  e ∙ ap (λ x. w ++ x) e' ∙ sym (append_assoc w w' u.rest),
  omega (arith, length-append w w'),
)

advance-Consumes :
    (j : ℕ) (s : Place) (r : Text)
    → j ≤ length r
    → (w : Text) × (r ≡ w ++ (advance j s r).rest) × ((advance j s r).pos ≡ s.pos + length w)
unfolding advance
advance-Consumes zero s r h = ([], refl, omega arith)
advance-Consumes (suc j) s [] h = absurd (omega arith)
advance-Consumes (suc j) s (c ∷ r) h =
    let (w, e, p) =
      advance-Consumes j (record s { pos = s.pos + 1; prev = some c }) r (omega arith) in
    (c ∷ w, ap (λ x. c ∷ x) e, omega arith)

keep_if-Consumes :
    (q : Bool) (s t : Place) → (q ≡ true → Consumes s t) → All (Consumes s) (keep_if q t)
keep_if-Consumes true s t h = also (h refl) nil
keep_if-Consumes false s t h = nil

back_to-Consumes : (t : Option Text) (s : Place) → All (Consumes s) (back_to t s)
unfolding back_to
back_to-Consumes none s = nil
back_to-Consumes (some t) s =
    keep_if-Consumes (starts_with s.rest t) s _
      (λ q. advance-Consumes (length t) s s.rest (starts_with-length 0 s.rest t q))

step-Consumes : (p : ℕ → Bool) (s : Place) (r : Text) → r ≡ s.rest → All (Consumes s) (step p s r)
unfolding step
step-Consumes p s [] e = nil
step-Consumes p s (c ∷ r) e = All-if (p c) (also (c ∷ [], sym e, omega arith) nil) nil

rounds-Consumes :
    (f : Place → List Place) (h : (s : Place) → All (Consumes s) (f s)) (greedy : Bool)
    (fuel lo : ℕ) (hi : Option ℕ) (s : Place)
    → All (Consumes s) (rounds f greedy fuel lo hi s)
unfolding rounds
rounds-Consumes f h greedy zero lo hi s = nil
rounds-Consumes f h greedy (suc fuel) (suc lo) hi s =
    All-flat_map _
      (λ t a.
        All-imp (λ u b. Consumes-trans s t u a b)
          (rounds-Consumes f h greedy fuel lo (minus_one hi) t))
      (h s)
rounds-Consumes f h greedy (suc fuel) zero hi s =
    All-elim (is_spent hi) (also (Consumes-refl s) nil) (
      All-in_order greedy s
        (All-flat_map _
          (λ t a. All-elim (t.pos == s.pos) (also a nil) (
            All-imp (λ u b. Consumes-trans s t u a b)
              (rounds-Consumes f h greedy fuel 0 (minus_one hi) t)))
          (h s))
        (Consumes-refl s))

pub runs-Consumes : (r : Re) (s : Place) → All (Consumes s) (runs r s)
unfolding runs record_group
runs-Consumes empty s = also (Consumes-refl s) nil
runs-Consumes (one p) s = step-Consumes p s s.rest refl
runs-Consumes (seq a b) s =
    All-flat_map _ (λ t x. All-imp (λ u y. Consumes-trans s t u x y) (runs-Consumes b t))
      (runs-Consumes a s)
runs-Consumes (alt a b) s = All-append (runs-Consumes a s) (runs-Consumes b s)
runs-Consumes (rep greedy lo hi r) s =
    rounds-Consumes (runs r) (λ t. runs-Consumes r t) greedy (lo + length s.rest + 2) lo hi s
runs-Consumes (group n r) s = All-map _ (λ t h. h) (runs-Consumes r s)
runs-Consumes (back n) s = back_to-Consumes (group_text n s.groups) s
runs-Consumes bol s = All-keep_if _ s (Consumes-refl s)
runs-Consumes eol s = All-keep_if _ s (Consumes-refl s)
runs-Consumes (boundary wanted) s = All-keep_if _ s (Consumes-refl s)
runs-Consumes (look wanted r) s = All-keep_if _ s (Consumes-refl s)

take-length-append : (w r : Text) → take (length w) (w ++ r) ≡ w
take-length-append [] r = refl
take-length-append (c ∷ w) r = ap (λ x. c ∷ x) (take-length-append w r)

-- The text of a group is what its part passes over.
pub record_group-text :
    (m : ℕ) (s t : Place) → Consumes s t → s.rest ≡ take (t.pos - s.pos) s.rest ++ t.rest
record_group-text m s t (w, e, p) =
    let k : t.pos - s.pos ≡ length w = omega arith in
    e ∙ ap (λ x. x ++ t.rest) (sym (rw (k, e) (take-length-append w t.rest)))
