-- ===== src/Regex/Run/Progress.antt =====
-- How far a match moves on, and how long its groups are.
use netier.Base.{
  ℕ, zero, suc, ◌+◌, ◌-◌, ◌≤◌, Bool, true, false, ◌&&◌, Option, none, some, List, [], ◌∷◌, ◌++◌,
  ◌==◌, ◌≡◌, refl, arith, if◌then◌else◌, Text, length, take, length-take, min, starts_with,
}
use netier.Regex.Syntax.{Re, empty, one, seq, alt, rep, group, back, bol, eol, boundary, look}
use netier.Regex.Run.{
  Place, group_text, step, flat_map_places, keep_if, advance, back_to, minus_one, is_spent,
  in_order, rounds, record_group, map_places, runs,
}

abbrev times : ℕ → ℕ → ℕ
times zero c = 0
times (suc n) c = c + times n c

-- At least as many characters a match takes.
abbrev pub min_chars : Re → ℕ
min_chars (one p) = 1
min_chars (seq a b) = min_chars a + min_chars b
min_chars (alt a b) = min (min_chars a) (min_chars b)
min_chars (rep greedy lo hi r) = times lo (min_chars r)
min_chars (group n r) = min_chars r
min_chars _ = 0

-- Does group `n` begin only behind at least `k` characters?
abbrev pub is_late : ℕ → ℕ → Re → Bool
is_late n k (seq a b) = is_late n k a && is_late n (k - min_chars a) b
is_late n k (alt a b) = is_late n k a && is_late n k b
is_late n k (rep greedy lo hi r) = is_late n k r
is_late n k (group m r) = is_late n k r && (if n == m then k == 0 else true)
is_late n k _ = true

pub data All (P : Place → Type 0) : List Place → Type 0 where
  nil : All P []
  also : {s : Place} {ss : List Place} → P s → All P ss → All P (s ∷ ss)

pub All-append : {P : Place → Type 0} {xs ys : List Place} → All P xs → All P ys → All P (xs ++ ys)
All-append nil h' = h'
All-append (also p h) h' = also p (All-append h h')

pub All-elim :
    {P : Place → Type 0} (b : Bool) {xs ys : List Place}
    → All P xs
    → All P ys
    → All P (elim b [ true ↦ xs | false ↦ ys ])
All-elim true h h' = h
All-elim false h h' = h'

pub All-if :
    {P : Place → Type 0} (b : Bool) {xs ys : List Place}
    → All P xs
    → All P ys
    → All P (if b then xs else ys)
All-if true h h' = h
All-if false h h' = h'

module _ {P Q : Place → Type 0} where
  pub All-map :
      (f : Place → Place) (g : (s : Place) → P s → Q (f s)) {xs : List Place}
      → All P xs
      → All Q (map_places f xs)
  unfolding map_places
  All-map f g nil = nil
  All-map f g (also p h) = also (g _ p) (All-map f g h)

  pub All-imp : (g : (s : Place) → P s → Q s) {xs : List Place} → All P xs → All Q xs
  All-imp g nil = nil
  All-imp g (also p h) = also (g _ p) (All-imp g h)

pub All-flat_map :
    {P Q : Place → Type 0} (f : Place → List Place) (g : (s : Place) → P s → All Q (f s))
    {xs : List Place}
    → All P xs
    → All Q (flat_map_places f xs)
unfolding flat_map_places
All-flat_map f g nil = nil
All-flat_map f g (also p h) = All-append (g _ p) (All-flat_map f g h)

pub All-keep_if : {P : Place → Type 0} (b : Bool) (s : Place) → P s → All P (keep_if b s)
All-keep_if true s p = also p nil
All-keep_if false s p = nil

pub All-in_order :
    {P : Place → Type 0} (greedy : Bool) {xs : List Place} (s : Place)
    → All P xs
    → P s
    → All P (in_order greedy xs s)
All-in_order true s h p = All-append h (also p nil)
All-in_order false s h p = also p h

abbrev pub text_of : ℕ → List (ℕ × Text) → Text
text_of n gs = elim (group_text n gs) [ some t ↦ t | none ↦ [] ]

-- What a match of `r` from a place reaches: `c` characters on, with a short group `n`
abbrev pub Reaches : ℕ → ℕ → ℕ → Place → Place → Type 0
Reaches n bound c s t = (length t.rest + c ≤ length s.rest) × (length (text_of n t.groups) ≤ bound)

module _ (n bound : ℕ) where
  advance-Reaches :
      (j : ℕ) (s : Place) (r : Text)
      → length r ≤ length s.rest
      → length (text_of n s.groups) ≤ bound
      → Reaches n bound 0 s (advance j s r)
  unfolding advance
  advance-Reaches zero s r h g = (omega arith, g)
  advance-Reaches (suc j) s [] h g = (omega arith, g)
  advance-Reaches (suc j) s (c ∷ r) h g =
      advance-Reaches j (record s { pos = s.pos + 1; prev = some c }) r (omega arith) g

  back_to-Reaches :
      (t : Option Text) (s : Place)
      → length (text_of n s.groups) ≤ bound
      → All (Reaches n bound 0 s) (back_to t s)
  unfolding back_to
  back_to-Reaches none s g = nil
  back_to-Reaches (some t) s g =
      All-keep_if (starts_with s.rest t) _ (advance-Reaches (length t) s s.rest (omega arith) g)

  step-Reaches :
      (p : ℕ → Bool) (s : Place) (r : Text)
      → r ≡ s.rest
      → length (text_of n s.groups) ≤ bound
      → All (Reaches n bound 1 s) (step p s r)
  unfolding step
  step-Reaches p s [] e g = nil
  step-Reaches p s (c ∷ r) e g = All-if (p c) (also (rw⁻¹ e (omega arith), g) nil) nil

  rounds-Reaches :
      (f : Place → List Place) (c k : ℕ)
      (h : (s : Place)
        → length (text_of n s.groups) ≤ bound
        → length s.rest ≤ bound + k
        → All (Reaches n bound c s) (f s))
      (greedy : Bool) (fuel lo : ℕ) (hi : Option ℕ) (s : Place)
      → length (text_of n s.groups) ≤ bound
      → length s.rest ≤ bound + k
      → All (Reaches n bound (times lo c) s) (rounds f greedy fuel lo hi s)
  unfolding rounds
  rounds-Reaches f c k h greedy zero lo hi s g l = nil
  rounds-Reaches f c k h greedy (suc fuel) (suc lo) hi s g l =
      All-flat_map _
        (λ t (a, b).
          All-imp (λ u (a', b'). (omega arith, b'))
            (rounds-Reaches f c k h greedy fuel lo (minus_one hi) t b (omega arith)))
        (h s g l)
  rounds-Reaches f c k h greedy (suc fuel) zero hi s g l =
      All-elim (is_spent hi) (also (omega arith, g) nil) (
        All-in_order greedy s
          (All-flat_map _
            (λ t (a, b). All-elim (t.pos == s.pos) (also (omega arith, b) nil) (
              All-imp (λ u (a', b'). (omega arith, b'))
                (rounds-Reaches f c k h greedy fuel 0 (minus_one hi) t b (omega arith))))
            (h s g l))
          (omega arith, g))

  short_text :
      (q : Bool) (x : Text) (o : Option Text)
      → (q ≡ true → length x ≤ bound)
      → length (elim o [ some t ↦ t | none ↦ [] ]) ≤ bound
      → length (elim (if q then some x else o) [ some t ↦ t | none ↦ [] ]) ≤ bound
  short_text true x o h h' = h refl
  short_text false x o h h' = h'

  record_group-Reaches :
      (m c k : ℕ) (s t : Place)
      → (if n == m then k == 0 else true) ≡ true
      → length s.rest ≤ bound + k
      → Reaches n bound c s t
      → Reaches n bound c s (record_group m s t)
  unfolding record_group
  record_group-Reaches m c k s t e l (a, b) =
      let x = take (t.pos - s.pos) s.rest in
      (
        a,
        short_text (n == m) x (group_text n t.groups)
            (λ q. ground (arith, length-take (t.pos - s.pos) s.rest)) b,
      )

  pub runs-Reaches :
      (r : Re) (k : ℕ) (s : Place)
      → is_late n k r ≡ true
      → length (text_of n s.groups) ≤ bound
      → length s.rest ≤ bound + k
      → All (Reaches n bound (min_chars r) s) (runs r s)
  unfolding runs
  runs-Reaches empty k s e g l = also (omega arith, g) nil
  runs-Reaches (one p) k s e g l = step-Reaches p s s.rest refl g
  runs-Reaches (seq a b) k s e g l =
      All-flat_map _
        (λ t (x, y).
          All-imp (λ u (x', y'). (omega arith, y'))
            (runs-Reaches b (k - min_chars a) t (ground arith) y (omega arith)))
        (runs-Reaches a k s (ground arith) g l)
  runs-Reaches (alt a b) k s e g l =
      All-append (All-imp (λ u (x, y). (omega arith, y)) (runs-Reaches a k s (ground arith) g l))
        (All-imp (λ u (x, y). (omega arith, y)) (runs-Reaches b k s (ground arith) g l))
  runs-Reaches (rep greedy lo hi r) k s e g l =
      rounds-Reaches (runs r) (min_chars r) k (λ t g' l'. runs-Reaches r k t e g' l') greedy
        (lo + length s.rest + 2) lo hi s g l
  runs-Reaches (group m r) k s e g l =
      All-map _ (λ t h. record_group-Reaches m (min_chars r) k s t (ground arith) l h)
        (runs-Reaches r k s (ground arith) g l)
  runs-Reaches (back m) k s e g l = back_to-Reaches (group_text m s.groups) s g
  runs-Reaches bol k s e g l = All-keep_if _ s (omega arith, g)
  runs-Reaches eol k s e g l = All-keep_if _ s (omega arith, g)
  runs-Reaches (boundary wanted) k s e g l = All-keep_if _ s (omega arith, g)
  runs-Reaches (look wanted r) k s e g l = All-keep_if _ s (omega arith, g)
