-- ===== src/Regex/Run/Steady.antt =====
-- What a match leaves as it was: the end of the text, and the groups that it does not record.
use netier.Base.{
  ℕ, zero, suc, ◌+◌, ◌≤◌, Bool, true, false, ◌||◌, Option, none, some, List, [], ◌∷◌, ◌==◌, ◌≡◌,
  refl, ◌∙◌, arith, Text, length, starts_with,
}
use netier.Regex.Syntax.{Re, empty, one, seq, alt, rep, group, back, bol, eol, boundary, look}
use netier.Regex.Run.{
  Place, group_text, step, keep_if, advance, back_to, minus_one, is_spent, rounds, record_group,
  runs,
}
use netier.Regex.Run.Progress.{
  All, nil, also, All-append, All-elim, All-if, All-flat_map, All-keep_if, All-in_order, All-map,
  All-imp, text_of,
}

-- Does the pattern record group `m`?
abbrev pub records : ℕ → Re → Bool
records m (seq a b) = records m a || records m b
records m (alt a b) = records m a || records m b
records m (rep greedy lo hi r) = records m r
records m (group n r) = m == n || records m r
records m _ = false

module _ (m : ℕ) where
  abbrev pub IsSteady : Place → Place → Type 0
  IsSteady s t =
      (t.pos + length t.rest ≡ s.pos + length s.rest) × (text_of m t.groups ≡ text_of m s.groups)

  advance-end :
      (j : ℕ) (s : Place) (r : Text)
      → j ≤ length r
      → ((advance j s r).pos + length (advance j s r).rest ≡ s.pos + length r)
        × (text_of m (advance j s r).groups ≡ text_of m s.groups)
  unfolding advance
  advance-end zero s r h = (refl, refl)
  advance-end (suc j) s [] h = absurd (omega arith)
  advance-end (suc j) s (c ∷ r) h =
      let (a, b) = advance-end j (record s { pos = s.pos + 1; prev = some c }) r (omega arith) in
      (omega arith, b)

  pub starts_with-length : (s p : Text) → starts_with s p ≡ true → length p ≤ length s
  unfolding starts_with
  starts_with-length s [] h = omega arith
  starts_with-length [] (b ∷ p) h = ground arith
  starts_with-length (a ∷ s) (b ∷ p) h = ground (arith, starts_with-length s p)

  keep_if-IsSteady :
      (q : Bool) (s t : Place) → (q ≡ true → IsSteady s t) → All (IsSteady s) (keep_if q t)
  keep_if-IsSteady true s t h = also (h refl) nil
  keep_if-IsSteady false s t h = nil

  back_to-IsSteady : (t : Option Text) (s : Place) → All (IsSteady s) (back_to t s)
  unfolding back_to
  back_to-IsSteady none s = nil
  back_to-IsSteady (some t) s =
      keep_if-IsSteady (starts_with s.rest t) s _
        (λ q. advance-end (length t) s s.rest (starts_with-length s.rest t q))

  step-IsSteady : (p : ℕ → Bool) (s : Place) (r : Text) → r ≡ s.rest → All (IsSteady s) (step p s r)
  unfolding step
  step-IsSteady p s [] e = nil
  step-IsSteady p s (c ∷ r) e = All-if (p c) (also (rw⁻¹ e (omega arith), refl) nil) nil

  IsSteady-trans : (s t u : Place) → IsSteady s t → IsSteady t u → IsSteady s u
  IsSteady-trans s t u (a, b) (a', b') = (a' ∙ a, b' ∙ b)

  rounds-IsSteady :
      (f : Place → List Place) (h : (s : Place) → All (IsSteady s) (f s)) (greedy : Bool)
      (fuel lo : ℕ) (hi : Option ℕ) (s : Place)
      → All (IsSteady s) (rounds f greedy fuel lo hi s)
  unfolding rounds
  rounds-IsSteady f h greedy zero lo hi s = nil
  rounds-IsSteady f h greedy (suc fuel) (suc lo) hi s =
      All-flat_map _
        (λ t a.
          All-imp (λ u b. IsSteady-trans s t u a b)
            (rounds-IsSteady f h greedy fuel lo (minus_one hi) t))
        (h s)
  rounds-IsSteady f h greedy (suc fuel) zero hi s = All-elim (is_spent hi) (also (refl, refl) nil) (
      All-in_order greedy s
        (All-flat_map _
          (λ t a. All-elim (t.pos == s.pos) (also a nil) (
            All-imp (λ u b. IsSteady-trans s t u a b)
              (rounds-IsSteady f h greedy fuel 0 (minus_one hi) t)))
          (h s))
        (refl, refl))

  record_group-IsSteady :
      (n : ℕ) (s t : Place) → (m == n) ≡ false → IsSteady s t → IsSteady s (record_group n s t)
  unfolding record_group
  record_group-IsSteady n s t e (a, b) = (a, rw (e, text_of) b)

  pub runs-IsSteady : (r : Re) (s : Place) → records m r ≡ false → All (IsSteady s) (runs r s)
  unfolding runs
  runs-IsSteady empty s e = also (refl, refl) nil
  runs-IsSteady (one p) s e = step-IsSteady p s s.rest refl
  runs-IsSteady (seq a b) s e =
      All-flat_map _
        (λ t x. All-imp (λ u y. IsSteady-trans s t u x y) (runs-IsSteady b t (ground arith)))
        (runs-IsSteady a s (ground arith))
  runs-IsSteady (alt a b) s e =
      All-append (runs-IsSteady a s (ground arith)) (runs-IsSteady b s (ground arith))
  runs-IsSteady (rep greedy lo hi r) s e =
      rounds-IsSteady (runs r) (λ t. runs-IsSteady r t e) greedy (lo + length s.rest + 2) lo hi s
  runs-IsSteady (group n r) s e =
      All-map _ (λ t h. record_group-IsSteady n s t (ground arith) h)
        (runs-IsSteady r s (ground arith))
  runs-IsSteady (back n) s e = back_to-IsSteady (group_text n s.groups) s
  runs-IsSteady bol s e = All-keep_if _ s (refl, refl)
  runs-IsSteady eol s e = All-keep_if _ s (refl, refl)
  runs-IsSteady (boundary wanted) s e = All-keep_if _ s (refl, refl)
  runs-IsSteady (look wanted r) s e = All-keep_if _ s (refl, refl)
