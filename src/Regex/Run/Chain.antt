-- ===== src/Regex/Run/Chain.antt =====
-- A pattern of three groups, one behind the other, the first of which ends behind a word.
use netier.Base.{
  ℕ, suc, ◌+◌, ◌-◌, ◌≤◌, Bool, true, false, List, [], ◌∷◌, ◌++◌, ◌≡◌, ◌⊎◌, inl, inr, refl, sym, ap,
  ◌∙◌, arith, Text, length, take, is_word,
}
use netier.Regex.Syntax.{Re, empty, seq, group, bol, eol}
use netier.Regex.Run.{Place, runs, record_group, keep_if, at_eol, is_word_at, first_of_text}
use netier.Regex.Run.Progress.{text_of, All, All-flat_map, All-map, All-keep_if, nil, also}
use netier.Regex.Run.Progress.{min_chars, runs-Reaches}
use netier.Regex.Run.Steady.{records, runs-IsSteady}
use netier.Regex.Run.Split.{both, is_late-zero}
use netier.Regex.Run.Consumes.{runs-Consumes, record_group-text}
use netier.Regex.Run.Words.{EndsInWord, IsBehindWord, runs-IsBehindWord}

-- The text begins with no character of a word.
pub record StartsOutside (s : Text) : Type 0 where
  pub first : ℕ
  pub others : Text
  pub parts : s ≡ first ∷ others
  pub outside : is_word first ≡ false

-- What `$` leaves
abbrev pub IsEnd : Text → Type 0
IsEnd s = (s ≡ []) ⊎ (s ≡ 10 ∷ [])

-- The three groups make up the text.
pub record IsInThree (s : Text) (groups : List (ℕ × Text)) (rest : Text) : Type 0 where
  pub whole : s ≡ text_of 1 groups ++ (text_of 2 groups ++ (text_of 3 groups ++ rest))
  pub second : StartsOutside (text_of 2 groups)
  pub end : IsEnd rest

pub record Chain (x y z : Re) : Type 0 where
  pub word : EndsInWord x
  pub some_char : 1 ≤ min_chars y
  pub first_only : (records 1 y ≡ false) × (records 1 z ≡ false)
  pub second_only : records 2 z ≡ false

starts_outside :
    (s w r : Text)
    → is_word_at (first_of_text s) ≡ false
    → s ≡ w ++ r
    → suc (length r) ≤ length s
    → StartsOutside w
starts_outside s [] r o e h = absurd (omega (arith, ap length e))
starts_outside [] (c ∷ w) r o e h = absurd (omega arith)
starts_outside (d ∷ s) (c ∷ w) r o e h = record {
  first = c;
  others = w;
  parts = refl;
  outside = ground arith;
}

runs-seq :
    {P Q : Place → Type 0} (a b : Re) (s : Place)
    → All P (runs a s)
    → ((t : Place) → P t → All Q (runs b t))
    → All Q (runs (seq a b) s)
unfolding runs
runs-seq a b s h g = All-flat_map _ g h

runs-bol : (s : Place) → All (λ t. t.rest ≡ s.rest) (runs bol s)
unfolding runs
runs-bol s = All-keep_if _ s refl

at_eol-IsEnd : (s : Text) → at_eol s ≡ true → IsEnd s
unfolding at_eol
at_eol-IsEnd [] h = inl refl
at_eol-IsEnd (c ∷ []) h = inr (ground arith)
at_eol-IsEnd (c ∷ d ∷ s) h = ground arith

module _ (x y z : Re) (chain : Chain x y z) where
  AfterOne : Text → Place → Type 0
  AfterOne s u = (s ≡ text_of 1 u.groups ++ u.rest) × IsBehindWord u

  AfterTwo : Text → Place → Type 0
  AfterTwo s v =
      (s ≡ text_of 1 v.groups ++ (text_of 2 v.groups ++ v.rest))
      × StartsOutside (text_of 2 v.groups)

  AfterThree : Text → Place → Type 0
  AfterThree s t =
      (s ≡ text_of 1 t.groups ++ (text_of 2 t.groups ++ (text_of 3 t.groups ++ t.rest)))
      × StartsOutside (text_of 2 t.groups)

  runs-AfterOne : (s : Place) → All (AfterOne s.rest) (runs (group 1 x) s)
  unfolding AfterOne runs record_group
  runs-AfterOne s =
      All-map _ (λ t (c, w). (record_group-text 1 s t c, w))
        (both (runs-Consumes x s) (runs-IsBehindWord s chain.word))

  runs-AfterTwo : (s : Text) (u : Place) → AfterOne s u → All (AfterTwo s) (runs (group 2 y) u)
  unfolding AfterOne AfterTwo runs record_group
  runs-AfterTwo s u (e, (p, q)) =
      All-map _
        (λ t (c, ((d, _), (_, f))). (
          e
              ∙ sym (
                  ap (λ g. g ++ (take (t.pos - u.pos) u.rest ++ t.rest)) f
                  ∙ ap (λ r. text_of 1 u.groups ++ r) (sym (record_group-text 2 u t c))),
          starts_outside u.rest _ t.rest q (record_group-text 2 u t c)
              (omega (arith, chain.some_char)),
        ))
        (both (runs-Consumes y u) (
          both
            (runs-Reaches 2 (length u.rest + length (text_of 2 u.groups)) y 0 u (is_late-zero 2 y)
              (omega arith) (omega arith))
            (runs-IsSteady 1 y u chain.first_only.0)))

  runs-AfterThree : (s : Text) (v : Place) → AfterTwo s v → All (AfterThree s) (runs (group 3 z) v)
  unfolding AfterTwo AfterThree runs record_group
  runs-AfterThree s v (e, o) =
      All-map _
        (λ t (c, ((_, f), (_, g))). (
          e
              ∙ ap (λ r. text_of 1 v.groups ++ (text_of 2 v.groups ++ r))
                  (record_group-text 3 v t c)
              ∙ sym (
                  ap (λ h. h ++ (text_of 2 t.groups ++ (take (t.pos - v.pos) v.rest ++ t.rest))) f
                  ∙ ap (λ h. text_of 1 v.groups ++ (h ++ (take (t.pos - v.pos) v.rest ++ t.rest)))
                      g),
          rw g o,
        ))
        (both (runs-Consumes z v)
          (both (runs-IsSteady 1 z v chain.first_only.1) (runs-IsSteady 2 z v chain.second_only)))

  runs-end :
      (s : Text) (t : Place)
      → AfterThree s t
      → All (λ t. IsInThree s t.groups t.rest) (runs (seq eol empty) t)
  unfolding AfterThree runs
  runs-end s t (e, o) =
      All-flat_map (runs empty) (λ u x. also x nil) (at_end s t e o (at_eol t.rest) refl)
    where
      at_end :
          (s : Text) (t : Place)
          → s ≡ text_of 1 t.groups ++ (text_of 2 t.groups ++ (text_of 3 t.groups ++ t.rest))
          → StartsOutside (text_of 2 t.groups)
          → (b : Bool) → at_eol t.rest ≡ b
          → All (λ t. IsInThree s t.groups t.rest) (keep_if b t)
      at_end s t e o true h =
          also (record { whole = e; second = o; end = at_eol-IsEnd t.rest h }) nil
      at_end s t e o false h = nil

  pub runs-IsInThree :
      (s : Place)
      → All
          (λ t. IsInThree s.rest t.groups t.rest)
          (runs (seq bol (seq (group 1 x) (seq (group 2 y) (seq (group 3 z) (seq eol empty))))) s)
  runs-IsInThree s = runs-seq _ _ _ (runs-bol s) (λ t e.
      runs-seq _ _ _ (rw⁻¹ e (runs-AfterOne t)) (λ u h.
        runs-seq _ _ _ (runs-AfterTwo s.rest u h)
          (λ v h. runs-seq _ _ _ (runs-AfterThree s.rest v h) (λ w h. runs-end s.rest w h))))
