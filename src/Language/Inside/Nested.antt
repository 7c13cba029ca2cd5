-- ===== src/Language/Inside/Nested.antt =====
-- Text with nested punctuation, and the loop of `_GetTextInside` on it.
use netier.Base.{
  ℕ, suc, ◌+◌, true, false, none, some, List, [], ◌∷◌, ◌++◌, ◌==◌, ◌≡◌, arith, Text, length,
  length-append, append_assoc, ◌∙◌,
}
use netier.Language.Inside.{matching_punctuation, is_closing_punctuation, inside_loop}

-- Text whose punctuation comes in pairs, one inside the other.
pub data Nested : Text → Type 0 where
  nothing : Nested []
  other :
      {c : ℕ} {s : Text}
      → matching_punctuation c ≡ none
      → is_closing_punctuation c ≡ false
      → Nested s
      → Nested (c ∷ s)
  pair :
      {a : ℕ} {u : Text} (b : ℕ) (s t : Text)
      → matching_punctuation a ≡ some b
      → Nested s
      → Nested t
      → u ≡ s ++ (b ∷ t)
      → Nested (a ∷ u)

pub opening-not_closing :
    (a b : ℕ) → matching_punctuation a ≡ some b → is_closing_punctuation a ≡ false
opening-not_closing a b h = ground arith

matching_punctuation-closing :
    (a b : ℕ) → matching_punctuation a ≡ some b → is_closing_punctuation b ≡ true
matching_punctuation-closing a b h = ground arith

not_top :
    (c top : ℕ)
    → is_closing_punctuation top ≡ true
    → is_closing_punctuation c ≡ false
    → (c == top) ≡ false
not_top c top ht hc = ground arith

module _ (i top c : ℕ) (stack : List ℕ) (text : Text) where
  pub other_step :
      (c == top) ≡ false
      → is_closing_punctuation c ≡ false
      → matching_punctuation c ≡ none
      → inside_loop i (top ∷ stack) (c ∷ text) ≡ inside_loop (i + 1) (top ∷ stack) text
  unfolding inside_loop
  other_step h hc hm = rw (h, hc, hm)

  pub open_step :
      (b : ℕ)
      → (c == top) ≡ false
      → matching_punctuation c ≡ some b
      → inside_loop i (top ∷ stack) (c ∷ text) ≡ inside_loop (i + 1) (b ∷ top ∷ stack) text
  unfolding inside_loop
  open_step b h hm = rw (h, opening-not_closing c b hm, hm)

  pub close_step :
      (c == top) ≡ true → inside_loop i (top ∷ stack) (c ∷ text) ≡ inside_loop (i + 1) stack text
  unfolding inside_loop
  close_step h = rw h

  pub wrong_step :
      (c == top) ≡ false
      → is_closing_punctuation c ≡ true
      → inside_loop i (top ∷ stack) (c ∷ text) ≡ none
  unfolding inside_loop
  wrong_step h hc = rw (h, hc)

-- The loop passes over nested text and expects what it expected.
pub inside_loop-Nested :
    {s : Text} (rest : Text) (i top : ℕ) (stack : List ℕ)
    → is_closing_punctuation top ≡ true
    → Nested s
    → inside_loop i (top ∷ stack) (s ++ rest) ≡ inside_loop (i + length s) (top ∷ stack) rest
inside_loop-Nested rest i top stack ht nothing = let e : i + 0 ≡ i = omega arith in rw e
inside_loop-Nested rest i top stack ht (other {c} {s} hm hc n) =
    let e : i + suc (length s) ≡ i + 1 + length s = omega arith in
    rw (e, other_step i top c stack (s ++ rest) (not_top c top ht hc) hc hm)
      (inside_loop-Nested rest (i + 1) top stack ht n)
inside_loop-Nested rest i top stack ht (pair {a} {u} b s t hm x y e) =
    let n : i + suc (length (s ++ (b ∷ t))) ≡ i + 1 + length s + 1 + length t =
      omega (arith, length-append {0} s (b ∷ t)) in
    let ha = not_top a top ht (opening-not_closing a b hm) in
    let hb = matching_punctuation-closing a b hm in
    let same : (b == b) ≡ true = ground arith in
    rw (e, n, append_assoc, open_step i top a stack (s ++ (b ∷ (t ++ rest))) b ha hm)
      (inside_loop-Nested (b ∷ (t ++ rest)) (i + 1) b (top ∷ stack) hb x
        ∙ rw (close_step (i + 1 + length s) b b (top ∷ stack) (t ++ rest) same)
            (inside_loop-Nested rest (i + 1 + length s + 1) top stack ht y))
