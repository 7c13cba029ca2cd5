-- ===== src/Language/Inside/Closes.antt =====
-- What `_GetTextInside` returns: the text up to the parenthesis that closes the first one.
use netier.Base.{
  ℕ, zero, suc, ◌+◌, ◌-◌, ◌≤◌, Bool, true, false, Option, none, some, List, [], ◌∷◌, ◌++◌, ◌==◌,
  ◌≡◌, refl, arith, Text, take, drop, length, length-append, append_assoc, ◌∙◌, ap, sym, subst, ◌↔◌,
}
use mathlib.Core.Option.{some-injective}
use netier.Language.Inside.{
  matching_punctuation, is_closing_punctuation, inside_loop, text_until, get_text_inside,
}
use netier.Language.Inside.Nested.{
  Nested, nothing, other, pair, other_step, open_step, close_step, wrong_step, inside_loop-Nested,
}

-- Nested text, the punctuation that is expected, and the text that the loop goes on with
record Closes (i top : ℕ) (stack : List ℕ) (text : Text) (p : ℕ) : Type 0 where
  inside : Text
  rest : Text
  nested : Nested inside
  splits : text ≡ inside ++ (top ∷ rest)
  goes_on : inside_loop (i + length inside + 1) stack rest ≡ some p

abbrev ClosesIf : ℕ → ℕ → List ℕ → Text → Type 0
ClosesIf i top stack text =
    (p : ℕ) → inside_loop i (top ∷ stack) text ≡ some p → Closes i top stack text p

length_splits :
    {i top p : ℕ} {stack : List ℕ} {text : Text} (z : Closes i top stack text p)
    → length text ≡ length (z.inside ++ (top ∷ z.rest))
length_splits z = ap length z.splits

behind_other :
    (i top c : ℕ) (stack : List ℕ) (text : Text) (p : ℕ)
    → matching_punctuation c ≡ none
    → is_closing_punctuation c ≡ false
    → Closes (i + 1) top stack text p
    → Closes i top stack (c ∷ text) p
behind_other i top c stack text p hm hc z = record {
  inside = c ∷ z.inside;
  rest = z.rest;
  nested = other hm hc z.nested;
  splits = ap (λ x. c ∷ x) z.splits;
  goes_on =
      let e : i + suc (length z.inside) + 1 ≡ i + 1 + length z.inside + 1 = omega arith in
      rw e z.goes_on;
}

behind_pair :
    (i top c d : ℕ) (stack : List ℕ) (text : Text) (p : ℕ)
    → matching_punctuation c ≡ some d
    → (z : Closes (i + 1) d (top ∷ stack) text p)
    → Closes (i + 1 + length z.inside + 1) top stack z.rest p
    → Closes i top stack (c ∷ text) p
behind_pair i top c d stack text p hm z w = record {
  inside = c ∷ (z.inside ++ (d ∷ w.inside));
  rest = w.rest;
  nested = pair d z.inside w.inside hm z.nested w.nested refl;
  splits = ap (λ x. c ∷ x) (z.splits ∙ rw (w.splits, append_assoc));
  goes_on =
      let e : i + suc (length (z.inside ++ (d ∷ w.inside))) + 1
          ≡ i + 1 + length z.inside + 1 + length w.inside + 1 =
        omega (arith, length-append {0} z.inside (d ∷ w.inside)) in
      rw e w.goes_on;
}

at_top :
    (i top c : ℕ) (stack : List ℕ) (text : Text) (p : ℕ)
    → (c == top) ≡ true
    → inside_loop i (top ∷ stack) (c ∷ text) ≡ some p
    → Closes i top stack (c ∷ text) p
at_top i top c stack text p h e = record {
  inside = [];
  rest = text;
  nested = nothing;
  splits = let q : c ≡ top = ground arith in rw q;
  goes_on =
      let q : i + 0 + 1 ≡ i + 1 = omega arith in rw q (sym (close_step i top c stack text h) ∙ e);
}

inside_step :
    (i top c : ℕ) (stack : List ℕ) (text : Text)
    → ((u : Text) (j t : ℕ) (r : List ℕ) → length u ≤ length text → ClosesIf j t r u)
    → (b closing : Bool) (m : Option ℕ) → (c == top) ≡ b
    → is_closing_punctuation c ≡ closing
    → matching_punctuation c ≡ m
    → ClosesIf i top stack (c ∷ text)
inside_step i top c stack text ih true closing m h hc hm p e = at_top i top c stack text p h e
inside_step i top c stack text ih false true m h hc hm p e =
    let q = wrong_step i top c stack text h hc in ground arith
inside_step i top c stack text ih false false none h hc hm p e =
    behind_other i top c stack text p hm hc
      (ih text (i + 1) top stack (omega arith) p (sym (other_step i top c stack text h hc hm) ∙ e))
inside_step i top c stack text ih false false (some d) h hc hm p e =
    let z =
      ih text (i + 1) d (top ∷ stack) (omega arith) p
        (sym (open_step i top c stack text d h hm) ∙ e) in
    let shorter : length z.rest ≤ length text =
      omega (arith, length-append {0} z.inside (d ∷ z.rest), length_splits z) in
    behind_pair i top c d stack text p hm z (ih z.rest _ top stack shorter p z.goes_on)

inside_loop-Closes :
    (k : ℕ) (text : Text) (i top : ℕ) (stack : List ℕ) → length text ≤ k → ClosesIf i top stack text
unfolding inside_loop
inside_loop-Closes k [] i top stack h p e = ground arith
inside_loop-Closes zero (c ∷ text) i top stack h p e = ground arith
inside_loop-Closes (suc k) (c ∷ text) i top stack h p e =
    inside_step i top c stack text (λ u j t r l. inside_loop-Closes k u j t r (omega arith)) _ _ _
      refl refl refl p e

inside_loop-end : (i p : ℕ) (rest : Text) → inside_loop i [] rest ≡ some p → i ≡ p
unfolding inside_loop
inside_loop-end i p rest e = ground arith

drop-length : (s t : Text) → drop (length s) (s ++ t) ≡ t
drop-length [] t = refl
drop-length (c ∷ s) t = drop-length s t

take-length : (s t : Text) → take (length s) (s ++ t) ≡ s
take-length [] t = refl
take-length (c ∷ s) t = ap (λ x. c ∷ x) (take-length s t)

-- Between the start and the place behind the parenthesis stands what the function returns.
text_inside :
    (front inside rest : Text)
    → text_until
        (front ++ (inside ++ (b')' ∷ rest)))
        (length front)
        (some (length front + length inside + 1))
      ≡ some inside
text_inside front inside rest =
    let n : length front + length inside + 1 - 1 - length front ≡ length inside = omega arith in
    rw (n, drop-length, take-length)

last_step : (i : ℕ) (rest : Text) → inside_loop i (b')' ∷ []) (b')' ∷ rest) ≡ some (i + 1)
unfolding inside_loop
last_step i rest = refl

get_text_inside-Nested :
    (front inside rest : Text)
    → Nested inside
    → get_text_inside (front ++ (inside ++ (b')' ∷ rest))) (length front) ≡ some inside
unfolding get_text_inside
get_text_inside-Nested front inside rest h =
    rw
      (
        drop-length,
        inside_loop-Nested (b')' ∷ rest) (length front) b')' [] refl h,
        last_step (length front + length inside) rest,
      )
      (text_inside front inside rest)

abbrev IsBetween : Text → Text → Type 0
IsBetween behind inside = Nested inside × ((rest : Text) × (behind ≡ inside ++ (b')' ∷ rest)))

get_text_inside-IsBetween :
    (front behind inside : Text)
    → (m : Option ℕ) → inside_loop (length front) (b')' ∷ []) behind ≡ m
    → text_until (front ++ behind) (length front) m ≡ some inside
    → IsBetween behind inside
get_text_inside-IsBetween front behind inside none e q = ground arith
get_text_inside-IsBetween front behind inside (some p) e q =
    let z = inside_loop-Closes (length behind) behind (length front) b')' [] (omega arith) p e in
    let n = inside_loop-end _ p z.rest z.goes_on in
    let same : z.inside ≡ inside =
      some-injective _ _ (sym (text_inside front z.inside z.rest) ∙ rw (sym z.splits, n) q) in
    subst (IsBetween behind) same (z.nested, (z.rest, z.splits))

-- From an opening parenthesis on, `_GetTextInside` returns a text exactly when the text behind the
-- parenthesis begins with it and a closing parenthesis, and its punctuation is nested in pairs.
pub get_text_inside_lem :
    (front behind inside : Text)
    → (get_text_inside (front ++ behind) (length front) ≡ some inside)
      ↔ (Nested inside × ((rest : Text) × (behind ≡ inside ++ (b')' ∷ rest))))
unfolding get_text_inside
get_text_inside_lem front behind inside = (
  get_text_inside-IsBetween front behind inside _
      (ap (λ x. inside_loop (length front) (b')' ∷ []) x) (sym (drop-length front behind))),
  (λ (h, (rest, e)). rw e (get_text_inside-Nested front inside rest h)),
)
