-- ===== src/Regex/Run/Words.antt =====
-- Parts that end behind a word.
use netier.Base.{ℕ, Bool, true, false, [], ◌∷◌, ◌≡◌, refl, arith, Text, is_word, if◌then◌else◌}
use netier.Regex.Syntax.{Re, seq, one, empty, boundary}
use netier.Regex.Run.{Place, is_word_at, first_of_text, keep_if, step, runs}
use netier.Regex.Run.Progress.{All, nil, also, All-flat_map}
use netier.Regex.Run.Consumes.{runs-Consumes}

-- The part ends with a character of a word and `\b`.
pub data EndsInWord : Re → Type 0 where
  at_last :
      (p : ℕ → Bool)
      → ((c : ℕ) → p c ≡ true → is_word c ≡ true)
      → EndsInWord (seq (one p) (seq (boundary true) empty))
  behind : (a : Re) {b : Re} → EndsInWord b → EndsInWord (seq a b)

-- A place behind a word
abbrev pub IsBehindWord : Place → Type 0
IsBehindWord s = (is_word_at s.prev ≡ true) × (is_word_at (first_of_text s.rest) ≡ false)

keep_if-IsBehindWord :
    (s : Place) (here : Bool) → (here ≡ true → IsBehindWord s) → All IsBehindWord (keep_if here s)
keep_if-IsBehindWord s true h = also (h refl) nil
keep_if-IsBehindWord s false h = nil

boundary-IsBehindWord :
    (s : Place) → is_word_at s.prev ≡ true → All IsBehindWord (runs (seq (boundary true) empty) s)
unfolding runs
boundary-IsBehindWord s e =
    All-flat_map (runs empty) (λ t x. also x nil) (keep_if-IsBehindWord s _ (λ h. ground arith))

if-All :
    {P : Place → Type 0} (b : Bool) (t : Place)
    → (b ≡ true → P t)
    → All P (if b then t ∷ [] else [])
if-All true t h = also (h refl) nil
if-All false t h = nil

step-word :
    (p : ℕ → Bool) (h : (c : ℕ) → p c ≡ true → is_word c ≡ true) (s : Place) (r : Text)
    → All (λ t. is_word_at t.prev ≡ true) (step p s r)
unfolding step
step-word p h s [] = nil
step-word p h s (c ∷ r) = if-All (p c) _ (h c)

pub runs-IsBehindWord : {r : Re} (s : Place) → EndsInWord r → All IsBehindWord (runs r s)
unfolding runs
runs-IsBehindWord s (at_last p h) = All-flat_map _ boundary-IsBehindWord (step-word p h s s.rest)
runs-IsBehindWord s (behind a w) = All-flat_map _ (λ t x. runs-IsBehindWord t w) (runs-Consumes a s)
