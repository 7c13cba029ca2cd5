-- ===== src/Regex/Groups.antt =====
-- The lengths of the groups of `Match`.
use netier.Base.{
  false, Option-cases, inl, inr, ℕ, suc, ◌+◌, ◌-◌, ◌≤◌, true, none, some, List, [], ◌∷◌, ◌≡◌, refl,
  arith, Text, txt, length,
}
use mathlib.Core.Option.{some-injective}
use netier.Regex.Syntax.{Re, seq, group}
use netier.Regex.Parse.{compile}
use netier.Regex.Run.{Place, runs}
use netier.Regex.Run.Split.{Split, runs-Split, is_late-zero, both}
use netier.Regex.Run.Steady.{records, runs-IsSteady}
use netier.Regex.Run.Progress.{
  text_of, All, All-imp, nil, also, Reaches, runs-Reaches, is_late, min_chars,
}
use netier.Regex.{Found, first_found, found_at, match_re, group_or_empty}

first_found-Reaches :
    (n bound c : ℕ) (s : Place) (ss : List Place) (m : Found)
    → All (Reaches n bound c s) ss
    → first_found s.pos ss ≡ some m
    → (length m.rest + c ≤ length s.rest) × (length (group_or_empty n m) ≤ bound)
unfolding first_found
first_found-Reaches n bound c s [] m nil e = ground arith
first_found-Reaches n bound c s (t ∷ ts) m (also h hs) e = rw⁻¹ (some-injective _ _ e) h

-- A group that begins only behind `k` characters is by as many shorter than the text, and what is
-- left is shorter by the characters that the pattern takes.
pub match_re-group :
    (pattern s : Text) (m : Found) (r : Re) (n k bound : ℕ)
    → compile pattern ≡ some r
    → is_late n k r ≡ true
    → match_re pattern s ≡ some m
    → length s ≤ bound + k
    → (length m.rest + min_chars r ≤ length s) × (length (group_or_empty n m) ≤ bound)
unfolding match_re found_at
match_re-group pattern s m r n k bound c l e h =
    let s0 : Place = record { pos = 0; prev = none; rest = s; groups = [] } in
    first_found-Reaches n bound (min_chars r) s0 (runs r s0) m
      (runs-Reaches n bound r k s0 l (omega arith) h) (rw (c, match_re) at e)

-- The pattern takes a character, and has its group `n` only behind one.
pub HasLateGroup : ℕ → Text → Type 0
HasLateGroup n pattern =
    (r : Re) × (compile pattern ≡ some r) × (is_late n 1 r ≡ true) × (1 ≤ min_chars r)

pub match_re-late :
    (n : ℕ) (pattern s : Text) (m : Found)
    → HasLateGroup n pattern
    → match_re pattern s ≡ some m
    → suc (length (group_or_empty n m)) ≤ length s
unfolding HasLateGroup
match_re-late n pattern s m (r, c, l, k) e =
    let (rest, text) = match_re-group pattern s m r n 1 (length s - 1) c l e (omega arith) in
    omega arith

pub brace_pattern : HasLateGroup 2 (txt "^[^{;)}]*([{;)}])(.*)$")
unfolding HasLateGroup txt compile
brace_pattern = (_, refl, refl, omega arith)

pub namespace_pattern : HasLateGroup 2 (txt "^\\s*namespace\\b\\s*([:\\w]+)?(.*)$")
unfolding HasLateGroup txt compile
namespace_pattern = (_, refl, refl, omega arith)

pub token_late :
    HasLateGroup 2 (txt "^\\s*(<<|<<=|>>|>>=|->\\*|->|&&|\\|\\||==|!=|>=|>|<=|<|\\()(.*)$")
unfolding HasLateGroup txt compile
token_late = (_, refl, refl, omega arith)

pub operand_late : HasLateGroup 2 (txt "^([^-=!<>()&|]+)(.*)$")
unfolding HasLateGroup txt compile
operand_late = (_, refl, refl, omega arith)

pub char_late : HasLateGroup 2 (txt "^(\\s*\\S)(.*)$")
unfolding HasLateGroup txt compile
char_late = (_, refl, refl, omega arith)

-- The pattern is a part, the group `m`, and a part with the group `n` behind `k` characters.
pub HasSplit : ℕ → ℕ → ℕ → Text → Type 0
HasSplit m n k pattern =
    (a : Re) × (b : Re) × (c : Re) × (compile pattern ≡ some (seq a (seq (group m b) c)))
    × Split m n k a b c

first_found-AreApart :
    (m n k l : ℕ) (start : ℕ) (ss : List Place) (found : Found)
    → All (λ t. length (text_of m t.groups) + length (text_of n t.groups) + k ≤ l) ss
    → first_found start ss ≡ some found
    → length (group_or_empty m found) + length (group_or_empty n found) + k ≤ l
unfolding first_found
first_found-AreApart m n k l start [] found nil e = ground arith
first_found-AreApart m n k l start (t ∷ ts) found (also h hs) e = rw⁻¹ (some-injective _ _ e) h

-- The two groups are at least `k` characters apart.
pub match_re-split :
    (m n k : ℕ) (pattern s : Text) (found : Found)
    → HasSplit m n k pattern
    → match_re pattern s ≡ some found
    → length (group_or_empty m found) + length (group_or_empty n found) + k ≤ length s
unfolding HasSplit match_re found_at
match_re-split m n k pattern s found (a, b, c, e, split) h =
    let s0 : Place = record { pos = 0; prev = none; rest = s; groups = [] } in
    first_found-AreApart m n k (length s) 0 (runs (seq a (seq (group m b) c)) s0) found
      (All-imp (λ t x. omega arith) (runs-Split m n k a b c split s0 (omega arith)))
      (rw (e, match_re) at h)

pub quote_pattern : HasSplit 1 3 1 (txt "^([^'\"]*)(['\"])(.*)$")
unfolding HasSplit txt compile
quote_pattern =
    (_, _, _, refl, record { m_only = refl; n_only = refl; late = refl; enough = omega arith })

pub raw_pattern : HasSplit 1 3 3 (txt "^(.*?)\\b(?:R|u8R|uR|UR|LR)\"([^\\s\\\\()]*)\\((.*)$")
unfolding HasSplit txt compile
raw_pattern =
    (_, _, _, refl, record { m_only = refl; n_only = refl; late = refl; enough = omega arith })

pub cast_pattern : HasSplit 1 2 1 (txt "^(.*&(?:static|dynamic|down|reinterpret)_cast\\b)<")
unfolding HasSplit txt compile
cast_pattern =
    (_, _, _, refl, record { m_only = refl; n_only = refl; late = refl; enough = omega arith })

-- No group is longer than the text.
pub match_re-within :
    (n : ℕ) (pattern s : Text) (m : Found)
    → match_re pattern s ≡ some m
    → length (group_or_empty n m) ≤ length s
unfolding match_re
match_re-within n pattern s m e = elim (Option-cases (compile pattern)) [
  | inl c ↦ let e' = rw (c, match_re) at e in ground arith
  | inr (r, c) ↦
      (match_re-group pattern s m r n 0 (length s) c (is_late-zero n r) e (omega arith)).1
]

-- The pattern takes a character, and records no group `n`.
pub HasEnd : ℕ → Text → Type 0
HasEnd n pattern = (r : Re) × (compile pattern ≡ some r) × (records n r ≡ false) × (1 ≤ min_chars r)

first_found-end :
    (l : ℕ) (start : ℕ) (ss : List Place) (m : Found)
    → All (λ t. (1 ≤ t.pos) × (t.pos ≤ l)) ss
    → first_found start ss ≡ some m
    → (1 ≤ m.stop) × (m.stop ≤ l)
unfolding first_found
first_found-end l start [] m nil e = ground arith
first_found-end l start (t ∷ ts) m (also h hs) e = rw⁻¹ (some-injective _ _ e) h

-- The match ends within the text, behind a character.
pub match_re-end :
    (n : ℕ) (pattern s : Text) (m : Found)
    → HasEnd n pattern
    → match_re pattern s ≡ some m
    → (1 ≤ m.stop) × (m.stop ≤ length s)
unfolding HasEnd match_re found_at
match_re-end n pattern s m (r, c, k, l) e =
    let s0 : Place = record { pos = 0; prev = none; rest = s; groups = [] } in
    first_found-end (length s) 0 (runs r s0) m
      (All-imp (λ t ((p, q), (u, v)). (omega arith, omega arith))
        (both (runs-Reaches n (length s) r 0 s0 (is_late-zero n r) (omega arith) (omega arith))
          (runs-IsSteady n r s0 k)))
      (rw (c, match_re) at e)

pub template_pattern : HasEnd 2 (txt "^[^{};=\\[\\]\\.<>]*(.)")
unfolding HasEnd txt compile
template_pattern = (_, refl, refl, omega arith)
