-- ===== src/Regex/Run.antt =====
-- The backtracking matcher: all the ways to match, in the order in which `re` tries them.
pub mod Progress
pub mod Steady
pub mod Split
pub mod Consumes
pub mod Words
pub mod Chain
use netier.Base.{
  ℕ, zero, suc, ◌+◌, ◌-◌, Bool, true, false, not, Option, none, some, List, [], ◌∷◌, ◌++◌, ◌==◌,
  if◌then◌else◌, Text, length, take, starts_with, is_word,
}
use netier.Regex.Syntax.{Re, empty, one, seq, alt, rep, group, back, bol, eol, boundary, look}

-- A place in the text, with the groups that have matched, the latest first.
pub record Place : Type 0 where
  pub pos : ℕ
  pub prev : Option ℕ
  pub rest : Text
  pub groups : List (ℕ × Text)

abbrev pub group_text : ℕ → List (ℕ × Text) → Option Text
group_text n [] = none
group_text n ((m, t) ∷ gs) = if n == m then some t else group_text n gs

-- One step over a character, if it passes the test.
step : (ℕ → Bool) → Place → Text → List Place
step p s [] = []
step p s (c ∷ r) = if p c then record s { pos = s.pos + 1; prev = some c; rest = r } ∷ [] else []

pub flat_map_places : (Place → List Place) → List Place → List Place
flat_map_places f [] = []
flat_map_places f (s ∷ ss) = f s ++ flat_map_places f ss

abbrev pub is_word_at : Option ℕ → Bool
is_word_at none = false
is_word_at (some c) = is_word c

abbrev first_of_text : Text → Option ℕ
first_of_text [] = none
first_of_text (c ∷ s) = some c

abbrev bool_eq : Bool → Bool → Bool
bool_eq true b = b
bool_eq false b = not b

abbrev keep_if : Bool → Place → List Place
keep_if true s = s ∷ []
keep_if false s = []

-- `$` holds at the end, and before a newline that ends the text.
at_eol : Text → Bool
at_eol [] = true
at_eol (c ∷ []) = c == 10
at_eol _ = false

-- `n` characters on, over a text that has as many
advance : ℕ → Place → Text → Place
advance zero s r = record s { rest = r }
advance (suc n) s [] = record s { rest = [] }
advance (suc n) s (c ∷ r) = advance n (record s { pos = s.pos + 1; prev = some c }) r

back_to : Option Text → Place → List Place
unfolding advance starts_with
back_to none s = []
back_to (some t) s = keep_if (starts_with s.rest t) (advance (length t) s s.rest)

abbrev minus_one : Option ℕ → Option ℕ
minus_one none = none
minus_one (some n) = some (n - 1)

abbrev is_spent : Option ℕ → Bool
is_spent (some zero) = true
is_spent _ = false

abbrev in_order : Bool → List Place → Place → List Place
in_order true more s = more ++ (s ∷ [])
in_order false more s = s ∷ more

-- The rounds of a repeat. A round that matches no text is the last one.
rounds : (Place → List Place) → Bool → ℕ → ℕ → Option ℕ → Place → List Place
unfolding flat_map_places
rounds f greedy zero lo hi s = []
rounds f greedy (suc fuel) (suc lo) hi s =
    flat_map_places (rounds f greedy fuel lo (minus_one hi)) (f s)
rounds f greedy (suc fuel) zero hi s = elim (is_spent hi) [
  | true ↦ s ∷ []
  | false ↦
      in_order greedy
        (flat_map_places
          (λ t. elim (t.pos == s.pos) [
            | true ↦ t ∷ []
            | false ↦ rounds f greedy fuel 0 (minus_one hi) t
          ])
          (f s))
        s
]

-- A group's text is what the place moved over.
record_group : ℕ → Place → Place → Place
record_group n s t = record t { groups = (n, take (t.pos - s.pos) s.rest) ∷ t.groups }

pub map_places : (Place → Place) → List Place → List Place
map_places f [] = []
map_places f (s ∷ ss) = f s ∷ map_places f ss

abbrev some_place : List Place → Bool
some_place [] = false
some_place (s ∷ ss) = true

unfoldable pub runs : Re → Place → List Place
unfolding step flat_map_places at_eol back_to rounds record_group map_places is_word
runs empty s = s ∷ []
runs (one p) s = step p s s.rest
runs (seq a b) s = flat_map_places (runs b) (runs a s)
runs (alt a b) s = runs a s ++ runs b s
runs (rep greedy lo hi r) s = rounds (runs r) greedy (lo + length s.rest + 2) lo hi s
runs (group n r) s = map_places (record_group n s) (runs r s)
runs (back n) s = back_to (group_text n s.groups) s
runs bol s = keep_if (s.pos == 0) s
runs eol s = keep_if (at_eol s.rest) s
runs (boundary wanted) s =
    let here = not (bool_eq (is_word_at s.prev) (is_word_at (first_of_text s.rest))) in
    keep_if (bool_eq wanted here) s
runs (look wanted r) s = keep_if (bool_eq wanted (some_place (runs r s))) s
