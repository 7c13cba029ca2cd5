-- ===== src/Regex/Parse.antt =====
-- The syntax of `re` patterns: a pattern text to a `Re`, as `sre_compile.compile` reads it.
use netier.Base.{
  ℕ, zero, suc, ◌+◌, ◌-◌, ◌*◌, Bool, true, false, not, ◌&&◌, ◌||◌, Option, none, some, is_some, [],
  ◌∷◌, ◌==◌, if◌then◌else◌, Text, length, within, is_space, is_digit, is_word, starts_with, drop,
}
use netier.Regex.Syntax.{Re, empty, one, seq, alt, rep, group, back, bol, eol, boundary, look}

abbrev lit : ℕ → ℕ → Bool
lit a c = c == a

abbrev complement : (ℕ → Bool) → ℕ → Bool
complement p c = not (p c)

-- What a backslash and a letter stand for, as a set of characters.
escape_set : ℕ → ℕ → Bool
unfolding is_space is_digit is_word
escape_set e =
    if e == b's'
    then is_space
    else if e == b'S'
    then complement is_space
    else if e == b'w'
    then is_word
    else if e == b'W'
    then complement is_word
    else if e == b'd'
    then is_digit
    else if e == b'D'
    then complement is_digit
    else if e == b'n'
    then lit 10
    else if e == b't'
    then lit 9
    else if e == b'r'
    then lit 13
    else if e == b'f'
    then lit 12
    else if e == b'v'
    then lit 11
    else lit e

-- Does the escape name a set, so that it cannot begin a range?
abbrev is_set_escape : ℕ → Bool
is_set_escape e = e == b's' || e == b'S' || e == b'w' || e == b'W' || e == b'd' || e == b'D'

-- The value of an escape inside a class that stands for one character.
abbrev escape_code : ℕ → ℕ
escape_code e = if e == b'n' then 10 else if e == b't' then 9 else if e == b'r' then 13 else e

pub data ClassAtom : Type 0 where
  char : ℕ → Text → ClassAtom
  set : (ℕ → Bool) → Text → ClassAtom
  missing : ClassAtom

class_atom : Text → ClassAtom
unfolding escape_set
class_atom [] = missing
class_atom (c ∷ []) = if c == b'\\' then missing else char c []
class_atom (c ∷ e ∷ s) =
    if not (c == b'\\')
    then char c (e ∷ s)
    else if is_set_escape e
    then set (escape_set e) s
    else char (escape_code e) s

-- After the first character of a class item: the text behind a `-` that makes a range.
range_rest : Text → Option Text
range_rest (c ∷ d ∷ s) = if c == b'-' && not (d == b']') then some (d ∷ s) else none
range_rest _ = none

abbrev union : (ℕ → Bool) → (ℕ → Bool) → ℕ → Bool
union p q c = p c || q c

abbrev Class : Type 0
Class = Option ((ℕ → Bool) × Text)

-- The range from `lo`, once its upper end is read.
range_end : ℕ → ClassAtom → Class
range_end lo (char hi s) = some (within lo hi, s)
range_end lo _ = none

-- One item of a class: a character, a set or a range.
class_item : Text → Class
unfolding class_atom range_rest range_end
class_item s = elim (class_atom s) [
  | char lo r ↦ elim (range_rest r) [
    | some r' ↦ range_end lo (class_atom r')
    | none ↦ some (lit lo, r)
  ]
  | set p r ↦ some (p, r)
  | missing ↦ none
]

-- The items of a class up to its `]`, which may stand first as a character.
class_items : ℕ → Bool → (ℕ → Bool) → Text → Class
unfolding class_item starts_with
class_items zero first p s = none
class_items (suc fuel) first p s = elim (not first && starts_with s (b']' ∷ [])) [
  | true ↦ some (p, drop 1 s)
  | false ↦ elim (class_item s) [ none ↦ none | some (q, r) ↦ class_items fuel false (union p q) r ]
]

parse_class : Text → Class
unfolding class_items starts_with
parse_class s = elim (starts_with s (b'^' ∷ [])) [
  | false ↦ class_items (length s + 1) true (λ c. false) s
  | true ↦ elim (class_items (length s + 1) true (λ c. false) (drop 1 s)) [
    | some (p, r) ↦ some (complement p, r)
    | none ↦ none
  ]
]

-- What stands at the head of a pattern.
pub data Head : Type 0 where
  leaf : Re → Text → Head
  capture : Text → Head
  plain : Text → Head
  ahead : Bool → Text → Head
  bad : Head

class_head : Class → Head
class_head (some (p, r)) = leaf (one p) r
class_head none = bad

group_head : Text → Head
unfolding starts_with
group_head s =
    if starts_with s (b'?' ∷ b':' ∷ [])
    then plain (drop 2 s)
    else if starts_with s (b'?' ∷ b'=' ∷ [])
    then ahead true (drop 2 s)
    else if starts_with s (b'?' ∷ b'!' ∷ [])
    then ahead false (drop 2 s)
    else if starts_with s (b'?' ∷ [])
    then bad
    else capture s

escape_head : Text → Head
unfolding escape_set
escape_head [] = bad
escape_head (e ∷ s) =
    if e == b'b'
    then leaf (boundary true) s
    else if e == b'B'
    then leaf (boundary false) s
    else if within b'1' b'9' e
    then leaf (back (e - b'0')) s
    else leaf (one (escape_set e)) s

head_of : Text → Head
unfolding class_head group_head escape_head parse_class
head_of [] = bad
head_of (c ∷ s) =
    if c == b'('
    then group_head s
    else if c == b'['
    then class_head (parse_class s)
    else if c == b'\\'
    then escape_head s
    else if c == b'^'
    then leaf bol s
    else if c == b'$'
    then leaf eol s
    else if c == b'.'
    then leaf (one (complement (lit 10))) s
    else if c == b'*' || c == b'+' || c == b'?'
    then bad
    else leaf (one (lit c)) s

-- A decimal number at the head, if there is one.
number_onto : Option ℕ → Text → Option ℕ × Text
unfolding is_digit
number_onto n [] = (n, [])
number_onto n (c ∷ s) =
    let value : ℕ = elim n [ none ↦ 0 | some v ↦ v ] in
    let rest = number_onto (some (value * 10 + (c - b'0'))) s in
    if is_digit c then rest else (n, c ∷ s)

abbrev or_zero : Option ℕ → ℕ
or_zero none = 0
or_zero (some n) = n

abbrev Bounds : Type 0
Bounds = Option (ℕ × Option ℕ × Text)

upper_bound : ℕ → Option ℕ × Text → Bounds
unfolding starts_with
upper_bound lo (hi, s) = if starts_with s (b'}' ∷ []) then some (lo, hi, drop 1 s) else none

-- `{m}`, `{m,}`, `{,n}` and `{m,n}`, behind the brace. Anything else is no repeat.
braces : Option ℕ × Text → Bounds
unfolding starts_with number_onto upper_bound
braces (lo, s) =
    if starts_with s (b',' ∷ [])
    then upper_bound (or_zero lo) (number_onto none (drop 1 s))
    else if is_some lo && starts_with s (b'}' ∷ [])
    then some (or_zero lo, lo, drop 1 s)
    else none

repeat_of : Text → Bounds
unfolding braces number_onto
repeat_of [] = none
repeat_of (c ∷ s) =
    if c == b'*'
    then some (0, none, s)
    else if c == b'+'
    then some (1, none, s)
    else if c == b'?'
    then some (0, some 1, s)
    else if c == b'{'
    then braces (number_onto none s)
    else none

quantify : Re → Text → Re × Text
unfolding repeat_of starts_with
quantify r s = elim (repeat_of s) [
  | none ↦ (r, s)
  | some (lo, hi, rest) ↦
      if starts_with rest (b'?' ∷ [])
      then (rep false lo hi r, drop 1 rest)
      else (rep true lo hi r, rest)
]

-- A parsed piece, the number of the next group, and the text behind it.
abbrev Parsed : Type 0
Parsed = Option (Re × ℕ × Text)

at_end : Text → Bool
at_end [] = true
at_end (c ∷ s) = c == b'|' || c == b')'

close : (Re → Re) → Parsed → Parsed
unfolding starts_with
close wrap none = none
close wrap (some (r, g, s)) = if starts_with s (b')' ∷ []) then some (wrap r, g, drop 1 s) else none

mutual
  parse_alt : ℕ → ℕ → Text → Parsed
  parse_alt zero g s = none
  parse_alt (suc fuel) g s = elim (parse_seq fuel g s) [
    | none ↦ none
    | some (r, g', s') ↦ elim (starts_with s' (b'|' ∷ [])) [
      | false ↦ some (r, g', s')
      | true ↦ elim (parse_alt fuel g' (drop 1 s')) [
        | none ↦ none
        | some (q, g'', s'') ↦ some (alt r q, g'', s'')
      ]
    ]
  ]

  parse_seq : ℕ → ℕ → Text → Parsed
  parse_seq zero g s = none
  parse_seq (suc fuel) g s = elim (at_end s) [
    | true ↦ some (empty, g, s)
    | false ↦ elim (parse_atom fuel g s) [
      | none ↦ none
      | some (r, g', s') ↦
          let (q, s'') = quantify r s' in
          elim (parse_seq fuel g' s'') [
            | none ↦ none
            | some (t, g'', rest) ↦ some (seq q t, g'', rest)
          ]
    ]
  ]

  parse_atom : ℕ → ℕ → Text → Parsed
  parse_atom zero g s = none
  parse_atom (suc fuel) g s = elim (head_of s) [
    | leaf r rest ↦ some (r, g, rest)
    | capture rest ↦ close (group g) (parse_alt fuel (g + 1) rest)
    | plain rest ↦ close (λ r. r) (parse_alt fuel g rest)
    | ahead wanted rest ↦ close (look wanted) (parse_alt fuel g rest)
    | bad ↦ none
  ]

whole : Parsed → Option Re
whole (some (r, g, [])) = some r
whole _ = none

-- `none` for a pattern that is none of `re`'s, or that uses what no pattern here does.
unfoldable pub compile : Text → Option Re
unfolding parse_alt parse_seq parse_atom head_of quantify at_end close whole starts_with
compile pattern = whole (parse_alt (3 * length pattern + 3) 1 pattern)
