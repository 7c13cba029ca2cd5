-- ===== src/Base/Strings.antt =====
-- Python's `str` as a list of code points, with the methods that the scripts call.
-- Letters outside ASCII count as neither word characters nor upper case.
pub mod Find
pub mod Split
pub mod Join
pub mod Replace
use Prim.Native.Char.{code}
use Prim.Native.Nat.{ℕ, zero, suc, ◌+◌, ◌-◌, ◌/◌, ◌%◌}
use Prim.Native.String.{String}
use mathlib.Core.Bool.{Bool, true, false, ◌&&◌, ◌||◌}
use mathlib.Core.List.{List, [], ◌∷◌, ◌++◌, map, reverse}
use mathlib.Core.Option.{Option, none, some}
use netier.Base.Lists.{length}
use netier.Base.Tests.{leb, ltb, ◌==◌, if◌then◌else◌}

abbrev pub Text : Type 0
Text = List ℕ

-- A literal of the source. It stays shut in proofs and computes in tests.
unfoldable pub txt : String → Text
txt String.[] = []
txt (String.◌∷◌ c s) = code c ∷ txt s

abbrev pub within : ℕ → ℕ → ℕ → Bool
within lo hi c = leb lo c && leb c hi

-- The code points for which `str.isspace` holds; `\s` of `re` is the same set.
unfoldable pub is_space : ℕ → Bool
is_space c =
    within 9 13 c
    || within 28 32 c
    || c == 0x85
    || c == 0xa0
    || c == 0x1680
    || within 0x2000 0x200a c
    || within 0x2028 0x2029 c
    || c == 0x202f
    || c == 0x205f
    || c == 0x3000

unfoldable pub is_digit : ℕ → Bool
is_digit c = within b'0' b'9' c

unfoldable pub is_word : ℕ → Bool
unfolding is_digit
is_word c = within b'a' b'z' c || within b'A' b'Z' c || is_digit c || c == b'_'

unfoldable pub text_eq : Text → Text → Bool
text_eq [] [] = true
text_eq (a ∷ s) (b ∷ t) = a == b && text_eq s t
text_eq _ _ = false

-- `s.startswith(p)`
unfoldable pub starts_with : Text → Text → Bool
starts_with s [] = true
starts_with [] (b ∷ p) = false
starts_with (a ∷ s) (b ∷ p) = a == b && starts_with s p

-- `s.endswith(p)`
unfoldable pub ends_with : Text → Text → Bool
unfolding starts_with
ends_with s p = starts_with (reverse s) (reverse p)

find_from : ℕ → Text → Text → Option ℕ
unfolding starts_with
find_from i [] p = if starts_with [] p then some i else none
find_from i (a ∷ s) p =
    let rest = find_from (i + 1) s p in if starts_with (a ∷ s) p then some i else rest

-- `s.find(p)`, with `none` for -1
unfoldable pub find : Text → Text → Option ℕ
unfolding find_from
find s p = find_from 0 s p

-- `p in s`
unfoldable pub has_text : Text → Text → Bool
unfolding find
has_text s p = elim (find s p) [ some i ↦ true | none ↦ false ]

replace_skip : ℕ → Text → Text → Text → Text
unfolding starts_with
replace_skip k [] p q = []
replace_skip (suc k) (a ∷ s) p q = replace_skip k s p q
replace_skip zero (a ∷ s) p q = elim (starts_with (a ∷ s) p) [
  | true ↦ q ++ replace_skip (length p - 1) s p q
  | false ↦ a ∷ replace_skip zero s p q
]

-- `s.replace(p, q)` for a `p` that is not empty
unfoldable pub replace : Text → Text → Text → Text
unfolding replace_skip
replace s p q = replace_skip 0 s p q

count_skip : ℕ → Text → Text → ℕ
unfolding starts_with
count_skip k [] p = 0
count_skip (suc k) (a ∷ s) p = count_skip k s p
count_skip zero (a ∷ s) p = elim (starts_with (a ∷ s) p) [
  | true ↦ 1 + count_skip (length p - 1) s p
  | false ↦ count_skip zero s p
]

-- `s.count(p)` for a `p` that is not empty
unfoldable pub count_text : Text → Text → ℕ
unfolding count_skip
count_text s p = count_skip 0 s p

unfoldable pub lstrip : Text → Text
unfolding is_space
lstrip [] = []
lstrip (c ∷ s) = if is_space c then lstrip s else c ∷ s

unfoldable pub rstrip : Text → Text
unfolding lstrip
rstrip s = reverse (lstrip (reverse s))

unfoldable pub strip : Text → Text
unfolding lstrip rstrip
strip s = rstrip (lstrip s)

-- `s.split(c)` at one character: the current piece, reversed, and the rest
pub split_onto : ℕ → Text → Text → List Text
split_onto sep piece [] = reverse piece ∷ []
split_onto sep piece (c ∷ s) = elim (c == sep) [
  | true ↦ reverse piece ∷ split_onto sep [] s
  | false ↦ split_onto sep (c ∷ piece) s
]

unfoldable pub split_on : ℕ → Text → List Text
unfolding split_onto
split_on sep s = split_onto sep [] s

-- `sep.join(parts)` for one character
unfoldable pub join : ℕ → List Text → Text
join sep [] = []
join sep (part ∷ []) = part
join sep (part ∷ other ∷ parts) = part ++ (sep ∷ join sep (other ∷ parts))

-- `s.lower()`
unfoldable pub lower : Text → Text
lower = map (λ c. if within b'A' b'Z' c then c + 32 else c)

-- `s > t`, code point by code point
unfoldable pub text_gt : Text → Text → Bool
text_gt [] t = false
text_gt (a ∷ s) [] = true
text_gt (a ∷ s) (b ∷ t) = ltb b a || a == b && text_gt s t

-- `'%d' % n`, at most `fuel` digits
decimal_onto : ℕ → ℕ → Text → Text
decimal_onto zero n out = out
decimal_onto (suc fuel) n out =
    let rest = decimal_onto fuel (n / 10) ((b'0' + n % 10) ∷ out) in
    if ltb n 10 then (b'0' + n % 10) ∷ out else rest

unfoldable pub decimal : ℕ → Text
unfolding decimal_onto
decimal n = decimal_onto (n + 1) n []

-- `x in xs` for texts
unfoldable pub elem : Text → List Text → Bool
unfolding text_eq
elem x [] = false
elem x (y ∷ ys) = text_eq x y || elem x ys
