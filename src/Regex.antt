-- ===== src/Regex.antt =====
-- `Match`, `Search`, `ReplaceAll` of build_support/cpplint.py over a model of Python's `re`.
-- The cache of compiled patterns only saves time, so it has no counterpart here.
mod Syntax
mod Parse
mod Run
pub mod Groups
pub mod Parts
mod Tests
use netier.Base.{
  ℕ, zero, suc, ◌+◌, ◌-◌, Option, none, some, List, [], ◌∷◌, ◌++◌, Text, Bool, is_some,
}
use Syntax.{Re}
use Parse.{compile}
use Run.{Place, runs, group_text}

-- A match object: where it starts and ends, what follows it, and its groups.
pub record Found : Type 0 where
  pub start : ℕ
  pub stop : ℕ
  pub rest : Text
  pub groups : List (ℕ × Text)

-- `m.group(n)` for a group that has matched, or "" for one that has not
abbrev pub group_or_empty : ℕ → Found → Text
group_or_empty n m = elim (group_text n m.groups) [ some t ↦ t | none ↦ [] ]

-- `m.group(n)`
abbrev pub group_of : ℕ → Found → Option Text
group_of n m = group_text n m.groups

first_found : ℕ → List Place → Option Found
first_found start [] = none
first_found start (s ∷ ss) =
    some (record { start = start; stop = s.pos; rest = s.rest; groups = s.groups })

found_at : Re → ℕ → Option ℕ → Text → Option Found
unfolding first_found runs
found_at r pos prev s =
    first_found pos (runs r (record { pos = pos; prev = prev; rest = s; groups = [] }))

search_from : Re → ℕ → Option ℕ → Text → Option Found
unfolding found_at
search_from r pos prev [] = found_at r pos prev []
search_from r pos prev (c ∷ s) = elim (found_at r pos prev (c ∷ s)) [
  | some m ↦ some m
  | none ↦ search_from r (pos + 1) (some c) s
]

-- `Match(pattern, s)`
unfoldable pub match_re : Text → Text → Option Found
unfolding compile found_at
match_re pattern s = elim (compile pattern) [ some r ↦ found_at r 0 none s | none ↦ none ]

-- `Search(pattern, s)`
unfoldable pub search_re : Text → Text → Option Found
unfolding compile search_from
search_re pattern s = elim (compile pattern) [ some r ↦ search_from r 0 none s | none ↦ none ]

-- The tests `if Match(…)` and `if Search(…)`
abbrev pub is_match : Text → Text → Bool
is_match pattern s = is_some (match_re pattern s)

abbrev pub is_found : Text → Text → Bool
is_found pattern s = is_some (search_re pattern s)

-- `sub` behind a match: `skip` characters of it are still to be passed over.
sub_from : Re → Text → ℕ → ℕ → Option ℕ → Text → Text
unfolding found_at
sub_from r by skip pos prev [] = []
sub_from r by (suc skip) pos prev (c ∷ s) = sub_from r by skip (pos + 1) (some c) s
sub_from r by zero pos prev (c ∷ s) = elim (found_at r pos prev (c ∷ s)) [
  | none ↦ c ∷ sub_from r by 0 (pos + 1) (some c) s
  | some m ↦ by ++ sub_from r by (m.stop - pos - 1) (pos + 1) (some c) s
]

-- `ReplaceAll(pattern, by, s)`, for patterns that match no empty text and a `by` with no backslash
unfoldable pub replace_all : Text → Text → Text → Text
unfolding compile sub_from
replace_all pattern by s = elim (compile pattern) [ some r ↦ sub_from r by 0 0 none s | none ↦ s ]

-- `pattern.finditer(s)`, for patterns that match no empty text
all_from : Re → ℕ → ℕ → Option ℕ → Text → List Found
unfolding found_at
all_from r skip pos prev [] = []
all_from r (suc skip) pos prev (c ∷ s) = all_from r skip (pos + 1) (some c) s
all_from r zero pos prev (c ∷ s) = elim (found_at r pos prev (c ∷ s)) [
  | none ↦ all_from r 0 (pos + 1) (some c) s
  | some m ↦ m ∷ all_from r (m.stop - pos - 1) (pos + 1) (some c) s
]

unfoldable pub find_all_re : Text → Text → List Found
unfolding compile all_from
find_all_re pattern s = elim (compile pattern) [ some r ↦ all_from r 0 0 none s | none ↦ [] ]
