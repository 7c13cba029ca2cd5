-- ===== src/LineChecks/Common.antt =====
-- What the checks of a line share: reports, conditions, and slices of texts as Python makes them.
use netier.Base.{
  ℕ, ◌+◌, ◌-◌, Bool, true, false, ◌&&◌, Option, none, some, List, [], ◌∷◌, ◌==◌, if◌then◌else◌,
  Text, length, get_or, drop, is_space,
}
use netier.Regex.{Found, group_or_empty}
use netier.Suppress.{Report}
use netier.Expression.Stack.{Location}
unfoldable pub use netier.IncludeState.{line_before}

-- One call of `error`
abbrev pub report : ℕ → Text → ℕ → Text → Report
report linenum category confidence message = record {
  linenum = linenum;
  category = category;
  confidence = confidence;
  message = message;
}

-- The call under an `if`
abbrev pub when : Bool → Report → List Report
when true r = r ∷ []
when false r = []

-- `lines[i]`
abbrev pub line_of : List Text → ℕ → Text
line_of lines i = get_or lines i []

-- `s[pos:]`, where none is -1
abbrev pub slice_from : Text → Option ℕ → Text
slice_from s none = drop (length s - 1) s
slice_from s (some pos) = drop pos s

abbrev pub none_or_empty : Option Text → Text
none_or_empty none = []
none_or_empty (some t) = t

-- Is the text empty?
abbrev pub is_empty : Text → Bool
is_empty [] = true
is_empty (c ∷ s) = false

abbrev pub all_space : Text → Bool
all_space [] = true
all_space (c ∷ s) = is_space c && all_space s

-- `IsBlankLine`
unfoldable pub is_blank_line : Text → Bool
unfolding is_space
is_blank_line line = all_space line

-- The group of a search, or "" if nothing is found
abbrev pub group_of_search : ℕ → Option Found → Text
group_of_search n none = []
group_of_search n (some m) = group_or_empty n m

-- `s.rfind(c)` for one character: positions from `i` on
unfoldable pub rfind_from : ℕ → ℕ → Text → Option ℕ → Option ℕ
rfind_from c i [] last = last
rfind_from c i (d ∷ s) last = rfind_from c (i + 1) s (if d == c then some i else last)

unfoldable pub rfind : Text → ℕ → Option ℕ
unfolding rfind_from
rfind s c = rfind_from c 0 s none

-- The position of a location, for a call of `CloseExpression` at a place of the line
abbrev pub pos_of : Option Location → Option ℕ
pos_of none = none
pos_of (some l) = l.pos
