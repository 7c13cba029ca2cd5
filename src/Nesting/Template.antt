-- ===== src/Nesting/Template.antt =====
-- `InTemplateArgumentList`.
use netier.Base.{
  ℕ, zero, suc, ◌+◌, ◌-◌, Bool, true, false, Option, none, some, List, [], ◌∷◌, ◌==◌, leb,
  if◌then◌else◌, Text, txt, get_or, length, drop,
}
use netier.Regex.{Found, match_re, group_or_empty}
use netier.Cleanse.{CleansedLines}
use netier.Expression.Stack.{Location}
use netier.Expression.Forward.{close_expression}

-- How a round of the loop ends: with an answer, or at a place to go on from
pub data Round : Type 0 where
  answer : Bool → Round
  go_on : ℕ → ℕ → Round

unfoldable pub after_expression : Option Location → Round
after_expression none = answer false
after_expression (some l) = elim l.pos [
  | some end_pos ↦ go_on l.linenum end_pos
  | none ↦ answer false
]

-- The place behind position `pos - 1` of a line, where the next line follows its end
unfoldable pub next_place : ℕ → ℕ → Text → Round
next_place linenum pos line =
    if leb (length line) pos then go_on (linenum + 1) 0 else go_on linenum pos

abbrev pub one_of_codes : ℕ → List ℕ → Bool
one_of_codes c [] = false
one_of_codes c (d ∷ ds) = if c == d then true else one_of_codes c ds

-- The round for the token that ends in front of `pos`
unfoldable pub token_round : CleansedLines → ℕ → ℕ → ℕ → Text → Round
token_round clean_lines linenum pos token line =
    if one_of_codes token (b'{' ∷ b'}' ∷ b';' ∷ [])
    then answer false
    else if one_of_codes token (b'>' ∷ b'=' ∷ b'[' ∷ b']' ∷ b'.' ∷ [])
    then answer true
    else if token == b'<'
    then after_expression (close_expression clean_lines linenum (pos - 1))
    else next_place linenum (pos + 1) line

unfoldable pub match_round : CleansedLines → ℕ → ℕ → Text → Option Found → Round
match_round clean_lines linenum pos line none = go_on (linenum + 1) 0
match_round clean_lines linenum pos line (some m) =
    token_round clean_lines linenum (pos + m.stop) (get_or (group_or_empty 1 m) 0 0) line

unfoldable pub template_round : CleansedLines → ℕ → ℕ → Round
template_round clean_lines linenum pos =
    let line = get_or clean_lines.elided linenum [] in
    match_round clean_lines linenum pos line
      (match_re (txt "^[^{};=\\[\\]\\.<>]*(.)") (drop pos line))

-- What follows a round, given the loop from its end on.
unfoldable pub after_round : Round → (ℕ → ℕ → Option Bool) → Option Bool
after_round (answer b) go = some b
after_round (go_on linenum pos) go = go linenum pos

-- The loop; none is out of rounds.
unfoldable pub template_loop : ℕ → CleansedLines → ℕ → ℕ → Option Bool
template_loop zero clean_lines linenum pos = none
template_loop (suc fuel) clean_lines linenum pos =
    let go = template_loop fuel clean_lines in
    let round = template_round clean_lines linenum pos in
    if leb clean_lines.num_lines linenum then some false else after_round round go

unfoldable pub total_length : List Text → ℕ
total_length [] = 0
total_length (line ∷ lines) = length line + 1 + total_length lines

-- The answer of the loop, or false out of rounds
abbrev pub template_result : Option Bool → Bool
template_result none = false
template_result (some b) = b

-- There is a round for each character and each line, and one more.
unfoldable pub in_template_argument_list : CleansedLines → ℕ → ℕ → Bool
in_template_argument_list clean_lines linenum pos =
    template_result (template_loop (total_length clean_lines.elided + 1) clean_lines linenum pos)
