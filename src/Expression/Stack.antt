-- ===== src/Expression/Stack.antt =====
-- The stack of brackets that are still open, its top first, and what the scans return.
use netier.Base.{ℕ, Bool, ◌&&◌, ◌||◌, Option, List, [], ◌∷◌, ◌==◌, if◌then◌else◌, Text}

abbrev pub Stack : Type 0
Stack = List ℕ

-- What a scan of a line gives: a position, no expression, or the stack for the next line.
pub data Scan : Type 0 where
  found : ℕ → Scan
  unclosed : Scan
  pending : Stack → Scan

-- What one character does: the scan goes on, passes over the next character, or ends.
pub data Step : Type 0 where
  next : Stack → Step
  skip : Stack → Step
  stop : Scan → Step

-- A line, its number, and a position on it, none for -1.
pub record Location : Type 0 where
  pub line : Text
  pub linenum : ℕ
  pub pos : Option ℕ

abbrev pub is_opening : ℕ → Bool
is_opening char = char == b'(' || char == b'[' || char == b'{'

abbrev pub is_closing : ℕ → Bool
is_closing char = char == b')' || char == b']' || char == b'}'

-- Do the two characters open and close the same bracket?
abbrev pub is_pair : ℕ → ℕ → Bool
is_pair open_char close_char =
    open_char == b'(' && close_char == b')'
    || open_char == b'[' && close_char == b']'
    || open_char == b'{' && close_char == b'}'

-- `while stack and stack[-1] == char: stack.pop()`
unfoldable pub drop_top : ℕ → Stack → Stack
drop_top char [] = []
drop_top char (top ∷ stack) = if top == char then drop_top char stack else top ∷ stack

-- The branches that both scans have.
pub data Kind : Type 0 where
  opening closing less greater semicolon plain : Kind

unfoldable pub kind_of : ℕ → Kind
kind_of char =
    if is_opening char
    then opening
    else if is_closing char
    then closing
    else if char == b'<'
    then less
    else if char == b'>'
    then greater
    else if char == b';'
    then semicolon
    else plain

-- The scan goes on with the stack after a step, unless the step ends it.
abbrev pub after_step : Step → (Stack → Scan) → (Stack → Scan) → Scan
after_step (next stack) go pass = go stack
after_step (skip stack) go pass = pass stack
after_step (stop result) go pass = result
