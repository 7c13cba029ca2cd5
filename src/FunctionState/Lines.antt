-- ===== src/FunctionState/Lines.antt =====
-- How the lines of a body are counted.
use netier.Base.{
  ℕ, zero, suc, ◌+◌, Bool, true, false, List, [], ◌++◌, ◌≡◌, arith, if◌then◌else◌, Text, txt,
  get_or, ◌*◌, ◌^◌, ◌<◌, ◌≢◌, ◌↔◌,
}
use netier.Suppress.{Report}
use netier.Regex.{is_match}
use netier.FunctionState.Trigger.{check-reports}
use netier.FunctionState.{
  base_trigger, FunctionState, starting_func, count, end, check_for_function_lengths,
}

-- The checker over `rounds` lines from `linenum` on, as the loop of `ProcessFileData` runs it.
pub function_pass : List Text → ℕ → ℕ → ℕ → FunctionState → FunctionState × List Report
function_pass lines v zero linenum s = (s, [])
function_pass lines v (suc rounds) linenum s =
    let (s', rs) = check_for_function_lengths lines linenum v s in
    let (t, qs) = function_pass lines v rounds (linenum + 1) s' in (t, rs ++ qs)

abbrev pub is_end : Text → Bool
is_end line = is_match (txt "^\\}\\s*$") line

abbrev pub is_blank : Text → Bool
is_blank line = is_match (txt "^\\s*$") line

-- None of these lines starts a function or ends one.
abbrev pub AreInside : List Text → ℕ → ℕ → Type 0
AreInside lines zero linenum = Unit
AreInside lines (suc rounds) linenum =
    (starting_func (get_or lines linenum []) ≡ false)
    × (is_end (get_or lines linenum []) ≡ false)
    × AreInside lines rounds (linenum + 1)

abbrev pub code_lines : List Text → ℕ → ℕ → ℕ
code_lines lines zero linenum = 0
code_lines lines (suc rounds) linenum =
    (if is_blank (get_or lines linenum []) then 0 else 1) + code_lines lines rounds (linenum + 1)

-- Over the lines inside a body nothing is reported, and those that are not blank are counted.
function_pass-inside :
    (lines : List Text) (v rounds linenum : ℕ) (s : FunctionState)
    → s.in_a_function ≡ true
    → AreInside lines rounds linenum
    → function_pass lines v rounds linenum s
      ≡ (record s { lines_in_function = s.lines_in_function + code_lines lines rounds linenum }, [])
unfolding function_pass check_for_function_lengths count
function_pass-inside lines v zero linenum s h a = ground arith
function_pass-inside lines v (suc rounds) linenum s h (a, b, c) = ground (
  arith,
  function_pass-inside lines v rounds (linenum + 1) s,
  function_pass-inside lines v rounds (linenum + 1)
      (record s { lines_in_function = s.lines_in_function + 1 }),
)

-- A function's body whose lines neither start a function nor end one is counted up to its closing
-- brace: nothing is reported before it, and at it the function is reported exactly when the lines
-- that are not blank are more than the trigger of its name at the verbosity level. Then no
-- function is open.
pub function_pass-body :
    (lines : List Text) (v rounds linenum : ℕ) (s : FunctionState)
    → s.in_a_function ≡ true
    → s.lines_in_function ≡ 0
    → AreInside lines rounds linenum
    → starting_func (get_or lines (linenum + rounds) []) ≡ false
    → is_end (get_or lines (linenum + rounds) []) ≡ true
    → let (t, before) = function_pass lines v rounds linenum s in
      let (u, at_end) = check_for_function_lengths lines (linenum + rounds) v t in
      (before ≡ [])
      × ((at_end ≢ [])
          ↔ (base_trigger s.current_function * 2 ^ v < code_lines lines rounds linenum))
      × (u.in_a_function ≡ false)
unfolding check_for_function_lengths end
function_pass-body lines v rounds linenum s h z a b c =
    let pass = function_pass-inside lines v rounds linenum s h a in
    ground
      (arith, pass, check-reports v (linenum + rounds) (function_pass lines v rounds linenum s).0)
