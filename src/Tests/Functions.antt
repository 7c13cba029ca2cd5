-- ===== src/Tests/Functions.antt =====
-- The length of functions in build_support/cpplint.py at concrete lines.
use netier.Base.{
  ◌+◌, ◌*◌, ◌^◌, ◌≤◌, ◌<◌, suc, true, false, List, [], ◌∷◌, ◌≡◌, ◌≢◌, refl, ◌↔◌, ◌⊎◌, arith, Text,
  txt, get_or, text_eq, lstrip,
}
use netier.Regex.{match_re, search_re}
use netier.FunctionState.{
  FunctionState, new_function_state, begin, check, base_trigger, error_level, starting_func,
  names_function, last_word, check_for_function_lengths, until_space, find_body, start_function,
  function_title, count,
}
use netier.FunctionState.Trigger.{check-confidence, Confidence, error_level_lem}
use netier.FunctionState.Lines.{function_pass, function_pass-body, AreInside, is_end, code_lines}

running : Unit {0}
unfolding txt text_eq lstrip match_re search_re begin base_trigger starting_func names_function
    last_word until_space check_for_function_lengths find_body start_function function_title
    new_function_state count
running = tt

abbrev lines : List Text
lines = txt "int f(int a) {" ∷ txt "  a = 1;" ∷ txt "" ∷ txt "  return a;" ∷ txt "}" ∷ []

starts_at_the_name :
    (check_for_function_lengths lines 0 1 new_function_state).0
    ≡ begin (txt "f()") new_function_state
unfolding running
starts_at_the_name = refl

abbrev inside_f : FunctionState
inside_f = record { in_a_function = true; lines_in_function = 0; current_function = txt "f()" }

lines_AreInside : AreInside lines 3 1
unfolding running
lines_AreInside = (refl, refl, (refl, refl, (refl, refl, tt)))

starts_nothing : starting_func (get_or lines 4 []) ≡ false
unfolding running
starts_nothing = refl

ends_here : is_end (get_or lines 4 []) ≡ true
unfolding running
ends_here = refl

function_pass-body_example :
    let (t, before) = function_pass lines 1 3 1 inside_f in
    let (u, at_end) = check_for_function_lengths lines (1 + 3) 1 t in
    (before ≡ [])
    × ((at_end ≢ []) ↔ (base_trigger inside_f.current_function * 2 ^ 1 < code_lines lines 3 1))
    × (u.in_a_function ≡ false)
function_pass-body_example =
    function_pass-body lines 1 3 1 inside_f refl refl lines_AreInside starts_nothing ends_here

abbrev long_function : FunctionState
long_function = record inside_f { lines_in_function = 1100 }

check-confidence_example :
    Confidence (λ confidence. (1 ≤ confidence) × (confidence ≤ 5)) (check 1 9 long_function)
check-confidence_example = check-confidence 1 9 long_function (omega arith)

error_level_lem_example :
    (error_level 1100 250 ≤ 5)
    × (250 * 2 ^ error_level 1100 250 ≤ 1100)
    × ((error_level 1100 250 ≡ 5) ⊎ (1100 < 250 * 2 ^ suc (error_level 1100 250)))
error_level_lem_example = error_level_lem 1100 250 (omega arith) (omega arith)
