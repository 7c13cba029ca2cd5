-- ===== src/Tests/Includes.antt =====
-- The include order of build_support/cpplint.py at concrete headers.
use netier.Base.{List, [], ◌∷◌, ◌↔◌, txt}
use netier.IncludeState.{
  HeaderType, c_sys, cpp_sys, likely_my, other, IncludeState, new_include_state, reset_section,
  check_next_include_order,
}
use netier.IncludeState.Order.{IsQuiet, InOrder, IsQuiet-InOrder}

abbrev usual : List HeaderType
usual = likely_my ∷ c_sys ∷ cpp_sys ∷ other ∷ []

IsQuiet-InOrder_example : IsQuiet usual (reset_section (txt "if") new_include_state) ↔ InOrder usual
IsQuiet-InOrder_example = IsQuiet-InOrder (txt "if") new_include_state usual

abbrev after_cpp : IncludeState
after_cpp = (check_next_include_order cpp_sys new_include_state).0
