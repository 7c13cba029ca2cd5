-- ===== src/Tests/Expressions.antt =====
-- The search for brackets in build_support/cpplint.py at concrete lines.
use netier.Base.{List, [], ◌∷◌, ◌≡◌, refl, arith, Text, txt, inl, inr, some, get_or, ◌+◌}
use netier.Regex.{match_re, search_re}
use netier.Cleanse.{CleansedLines}
use netier.Expression.Stack.{Location, kind_of, drop_top}
use netier.Expression.Forward.{
  close_expression, close_from, close_loop, find_end_of_expression_in_line, end_loop, end_step,
  end_branch, close_top, close_angle, shift_left, end_statement, ends_in_operator,
}
use netier.Expression.Backward.{
  reverse_close_expression, open_from, open_loop, find_start_of_expression_in_line, start_loop,
  start_step, start_branch, open_top, open_angle,
}
use netier.Expression.Closing.{IsClosed, close_expression-IsClosed}
use netier.Expression.Moves.{PosMoves, close_expression-moves}
use netier.Expression.Balanced.{Balanced, nothing, other, bracket, close_expression-Balanced}

running : Unit {0}
unfolding txt match_re search_re kind_of drop_top close_expression close_from close_loop
    find_end_of_expression_in_line end_loop end_step end_branch close_top close_angle shift_left
    end_statement ends_in_operator reverse_close_expression open_from open_loop
    find_start_of_expression_in_line start_loop start_step start_branch open_top open_angle
running = tt

abbrev elided : List Text
unfolding txt
elided = txt "x = f(map<int," ∷ txt "  list<a>>(b[1]) < 2);" ∷ []

abbrev file : CleansedLines
file = record {
  elided = elided;
  lines = elided;
  raw_lines = elided;
  num_lines = 2;
  lines_without_raw_strings = elided;
}

abbrev closing_place : Location
closing_place = record { line = get_or elided 1 []; linenum = 1; pos = some 21 }

closes_on_the_next_line : close_expression file 0 5 ≡ some closing_place
unfolding running
closes_on_the_next_line = refl

opens_on_the_line_before :
    reverse_close_expression file 1 20
    ≡ some (record { line = get_or elided 0 []; linenum = 0; pos = some 5 })
unfolding running
opens_on_the_line_before = refl

angle_closes :
    close_expression file 0 9
    ≡ some (record { line = get_or elided 1 []; linenum = 1; pos = some 10 })
unfolding running
angle_closes = refl

close_expression-IsClosed_example : IsClosed b'(' elided 0 5 closing_place (some 21)
unfolding running
close_expression-IsClosed_example =
    close_expression-IsClosed file 0 5 b'(' closing_place (omega arith) refl (inl refl)
      closes_on_the_next_line

abbrev nested : CleansedLines
unfolding txt
nested = record file { elided = txt "f(a[0]; b) x" ∷ [] }

argument_Balanced : Balanced (b'a' ∷ b'[' ∷ b'0' ∷ b']' ∷ b';' ∷ b' ' ∷ b'b' ∷ [])
unfolding kind_of
argument_Balanced = other (inl refl) (
    bracket b']' (b'0' ∷ []) (b';' ∷ b' ' ∷ b'b' ∷ []) refl (other (inl refl) nothing)
      (other (inr refl) (other (inl refl) (other (inl refl) nothing))) refl)

close_expression-Balanced_example :
    close_expression nested 0 1
    ≡ some (record { line = get_or nested.elided 0 []; linenum = 0; pos = some (1 + 7 + 2) })
unfolding txt
close_expression-Balanced_example =
    close_expression-Balanced nested 0 1 b'(' b')' (b' ' ∷ b'x' ∷ []) refl argument_Balanced refl

close_expression-moves_example : PosMoves elided 0 5 1 (some 21)
unfolding running
close_expression-moves_example =
    close_expression-moves file 0 5 closing_place (omega arith) closes_on_the_next_line
