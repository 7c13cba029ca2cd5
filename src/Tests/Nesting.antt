-- ===== src/Tests/Nesting.antt =====
-- The nesting of blocks in build_support/cpplint.py at concrete lines.
use netier.Base.{
  some, true, length, ◌+◌, List, [], ◌∷◌, ◌≡◌, refl, arith, ℕ, Text, txt, inl, inr, get_or, text_eq,
}
use netier.Regex.{match_re, search_re}
use netier.Suppress.{Report}
use netier.Cleanse.{CleansedLines}
use netier.Expression.Stack.{kind_of, drop_top}
use netier.Expression.Forward.{
  close_expression, close_from, close_loop, find_end_of_expression_in_line, end_loop, end_step,
  end_branch, close_top, close_angle, shift_left, end_statement, ends_in_operator,
}
use netier.Nesting.Blocks.{
  BlockInfo, new_block, new_extern_c, new_namespace, new_class, get_indent_level, last_line_from,
  is_asm,
}
use netier.Nesting.Endings.{
  begin_class, check_begin, disallow_match, last_thing_report, disallow_loop, parent_name,
  brace_report, brace_indent, end_class, namespace_report, named_end, anonymous_end, name_end,
  end_namespace, end_of, check_end,
}
use netier.Nesting.State.{
  NestingState, new_nesting_state, completed_report, completed_blocks, check_completed_blocks,
}
use netier.Nesting.Preprocessor.{
  directive_of, see_else, update_else, update_endif, new_preprocessor_info, update_branch,
  update_preprocessor,
}
use netier.Nesting.Template.{
  after_expression, next_place, token_round, match_round, template_round, after_round,
  template_loop, total_length, in_template_argument_list,
}
use netier.Nesting.Update.{
  next_asm, count_parentheses, open_namespace, push_namespace, namespace_loop, class_decl,
  no_open_parentheses, push_class, begin_top, access_report, access_reports, access_match,
  class_access, block_access, update_access, open_brace, at_open, at_semicolon, at_close, at_token,
  brace_loop, update_heads, update_stack, update,
}
use netier.Nesting.Sections.{nesting_pass, nothing, line, no_more, branch, section-kept}
use netier.Nesting.Shape.{IsWellShaped}
use netier.Nesting.Invariant.{update-IsWellShaped}
use netier.Nesting.Rounds.{namespace_loop-enough, brace_loop-enough}
use netier.Nesting.Places.{in_template-ends}
use netier.Nesting.Braces.{Tokens, no_token, token, IsNested, skip, braces, brace_loop-IsNested}

running : Unit {0}
unfolding txt match_re search_re kind_of drop_top close_expression close_from close_loop
    find_end_of_expression_in_line end_loop end_step end_branch close_top close_angle shift_left
    end_statement ends_in_operator new_block new_extern_c new_namespace new_class get_indent_level
    last_line_from is_asm begin_class check_begin disallow_match last_thing_report disallow_loop
    parent_name brace_report brace_indent end_class namespace_report named_end anonymous_end
    name_end end_namespace end_of check_end new_nesting_state completed_report completed_blocks
    check_completed_blocks directive_of see_else update_else update_endif new_preprocessor_info
    update_branch update_preprocessor after_expression next_place token_round match_round
    template_round after_round template_loop total_length in_template_argument_list next_asm
    count_parentheses open_namespace push_namespace namespace_loop class_decl no_open_parentheses
    push_class begin_top access_report access_reports access_match class_access block_access
    update_access open_brace at_open at_semicolon at_close at_token brace_loop update_heads
    update_stack update nesting_pass text_eq
running = tt

abbrev source : List Text
unfolding txt
source =
    txt "#ifdef A"
    ∷ txt "class B {"
    ∷ txt "#else"
    ∷ txt "class B : public C {"
    ∷ txt "#endif"
    ∷ txt "  public:"
    ∷ txt "};"
    ∷ []

abbrev file : CleansedLines
file = record {
  elided = source;
  lines = source;
  raw_lines = source;
  num_lines = 7;
  lines_without_raw_strings = source;
}

abbrev names_of : List BlockInfo → List ℕ
names_of [] = []
names_of (b ∷ bs) = b.starting_linenum ∷ names_of bs

abbrev after : List ℕ → NestingState
unfolding running
after is = nesting_pass file is new_nesting_state

class_is_open : names_of (after (0 ∷ 1 ∷ 2 ∷ 3 ∷ 4 ∷ [])).stack ≡ 1 ∷ []
unfolding running
class_is_open = refl

class_is_closed : names_of (after (0 ∷ 1 ∷ 2 ∷ 3 ∷ 4 ∷ 5 ∷ 6 ∷ [])).stack ≡ []
unfolding running
class_is_closed = refl

abbrev message_of : List Report → List Text
message_of [] = []
message_of (r ∷ rs) = r.message ∷ message_of rs

public_is_reported :
    message_of (update file 5 (after (0 ∷ 1 ∷ 2 ∷ 3 ∷ 4 ∷ []))).1
    ≡ txt "public: should be indented +1 space inside class B" ∷ []
unfolding running
public_is_reported = refl

section-kept_example :
    ((nesting_pass file (0 ∷ 1 ∷ 2 ∷ 3 ∷ 4 ∷ []) new_nesting_state).pp_stack
      ≡ new_nesting_state.pp_stack)
    × ((nesting_pass file (0 ∷ 1 ∷ 2 ∷ 3 ∷ 4 ∷ []) new_nesting_state).stack
        ≡ (update_stack file 4
            (get_or source 4 [])
            (nesting_pass file (0 ∷ 1 ∷ []) new_nesting_state).stack).0)
unfolding running
section-kept_example =
    section-kept file 0 4 (1 ∷ []) (2 ∷ 3 ∷ []) new_nesting_state refl (line refl nothing)
      (branch 2 (3 ∷ []) [] refl (line refl nothing) no_more) refl

abbrev fresh_IsWellShaped : IsWellShaped 1 new_nesting_state
unfolding new_nesting_state
fresh_IsWellShaped = record {
  blocks = netier.Nesting.Shape.AreShaped.nothing;
  saved = netier.Nesting.Shape.AreSaved.nothing;
}

update-IsWellShaped_example : IsWellShaped 1 (update file 1 new_nesting_state).0
update-IsWellShaped_example = update-IsWellShaped file 1 new_nesting_state fresh_IsWellShaped

abbrev body : Text
unfolding txt
body = txt "if (a) { b; }"

brace_loop-IsNested_example : brace_loop (length body + 1) file 0 body [] ≡ ([], [])
unfolding running
brace_loop-IsNested_example =
    brace_loop-IsNested file 0 (b')' ∷ b'{' ∷ b';' ∷ b'}' ∷ []) body []
      (token _ _ refl refl
        (token _ _ refl refl (token _ _ refl refl (token _ _ refl refl (no_token refl)))))
      (skip b')' _ (inr refl) (
        braces (b';' ∷ []) [] (skip b';' [] (inl refl) netier.Nesting.Braces.IsNested.nothing)
          netier.Nesting.Braces.IsNested.nothing))
      refl

brace_loop-enough_example :
    brace_loop (length body + 1) file 0 body [] ≡ brace_loop 20 file 0 body []
unfolding body
brace_loop-enough_example =
    brace_loop-enough file 0 (length body + 1) 20 body [] (omega arith) (omega arith)

abbrev spaces : Text
unfolding txt
spaces = txt "namespace a { namespace { int x; } }"

namespace_loop-enough_example :
    namespace_loop (length spaces + 1) 0 ([], spaces) ≡ namespace_loop 40 0 ([], spaces)
unfolding spaces
namespace_loop-enough_example =
    namespace_loop-enough 0 (length spaces + 1) 40 [] spaces (omega arith) (omega arith)

abbrev template : CleansedLines
unfolding txt
template = record {
  elided = txt "template <class A, class B" ∷ txt "          = C<A>>" ∷ [];
  lines = [];
  raw_lines = [];
  num_lines = 2;
  lines_without_raw_strings = [];
}

in_template-ends_example :
    template_loop 60 template 0 17 ≡ some (in_template_argument_list template 0 17)
unfolding template total_length
in_template-ends_example = in_template-ends template 0 17 refl (omega arith) 60 (omega arith)

in_a_template : in_template_argument_list template 0 17 ≡ true
unfolding running template
in_a_template = refl
