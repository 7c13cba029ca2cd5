-- ===== src/Tests/Running.antt =====
-- What the runs of the checks of a line open, and a file of some lines.
use netier.Base.{
  ℕ, false, Option, none, some, List, [], ◌∷◌, map, Text, txt, text_eq, is_space, is_word, is_digit,
  find, has_text, replace, count_text, split_on, strip, lstrip, rstrip, elem, join, starts_with,
  decimal,
}
use netier.Regex.{match_re, search_re, replace_all, find_all_re}
use netier.IncludeState.{line_before}
use netier.Cleanse.{CleansedLines, cleansed_lines, without_comments, without_strings}
use netier.Nesting.Blocks.{new_block, new_class, new_namespace, last_line_from, get_indent_level}
use netier.Nesting.State.{in_namespace_body, in_extern_c, innermost_class}
use netier.LineChecks.Common
use netier.LineChecks.Simple
use netier.LineChecks.Constructs
use netier.LineChecks.Calls
use netier.LineChecks.Comments
use netier.LineChecks.Spacing
use netier.LineChecks.Operators
use netier.LineChecks.Types
use netier.LineChecks.BraceSpacing
use netier.LineChecks.Braces
use netier.LineChecks.Semicolons
use netier.LineChecks.EmptyBlocks
use netier.LineChecks.CheckMacros
use netier.LineChecks.AltTokens
use netier.LineChecks.Style
use netier.LineChecks.Semicolons.{Event, reported, nolint_before, nolint_at}
use netier.LineChecks.Braces.{Unicode}
use netier.LineChecks.Style.{check_style}
use netier.Cleanse.Strings.{
  is_cpp_string, in_comment, raw_match, raw_start, same_line_end, raw_loop, raw_line, raw_lines,
  cleanse_raw_strings, collapse_quote, is_number_head, collapse_literal, literal_match, quote_match,
  is_double, collapse_at, collapse_loop, include_match, without_escapes, collapse_strings,
}
use netier.Cleanse.Comments.{
  starts_comment, ends_comment, first_line, find_next_multi_line_comment_start,
  find_next_multi_line_comment_end, clear_lines, remove_multi_line_comments_from_range,
  unclosed_report, remove_round, remove_loop, remove_multi_line_comments, without_c_comments,
  without_line_comment, cleanse_comments,
}
use netier.Expression.Forward.{
  ends_in_operator, close_top, shift_left, close_angle, end_statement, end_branch, end_step,
  end_loop, find_end_of_expression_in_line, close_loop, close_from, close_expression,
}
use netier.Expression.Backward.{
  open_top, open_angle, start_branch, start_step, start_loop, find_start_of_expression_in_line,
  open_loop, open_from, reverse_close_expression,
}
use netier.Expression.Stack.{drop_top, kind_of}

unfoldable pub running : Unit {0}
unfolding txt text_eq is_space is_word is_digit find has_text replace count_text split_on strip
    lstrip rstrip elem join starts_with decimal match_re search_re replace_all find_all_re
    line_before cleansed_lines without_comments without_strings new_block new_class new_namespace
    last_line_from get_indent_level in_namespace_body in_extern_c innermost_class is_cpp_string
    in_comment raw_match raw_start same_line_end raw_loop raw_line raw_lines cleanse_raw_strings
    collapse_quote is_number_head collapse_literal literal_match quote_match is_double collapse_at
    collapse_loop include_match without_escapes collapse_strings starts_comment ends_comment
    first_line find_next_multi_line_comment_start find_next_multi_line_comment_end clear_lines
    remove_multi_line_comments_from_range unclosed_report remove_round remove_loop
    remove_multi_line_comments without_c_comments without_line_comment cleanse_comments
    ends_in_operator close_top shift_left close_angle end_statement end_branch end_step end_loop
    find_end_of_expression_in_line close_loop close_from close_expression open_top open_angle
    start_branch start_step start_loop find_start_of_expression_in_line open_loop open_from
    reverse_close_expression drop_top kind_of Common.is_blank_line Common.rfind_from Common.rfind
    Simple.check_for_multiline_comments_and_strings Simple.threading_list Simple.threading_loop
    Simple.check_posix_threading Simple.check_vlog_arguments Simple.check_invalid_increment
    Simple.is_macro_definition Simple.is_forward_class_declaration Constructs.format_reports
    Constructs.declaration_reports Constructs.base_name_onto Constructs.base_name
    Constructs.is_unbalanced Constructs.collapse_from Constructs.collapse_args
    Constructs.constructor_args Constructs.is_noarg Constructs.is_onearg
    Constructs.is_initializer_list_constructor Constructs.is_copy_constructor
    Constructs.explicit_reports Constructs.explicit_match Constructs.match_reports
    Constructs.class_reports Constructs.check_for_non_standard_constructs Calls.call_text
    Calls.control_patterns Calls.is_plain_call Calls.after_open_reports Calls.before_open_reports
    Calls.before_close_reports Calls.check_spacing_for_function_call Comments.is_outside_quotes
    Comments.todo_reports Comments.comment_reports Comments.check_comment Spacing.initializer_start
    Spacing.is_exception Spacing.block_start_reports Spacing.block_end_reports
    Spacing.after_section_reports Spacing.blank_line_reports Spacing.next_line_start
    Spacing.code_reports Spacing.check_spacing Operators.underscores Operators.without_operator
    Operators.hide_operators Operators.equals_reports Operators.less_reports
    Operators.greater_reports Operators.comparison_reports Operators.shift_reports
    Operators.unary_reports Operators.operator_reports Operators.check_operator_spacing
    Operators.keyword_reports Operators.is_mismatch Operators.inside_reports
    Operators.check_parenthesis_spacing Operators.check_comma_spacing Types.types Types.escape
    Types.last_token Types.template_line Types.is_found_on Types.walk_up Types.is_type
    BraceSpacing.before_brace_reports BraceSpacing.semicolon_reports
    BraceSpacing.check_braces_spacing BraceSpacing.is_decltype BraceSpacing.class_head
    BraceSpacing.end_class_head BraceSpacing.section_reports BraceSpacing.check_section_spacing
    BraceSpacing.get_previous_non_blank_line Braces.columns Braces.get_line_width
    Braces.open_brace_reports Braces.else_line_reports Braces.condition_pos Braces.has_lone_brace
    Braces.else_reports Braces.body_start Braces.opens_block Braces.semicolon_line
    Braces.next_line_reports Braces.semicolon_reports_at Braces.body_reports Braces.check_braces
    Semicolons.safe_macros Semicolons.is_allowed_prefix Semicolons.eligible
    Semicolons.semicolon_report Semicolons.closing_events Semicolons.check_trailing_semicolon
    EmptyBlocks.opening_brace EmptyBlocks.has_else EmptyBlocks.if_body
    EmptyBlocks.closed_body_reports EmptyBlocks.body_reports EmptyBlocks.empty_statement_reports
    EmptyBlocks.condition_reports EmptyBlocks.check_empty_block_body CheckMacros.check_macros
    CheckMacros.comparison_names CheckMacros.inverse_names CheckMacros.name_of
    CheckMacros.check_replacement CheckMacros.first_macro CheckMacros.find_check_macro
    CheckMacros.macro_expression CheckMacros.token_kind CheckMacros.token_turn
    CheckMacros.expression_turn CheckMacros.operands_of CheckMacros.operator_reports
    CheckMacros.closed_macro_reports CheckMacros.check_check AltTokens.alt_token_replacement
    AltTokens.alt_token_pattern AltTokens.alt_token_report AltTokens.check_alt_tokens
    Style.initial_spaces Style.ends_in_space Style.is_weird_indent Style.is_header_guard
    Style.may_be_long Style.has_more_commands Style.own_reports Style.section_reports_of
    Style.spacing_reports Style.last_reports Style.style_events Style.check_style
running = tt

-- Latin text has a column for each character.
abbrev pub plain_text : Unicode
plain_text = record { normalize = λ s. s; is_wide = λ c. false; is_combining = λ c. false }

abbrev pub file : List Text → CleansedLines
unfolding running
file ls = cleansed_lines ([] ∷ ls)

abbrev pub brief : Event → ℕ × Text
brief (reported r) = (r.linenum, r.message)
brief (nolint_before t none) = (0, [])
brief (nolint_before t (some n)) = (n, [])
brief (nolint_at t n) = (n, [])

abbrev briefs : Option (List Event) → List (ℕ × Text)
briefs none = (0, []) ∷ []
briefs (some es) = map brief es

-- The events for the first line, each with its line and message
unfoldable pub style : List Text → List (ℕ × Text)
unfolding running
style ls = briefs (check_style plain_text 80 none (file ls) 1 [])
