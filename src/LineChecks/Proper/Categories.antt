-- ===== src/LineChecks/Proper/Categories.antt =====
-- The categories that the checks of a line report.
use netier.Base.{true, ◌≡◌, refl, Text, txt, elem}
use netier.Categories.{error_categories}

abbrev pub IsKnown : Text → Type 0
IsKnown category = elem category error_categories ≡ true

pub build_deprecated-IsKnown : IsKnown (txt "build/deprecated")
unfolding txt elem error_categories
build_deprecated-IsKnown = refl

pub build_endif_comment-IsKnown : IsKnown (txt "build/endif_comment")
unfolding txt elem error_categories
build_endif_comment-IsKnown = refl

pub build_forward_decl-IsKnown : IsKnown (txt "build/forward_decl")
unfolding txt elem error_categories
build_forward_decl-IsKnown = refl

pub build_printf_format-IsKnown : IsKnown (txt "build/printf_format")
unfolding txt elem error_categories
build_printf_format-IsKnown = refl

pub build_storage_class-IsKnown : IsKnown (txt "build/storage_class")
unfolding txt elem error_categories
build_storage_class-IsKnown = refl

pub readability_alt_tokens-IsKnown : IsKnown (txt "readability/alt_tokens")
unfolding txt elem error_categories
readability_alt_tokens-IsKnown = refl

pub readability_braces-IsKnown : IsKnown (txt "readability/braces")
unfolding txt elem error_categories
readability_braces-IsKnown = refl

pub readability_check-IsKnown : IsKnown (txt "readability/check")
unfolding txt elem error_categories
readability_check-IsKnown = refl

pub readability_multiline_comment-IsKnown : IsKnown (txt "readability/multiline_comment")
unfolding txt elem error_categories
readability_multiline_comment-IsKnown = refl

pub readability_multiline_string-IsKnown : IsKnown (txt "readability/multiline_string")
unfolding txt elem error_categories
readability_multiline_string-IsKnown = refl

pub readability_todo-IsKnown : IsKnown (txt "readability/todo")
unfolding txt elem error_categories
readability_todo-IsKnown = refl

pub runtime_explicit-IsKnown : IsKnown (txt "runtime/explicit")
unfolding txt elem error_categories
runtime_explicit-IsKnown = refl

pub runtime_invalid_increment-IsKnown : IsKnown (txt "runtime/invalid_increment")
unfolding txt elem error_categories
runtime_invalid_increment-IsKnown = refl

pub runtime_member_string_references-IsKnown : IsKnown (txt "runtime/member_string_references")
unfolding txt elem error_categories
runtime_member_string_references-IsKnown = refl

pub runtime_printf_format-IsKnown : IsKnown (txt "runtime/printf_format")
unfolding txt elem error_categories
runtime_printf_format-IsKnown = refl

pub runtime_threadsafe_fn-IsKnown : IsKnown (txt "runtime/threadsafe_fn")
unfolding txt elem error_categories
runtime_threadsafe_fn-IsKnown = refl

pub runtime_vlog-IsKnown : IsKnown (txt "runtime/vlog")
unfolding txt elem error_categories
runtime_vlog-IsKnown = refl

pub whitespace_blank_line-IsKnown : IsKnown (txt "whitespace/blank_line")
unfolding txt elem error_categories
whitespace_blank_line-IsKnown = refl

pub whitespace_braces-IsKnown : IsKnown (txt "whitespace/braces")
unfolding txt elem error_categories
whitespace_braces-IsKnown = refl

pub whitespace_comma-IsKnown : IsKnown (txt "whitespace/comma")
unfolding txt elem error_categories
whitespace_comma-IsKnown = refl

pub whitespace_comments-IsKnown : IsKnown (txt "whitespace/comments")
unfolding txt elem error_categories
whitespace_comments-IsKnown = refl

pub whitespace_empty_conditional_body-IsKnown : IsKnown (txt "whitespace/empty_conditional_body")
unfolding txt elem error_categories
whitespace_empty_conditional_body-IsKnown = refl

pub whitespace_empty_if_body-IsKnown : IsKnown (txt "whitespace/empty_if_body")
unfolding txt elem error_categories
whitespace_empty_if_body-IsKnown = refl

pub whitespace_empty_loop_body-IsKnown : IsKnown (txt "whitespace/empty_loop_body")
unfolding txt elem error_categories
whitespace_empty_loop_body-IsKnown = refl

pub whitespace_end_of_line-IsKnown : IsKnown (txt "whitespace/end_of_line")
unfolding txt elem error_categories
whitespace_end_of_line-IsKnown = refl

pub whitespace_forcolon-IsKnown : IsKnown (txt "whitespace/forcolon")
unfolding txt elem error_categories
whitespace_forcolon-IsKnown = refl

pub whitespace_indent-IsKnown : IsKnown (txt "whitespace/indent")
unfolding txt elem error_categories
whitespace_indent-IsKnown = refl

pub whitespace_line_length-IsKnown : IsKnown (txt "whitespace/line_length")
unfolding txt elem error_categories
whitespace_line_length-IsKnown = refl

pub whitespace_newline-IsKnown : IsKnown (txt "whitespace/newline")
unfolding txt elem error_categories
whitespace_newline-IsKnown = refl

pub whitespace_operators-IsKnown : IsKnown (txt "whitespace/operators")
unfolding txt elem error_categories
whitespace_operators-IsKnown = refl

pub whitespace_parens-IsKnown : IsKnown (txt "whitespace/parens")
unfolding txt elem error_categories
whitespace_parens-IsKnown = refl

pub whitespace_semicolon-IsKnown : IsKnown (txt "whitespace/semicolon")
unfolding txt elem error_categories
whitespace_semicolon-IsKnown = refl

pub whitespace_tab-IsKnown : IsKnown (txt "whitespace/tab")
unfolding txt elem error_categories
whitespace_tab-IsKnown = refl

pub whitespace_todo-IsKnown : IsKnown (txt "whitespace/todo")
unfolding txt elem error_categories
whitespace_todo-IsKnown = refl

pub readability_casting-IsKnown : IsKnown (txt "readability/casting")
unfolding txt elem error_categories
readability_casting-IsKnown = refl

pub runtime_casting-IsKnown : IsKnown (txt "runtime/casting")
unfolding txt elem error_categories
runtime_casting-IsKnown = refl

pub runtime_string-IsKnown : IsKnown (txt "runtime/string")
unfolding txt elem error_categories
runtime_string-IsKnown = refl

pub runtime_init-IsKnown : IsKnown (txt "runtime/init")
unfolding txt elem error_categories
runtime_init-IsKnown = refl

pub runtime_printf-IsKnown : IsKnown (txt "runtime/printf")
unfolding txt elem error_categories
runtime_printf-IsKnown = refl

pub runtime_int-IsKnown : IsKnown (txt "runtime/int")
unfolding txt elem error_categories
runtime_int-IsKnown = refl

pub runtime_operator-IsKnown : IsKnown (txt "runtime/operator")
unfolding txt elem error_categories
runtime_operator-IsKnown = refl

pub runtime_memset-IsKnown : IsKnown (txt "runtime/memset")
unfolding txt elem error_categories
runtime_memset-IsKnown = refl

pub runtime_arrays-IsKnown : IsKnown (txt "runtime/arrays")
unfolding txt elem error_categories
runtime_arrays-IsKnown = refl

pub runtime_references-IsKnown : IsKnown (txt "runtime/references")
unfolding txt elem error_categories
runtime_references-IsKnown = refl

pub build_namespaces-IsKnown : IsKnown (txt "build/namespaces")
unfolding txt elem error_categories
build_namespaces-IsKnown = refl

pub build_namespaces_literals-IsKnown : IsKnown (txt "build/namespaces_literals")
unfolding txt elem error_categories
build_namespaces_literals-IsKnown = refl

pub build_explicit_make_pair-IsKnown : IsKnown (txt "build/explicit_make_pair")
unfolding txt elem error_categories
build_explicit_make_pair-IsKnown = refl

pub readability_inheritance-IsKnown : IsKnown (txt "readability/inheritance")
unfolding txt elem error_categories
readability_inheritance-IsKnown = refl

pub build_cxx11-IsKnown : IsKnown (txt "build/c++11")
unfolding txt elem error_categories
build_cxx11-IsKnown = refl

pub build_cxx14-IsKnown : IsKnown (txt "build/c++14")
unfolding txt elem error_categories
build_cxx14-IsKnown = refl

pub build_cxxtr1-IsKnown : IsKnown (txt "build/c++tr1")
unfolding txt elem error_categories
build_cxxtr1-IsKnown = refl

pub ruleset known = (
  build_deprecated-IsKnown, build_endif_comment-IsKnown, build_forward_decl-IsKnown,
  build_printf_format-IsKnown, build_storage_class-IsKnown, readability_alt_tokens-IsKnown,
  readability_braces-IsKnown, readability_check-IsKnown, readability_multiline_comment-IsKnown,
  readability_multiline_string-IsKnown, readability_todo-IsKnown, runtime_explicit-IsKnown,
  runtime_invalid_increment-IsKnown, runtime_member_string_references-IsKnown,
  runtime_printf_format-IsKnown, runtime_threadsafe_fn-IsKnown, runtime_vlog-IsKnown,
  whitespace_blank_line-IsKnown, whitespace_braces-IsKnown, whitespace_comma-IsKnown,
  whitespace_comments-IsKnown, whitespace_empty_conditional_body-IsKnown,
  whitespace_empty_if_body-IsKnown, whitespace_empty_loop_body-IsKnown,
  whitespace_end_of_line-IsKnown, whitespace_forcolon-IsKnown, whitespace_indent-IsKnown,
  whitespace_line_length-IsKnown, whitespace_newline-IsKnown, whitespace_operators-IsKnown,
  whitespace_parens-IsKnown, whitespace_semicolon-IsKnown, whitespace_tab-IsKnown,
  whitespace_todo-IsKnown, readability_casting-IsKnown, runtime_casting-IsKnown,
  runtime_string-IsKnown, runtime_init-IsKnown, runtime_printf-IsKnown, runtime_int-IsKnown,
  runtime_operator-IsKnown, runtime_memset-IsKnown, runtime_arrays-IsKnown,
  runtime_references-IsKnown, build_namespaces-IsKnown, build_namespaces_literals-IsKnown,
  build_explicit_make_pair-IsKnown, readability_inheritance-IsKnown, build_cxx11-IsKnown,
  build_cxx14-IsKnown, build_cxxtr1-IsKnown,
)
