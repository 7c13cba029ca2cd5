-- ===== src/Categories.antt =====
-- The error categories and default filters of build_support/cpplint.py.
use netier.Base.{List, [], ◌∷◌, Text, txt}

-- `_ERROR_CATEGORIES`
unfoldable pub error_categories : List Text
error_categories =
    txt "build/class"
    ∷ txt "build/c++11"
    ∷ txt "build/c++14"
    ∷ txt "build/c++tr1"
    ∷ txt "build/deprecated"
    ∷ txt "build/endif_comment"
    ∷ txt "build/explicit_make_pair"
    ∷ txt "build/forward_decl"
    ∷ txt "build/header_guard"
    ∷ txt "build/include"
    ∷ txt "build/include_subdir"
    ∷ txt "build/include_alpha"
    ∷ txt "build/include_order"
    ∷ txt "build/include_what_you_use"
    ∷ txt "build/namespaces_literals"
    ∷ txt "build/namespaces"
    ∷ txt "build/printf_format"
    ∷ txt "build/storage_class"
    ∷ txt "legal/copyright"
    ∷ txt "readability/alt_tokens"
    ∷ txt "readability/braces"
    ∷ txt "readability/casting"
    ∷ txt "readability/check"
    ∷ txt "readability/constructors"
    ∷ txt "readability/fn_size"
    ∷ txt "readability/inheritance"
    ∷ txt "readability/multiline_comment"
    ∷ txt "readability/multiline_string"
    ∷ txt "readability/namespace"
    ∷ txt "readability/nolint"
    ∷ txt "readability/nul"
    ∷ txt "readability/strings"
    ∷ txt "readability/todo"
    ∷ txt "readability/utf8"
    ∷ txt "runtime/arrays"
    ∷ txt "runtime/casting"
    ∷ txt "runtime/explicit"
    ∷ txt "runtime/int"
    ∷ txt "runtime/init"
    ∷ txt "runtime/invalid_increment"
    ∷ txt "runtime/member_string_references"
    ∷ txt "runtime/memset"
    ∷ txt "runtime/indentation_namespace"
    ∷ txt "runtime/operator"
    ∷ txt "runtime/printf"
    ∷ txt "runtime/printf_format"
    ∷ txt "runtime/references"
    ∷ txt "runtime/string"
    ∷ txt "runtime/threadsafe_fn"
    ∷ txt "runtime/vlog"
    ∷ txt "whitespace/blank_line"
    ∷ txt "whitespace/braces"
    ∷ txt "whitespace/comma"
    ∷ txt "whitespace/comments"
    ∷ txt "whitespace/empty_conditional_body"
    ∷ txt "whitespace/empty_if_body"
    ∷ txt "whitespace/empty_loop_body"
    ∷ txt "whitespace/end_of_line"
    ∷ txt "whitespace/ending_newline"
    ∷ txt "whitespace/forcolon"
    ∷ txt "whitespace/indent"
    ∷ txt "whitespace/line_length"
    ∷ txt "whitespace/newline"
    ∷ txt "whitespace/operators"
    ∷ txt "whitespace/parens"
    ∷ txt "whitespace/semicolon"
    ∷ txt "whitespace/tab"
    ∷ txt "whitespace/todo"
    ∷ []

-- `_LEGACY_ERROR_CATEGORIES`
unfoldable pub legacy_error_categories : List Text
legacy_error_categories = txt "readability/streams" ∷ txt "readability/function" ∷ []

-- `_DEFAULT_FILTERS`
unfoldable pub default_filters : List Text
default_filters = txt "-build/include_alpha" ∷ []

-- `_DEFAULT_C_SUPPRESSED_CATEGORIES`
unfoldable pub c_suppressed_categories : List Text
c_suppressed_categories = txt "readability/casting" ∷ []

-- `_DEFAULT_KERNEL_SUPPRESSED_CATEGORIES`
unfoldable pub kernel_suppressed_categories : List Text
kernel_suppressed_categories = txt "whitespace/tab" ∷ []
