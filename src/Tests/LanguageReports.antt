-- ===== src/Tests/LanguageReports.antt =====
-- The language checks in build_support/cpplint.py at concrete lines.
use netier.Base.{
  ℕ, true, Option, none, some, List, [], ◌∷◌, ◌≡◌, refl, map, Text, txt, ends_with, lower,
}
use netier.Suppress.{Report}
use netier.Language.Casts
use netier.Language.Statics
use netier.Language.References
use netier.Language.Inheritance
use netier.Language.Features
use netier.Language.Inside
use netier.Language.Arrays
use netier.Language.Rules
use netier.Language.Line
use netier.Language.Casts.{check_casts}
use netier.Language.References.{check_for_non_const_reference}
use netier.Language.Inheritance.{check_redundant_virtual, check_redundant_override_or_final}
use netier.Language.Features.{flag_cxx11_features, flag_cxx14_features}
use netier.Language.Inside.{get_text_inside}
use netier.Language.Line.{language_line}
use netier.Tests.Running.{running, file}

abbrev brief_report : Report → ℕ × Text
brief_report r = (r.linenum, r.message)

abbrev brief_reports : Option (List Report) → Option (List (ℕ × Text))
brief_reports none = none
brief_reports (some rs) = some (map brief_report rs)

unfoldable pub language_running : Unit {0}
unfolding Casts.expecting_function_args Casts.wide_context Casts.is_no_cast Casts.cast_reports
    Casts.check_c_style_cast Casts.c_style_reports Casts.conversion_reports Casts.dereference_at
    Casts.is_parenthesis_error Casts.address_reports Casts.casts_of Casts.check_casts
    Statics.static_line Statics.string_reports Statics.check_global_static Statics.size_reports
    Statics.copy_reports Statics.check_printf References.function_start
    References.is_derived_function References.is_out_of_line_method_definition
    References.initializer_line References.initializer_loop References.is_initializer_list
    References.previous_part References.reference_line References.is_in_initializers
    References.is_whitelisted References.ref_param_pattern References.const_ref_param_pattern
    References.ref_stream_param_pattern References.parameter_reports References.is_no_reference
    References.check_for_non_const_reference Inheritance.check_make_pair_uses_deduction
    Inheritance.parameter_start Inheritance.virtual_report Inheritance.virtual_loop
    Inheritance.virtual_reports Inheritance.check_redundant_virtual Inheritance.override_reports
    Inheritance.check_redundant_override_or_final Features.cxx11_headers Features.header_reports
    Features.name_reports Features.flag_cxx11_features Features.cxx14_reports
    Features.flag_cxx14_features Inside.inside_loop Inside.get_text_inside Arrays.pieces_between
    Arrays.split_re Arrays.strip_char Arrays.bare_token Arrays.is_constant Arrays.size_of
    Arrays.are_constant Arrays.array_reports Rules.type_reports Rules.int_reports
    Rules.format_report_of Rules.printf_reports Rules.memset_reports Rules.using_reports
    Rules.rule_reports Rules.language_reports Line.no_include_reports Line.later_reports
    Line.construct_reports Line.language_line lower ends_with
language_running = tt

-- The reports for the first line of a header
unfoldable language : List Text → Option (List (ℕ × Text))
unfolding running language_running
language ls = brief_reports (language_line true (file ls) 1 [] none)

no_report : language (txt "x = 1;" ∷ []) ≡ some ([])
unfolding language
no_report = refl

deprecated_cast :
    language (txt "a = int(b);" ∷ [])
    ≡ some ((1, txt "Using deprecated casting style.  Use static_cast<int>(...) instead") ∷ [])
unfolding language
deprecated_cast = refl

c_style_cast :
    language (txt "a = (int)b;" ∷ [])
    ≡ some ((1, txt "Using C-style cast.  Use static_cast<int>(...) instead") ∷ [])
unfolding language
c_style_cast = refl

pointer_cast :
    language (txt "a = (T*)b;" ∷ [])
    ≡ some ((1, txt "Using C-style cast.  Use reinterpret_cast<T*>(...) instead") ∷ [])
unfolding language
pointer_cast = refl

address_of_cast :
    language (txt "f(&static_cast<T*>(b));" ∷ [])
    ≡ some (
        (
          1,
          txt
              "Are you taking an address of a cast?  This is dangerous: could be a temp var.  Take the address before doing the cast, rather than after",
        )
        ∷ [])
unfolding language
address_of_cast = refl

address_of_element :
    language (txt "f(&static_cast<T*>(b)->c);" ∷ [])
    ≡ some (
        (
          1,
          txt
              "Are you taking an address of something dereferenced from a cast?  Wrapping the dereferenced expression in parentheses will make the binding more obvious",
        )
        ∷ [])
unfolding language
address_of_element = refl

static_string :
    language (txt "static const string kName = f;" ∷ [])
    ≡ some (
        (
          1,
          txt
              "For a static/global string constant, use a C style string instead: \"static const char kName[]\".",
        )
        ∷ [])
unfolding language
static_string = refl

self_initialization :
    language (txt "A() : a_(a_) {}" ∷ [])
    ≡ some ((1, txt "You seem to be initializing a member variable with itself.") ∷ [])
unfolding language
self_initialization = refl

sized_snprintf :
    language (txt "snprintf(a, 10, b);" ∷ [])
    ≡ some ((1, txt "If you can, use sizeof(a) instead of 10 as the 2nd arg to snprintf.") ∷ [])
unfolding language
sized_snprintf = refl

copied_string :
    language (txt "strcpy(a, b);" ∷ [])
    ≡ some ((1, txt "Almost always, snprintf is better than strcpy") ∷ [])
unfolding language
copied_string = refl

c_type :
    language (txt "long a;" ∷ [])
    ≡ some ((1, txt "Use int16/int64/etc, rather than the C type long") ∷ [])
unfolding language
c_type = refl

long_double : language (txt "long double a;" ∷ []) ≡ some ([])
unfolding language
long_double = refl

format_string :
    language (txt "Printf(a.b());" ∷ [])
    ≡ some ((1, txt "Potential format string bug. Do Printf(\"%s\", a.b()) instead.") ∷ [])
unfolding language
format_string = refl

swapped_memset :
    language (txt "memset(a, b, 0);" ∷ [])
    ≡ some ((1, txt "Did you mean \"memset(a, 0, b)\"?") ∷ [])
unfolding language
swapped_memset = refl

using_directive :
    language (txt "using namespace a;" ∷ [])
    ≡ some ((1, txt "Do not use namespace using-directives.  Use using-declarations instead.") ∷ [])
unfolding language
using_directive = refl

variable_length :
    language (txt "int a[b + 1];" ∷ [])
    ≡ some (
        (
          1,
          txt
              "Do not use variable-length arrays.  Use an appropriately named ('k' followed by CamelCase) compile-time constant for the size.",
        )
        ∷ [])
unfolding language
variable_length = refl

constant_length : language (txt "int a[sizeof b + kSize];" ∷ []) ≡ some ([])
unfolding language
constant_length = refl

unnamed_namespace :
    language (txt "namespace {" ∷ [])
    ≡ some (
        (
          1,
          txt
              "Do not use unnamed namespaces in header files.  See https://google-styleguide.googlecode.com/svn/trunk/cppguide.xml#Namespaces for more information.",
        )
        ∷ [])
unfolding language
unnamed_namespace = refl

reference_parameter :
    language (txt "void f(int& a);" ∷ [])
    ≡ some
        ((1, txt "Is this a non-const reference? If so, make const or use a pointer: int& a") ∷ [])
unfolding language
reference_parameter = refl

const_reference : language (txt "void f(const int& a);" ∷ []) ≡ some ([])
unfolding language
const_reference = refl

split_reference : language (txt "void f(const A::" ∷ txt "       B& a);" ∷ []) ≡ some ([])
unfolding language
split_reference = refl

redundant_virtual :
    language (txt "  virtual void f() override;" ∷ [])
    ≡ some (
        (1, txt "\"virtual\" is redundant since function is already declared as \"override\"") ∷ [])
unfolding language
redundant_virtual = refl

redundant_override :
    language (txt "  void f() override final;" ∷ [])
    ≡ some
        ((1, txt "\"override\" is redundant since function is already declared as \"final\"") ∷ [])
unfolding language
redundant_override = refl

explicit_pair :
    language (txt "make_pair<a, b>(c);" ∷ [])
    ≡ some (
        (
          1,
          txt
              "For C++11-compatibility, omit template arguments from make_pair OR use pair directly OR if appropriate, construct a pair directly",
        )
        ∷ [])
unfolding language
explicit_pair = refl

inside_printf : get_text_inside (txt "printf(a(), b[c(d)]) {") 7 ≡ some (txt "a(), b[c(d)]")
unfolding running language_running
inside_printf = refl

inside_wrong : get_text_inside (txt "printf(a(], b)") 7 ≡ none
unfolding running language_running
inside_wrong = refl

new_header :
    map brief_report (flag_cxx11_features (file (txt "#include <mutex>" ∷ [])) 1)
    ≡ (1, txt "<mutex> is an unapproved C++11 header.") ∷ []
unfolding running language_running
new_header = refl

newer_header :
    map brief_report (flag_cxx14_features (file (txt "#include <shared_mutex>" ∷ [])) 1)
    ≡ (1, txt "<shared_mutex> is an unapproved C++14 header.") ∷ []
unfolding running language_running
newer_header = refl

-- The size is not split at `>>`, and its first part is a constant.
shifted_length : language (txt "int a[kA>>b];" ∷ []) ≡ some []
unfolding language
shifted_length = refl

-- The search for the parameters starts at column 7, in front of the word.
parenthesis_before_virtual : language (txt "  MACRO(virtual void f() override)" ∷ []) ≡ some []
unfolding language
parenthesis_before_virtual = refl

name_before_virtual :
    language (txt "  NAME virtual void f() override" ∷ [])
    ≡ some (
        (1, txt "\"virtual\" is redundant since function is already declared as \"override\"") ∷ [])
unfolding language
name_before_virtual = refl
