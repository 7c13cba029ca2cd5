-- ===== src/Tests/LineReports.antt =====
-- The checks of a line in build_support/cpplint.py at concrete lines.
use netier.Base.{[], ◌∷◌, ◌≡◌, refl, map, txt}
use netier.LineChecks.Semicolons.{reported}
use netier.LineChecks.Comments.{check_comment}
use netier.Tests.Running.{running, brief, style}

clean : style (txt "  return x;" ∷ txt "" ∷ []) ≡ []
unfolding style
clean = refl

needless_semicolon :
    style (txt "  if (a) {" ∷ txt "    b();" ∷ txt "  };" ∷ txt "" ∷ [])
    ≡ (2, []) ∷ (3, []) ∷ (3, txt "You don't need a ; after a }") ∷ []
unfolding style
needless_semicolon = refl

empty_body :
    style (txt "  if (a)" ∷ txt "  {" ∷ txt "  }" ∷ txt "" ∷ [])
    ≡ (1, txt "If statement had no body and no else clause") ∷ []
unfolding style
empty_body = refl

empty_loop :
    style (txt "  while (x);" ∷ []) ≡ (1, txt "Empty loop bodies should use {} or continue") ∷ []
unfolding style
empty_loop = refl

missing_spaces :
    style (txt "  x=f(a,b);" ∷ [])
    ≡ (1, txt "Missing spaces around =") ∷ (1, txt "Missing space after ,") ∷ []
unfolding style
missing_spaces = refl

check_macro :
    style (txt "  EXPECT_FALSE(x < 42);" ∷ [])
    ≡ (1, txt "Consider using EXPECT_GE instead of EXPECT_FALSE(a < b)") ∷ []
unfolding style
check_macro = refl

alternative_token :
    style (txt "  return a and b;" ∷ []) ≡ (1, txt "Use operator && instead of and") ∷ []
unfolding style
alternative_token = refl

operators_are_hidden : style (txt "  bool operator==(int a);" ∷ []) ≡ []
unfolding style
operators_are_hidden = refl

types_before_braces : style (txt "  f(uint64_t{1});" ∷ []) ≡ []
unfolding style
types_before_braces = refl

block_without_space :
    style (txt "  if (a){" ∷ txt "    b();" ∷ txt "  }" ∷ txt "" ∷ [])
    ≡ (1, txt "Missing space before {") ∷ []
unfolding style
block_without_space = refl

lone_brace :
    style (txt "  } else if (b)" ∷ txt "    c();" ∷ [])
    ≡ (1, txt "If an else has a brace on one side, it should have it on both") ∷ []
unfolding style
lone_brace = refl

two_statements :
    style (txt "  if (a)" ∷ txt "    b();" ∷ txt "    c();" ∷ [])
    ≡ (1, txt "If/else bodies with multiple statements require braces") ∷ []
unfolding style
two_statements = refl

two_comments :
    map brief (map reported (check_comment (txt "int x; //TODO: a") 1 0))
    ≡ (1, txt "At least two spaces is best between code and comments")
      ∷ (1, txt "Missing username in TODO; it should look like \"// TODO(my_username): Stuff.\"")
      ∷ (1, txt "Should have a space between // and comment")
      ∷ []
unfolding running
two_comments = refl

finished_todo : check_comment (txt "int x;  // TODO(me): a") 1 0 ≡ []
unfolding running
finished_todo = refl

not_in_strings : check_comment (txt "f(\"http://x\");") 1 0 ≡ []
unfolding running
not_in_strings = refl
