-- ===== src/Tests/WholeFiles.antt =====
-- The checks of whole files in build_support/cpplint.py on small texts.
use netier.Base.{
  [], ◌∷◌, ◌≡◌, ◌↔◌, refl, Text, txt, true, lower, has_text, split_on, starts_with, find, ends_at,
  length,
}
use netier.Checks.{
  check_for_copyright, has_copyright, copyright_report, check_for_bad_characters,
  bad_characters_from, utf8_report, nul_report, check_for_newline_at_eof, newline_report,
  numbered_lines,
}
use netier.Checks.Newline.{check_for_newline-ends_at}

running : Unit {0}
unfolding txt lower has_text split_on starts_with find check_for_copyright has_copyright
    copyright_report check_for_bad_characters bad_characters_from utf8_report nul_report
    check_for_newline_at_eof newline_report numbered_lines
running = tt

no_newline : length (check_for_newline_at_eof (numbered_lines (txt "int x;"))) ≡ 1
unfolding running
no_newline = refl

no_copyright : length (check_for_copyright (numbered_lines (txt "int x;"))) ≡ 1
unfolding running
no_copyright = refl

copyright : check_for_copyright (numbered_lines (txt "// COPYRIGHT me")) ≡ []
unfolding running
copyright = refl

bad : length (check_for_bad_characters ((0 ∷ []) ∷ (97 ∷ 0xfffd ∷ 0 ∷ []) ∷ [])) ≡ 3
unfolding running
bad = refl

abbrev content : Text
unfolding txt
content = 97 ∷ 10 ∷ []

check_for_newline-ends_at_example :
    (check_for_newline_at_eof (numbered_lines content) ≡ []) ↔ (ends_at 10 true content ≡ true)
check_for_newline-ends_at_example = check_for_newline-ends_at content
