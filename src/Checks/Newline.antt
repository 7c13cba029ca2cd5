-- ===== src/Checks/Newline.antt =====
-- What `CheckForNewlineAtEOF` says of a file's text.
use netier.Base.{
  suc, ◌-◌, ◌≤◌, Bool, true, false, List, [], ◌∷◌, ◌++◌, ◌≡◌, ◌↔◌, refl, arith, ap, ◌∙◌, Text, txt,
  length, length-append, get_or, ltb, split_on, split_on-last, split_on-pieces, is_blank, last,
  ends_at,
}
use netier.Checks.{check_for_newline_at_eof, numbered_lines}

-- The line in front of the last one
get_or-last :
    (xs : List Text) (z : Text) → 1 ≤ length xs → get_or (xs ++ z ∷ []) (length xs - 1) [] ≡ last xs
get_or-last [] z h = absurd (omega arith)
get_or-last (x ∷ []) z h = refl
get_or-last (x ∷ y ∷ ys) z h =
    let e : suc (suc (length ys)) - 1 ≡ suc (length (y ∷ ys) - 1) = omega arith in
    rw e (get_or-last (y ∷ ys) z (omega arith))

eof_lem :
    (lines : List Text) (b : Bool)
    → ltb (length lines) 3 ≡ false
    → is_blank (get_or lines (length lines - 2) []) ≡ b
    → (check_for_newline_at_eof lines ≡ []) ↔ (b ≡ true)
unfolding check_for_newline_at_eof
eof_lem lines b h e = ground arith

-- For the lines that a file is checked as, the check is silent exactly if the text is empty or ends
-- with a newline.
pub check_for_newline-ends_at :
    (content : Text)
    → (check_for_newline_at_eof (numbered_lines content) ≡ []) ↔ (ends_at 10 true content ≡ true)
unfolding numbered_lines
check_for_newline-ends_at content =
    let pieces = split_on 10 content in
    let some_piece = split_on-pieces 10 content in
    let marker = txt "// marker so line numbers end in a known way" in
    let longer = length-append pieces (marker ∷ []) in
    let before : suc (length (pieces ++ marker ∷ [])) - 2 ≡ suc (length pieces - 1) = omega arith in
    eof_lem (numbered_lines content) (ends_at 10 true content) (ground arith)
      (rw before (ap is_blank (get_or-last pieces marker some_piece) ∙ split_on-last 10 content))
