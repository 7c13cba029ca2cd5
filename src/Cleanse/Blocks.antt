-- ===== src/Cleanse/Blocks.antt =====
-- What the removal of comments over several lines leaves.
use netier.Base.{
  ℕ, zero, suc, ◌+◌, ◌-◌, ◌≤◌, ◌<◌, Bool, true, false, ◌&&◌, Option, none, some, List, [], ◌∷◌, ◌≡◌,
  refl, ◌⊎◌, inl, inr, arith, leb, ltb, if◌then◌else◌, Text, length, get_or, drop, Bool-cases, txt,
  ◌∙◌,
}
use netier.Suppress.{Report}
use netier.Cleanse.Comments.{
  blank_comment, starts_comment, ends_comment, remove_loop, remove_round,
  remove_multi_line_comments, remove_multi_line_comments_from_range, unclosed_report,
  find_next_multi_line_comment_start, find_next_multi_line_comment_end,
}
use netier.Cleanse.Scan.{length-clear_lines, get_or-clear_lines, EndsAt, scan-EndsAt}

-- No line from `i` up to `n` starts a comment that goes on behind it.
abbrev pub NoStart : ℕ → ℕ → List Text → Type 0
NoStart i n lines = (k : ℕ) → i ≤ k → k < n → starts_comment (get_or lines k []) ≡ false

blank_comment-starts : starts_comment blank_comment ≡ false
unfolding starts_comment txt netier.Base.strip netier.Base.starts_with netier.Base.find
blank_comment-starts = refl

clear_lines-NoStart :
    (lines : List Text) (begin end : ℕ)
    → begin ≤ end
    → end < length lines
    → NoStart 0 begin lines
    → NoStart 0 (end + 1) (remove_multi_line_comments_from_range lines begin (end + 1))
unfolding remove_multi_line_comments_from_range
clear_lines-NoStart lines begin end h l clean k a b =
    rw (get_or-clear_lines (end + 1 - begin) begin lines k)
      (ground (arith, blank_comment-starts, clean k))

-- How the removal ends: with no report, where no line starts a long comment any more, or with one
-- report for a line that starts a comment which no later line ends, in front of which all is clean.
pub data Outcome (lines : List Text) : List Report → Type 0 where
  clean : NoStart 0 (length lines) lines → Outcome lines []
  unclosed :
      (begin : ℕ)
      → begin < length lines
      → starts_comment (get_or lines begin []) ≡ true
      → ((k : ℕ) → begin ≤ k → k < length lines → ends_comment (get_or lines k []) ≡ false)
      → NoStart 0 begin lines
      → Outcome lines (unclosed_report begin ∷ [])

join_NoStart :
    (lines : List Text) (i n : ℕ) → NoStart 0 i lines → NoStart i n lines → NoStart 0 n lines
join_NoStart lines i n h k j a b = elim (Bool-cases (ltb j i)) [
  | inl lt ↦ h j a (ground arith)
  | inr ge ↦ k j (ground arith) b
]

length-range :
    (lines : List Text) (begin end : ℕ)
    → length (remove_multi_line_comments_from_range lines begin end) ≡ length lines
unfolding remove_multi_line_comments_from_range
length-range lines begin end = length-clear_lines (end - begin) begin lines

remove_round-Outcome :
    (lineix begin end : ℕ) (lines : List Text) (rest : List Text × List Report)
    → NoStart 0 lineix lines
    → EndsAt starts_comment lineix lines begin
    → EndsAt ends_comment begin lines end
    → (lineix ≤ begin
        → begin ≤ end
        → end < length lines
        → NoStart 0 begin lines
        → Outcome rest.0 rest.1)
    → let r = remove_round lineix begin end lines rest in Outcome r.0 r.1
unfolding remove_round
remove_round-Outcome lineix begin end lines rest h s e k =
    elim (Bool-cases (leb (length lines) lineix)) [
      | inl past ↦
          rw past
            (clean (join_NoStart lines lineix (length lines) h (λ j a b. absurd (ground arith))))
      | inr inside ↦ elim s [
        | inl (at, none_left) ↦
            let t : leb (length lines) begin ≡ true = ground arith in
            rw (inside, t) (clean (join_NoStart lines lineix (length lines) h none_left))
        | inr (le, lt, starts, before) ↦
            let t : leb (length lines) begin ≡ false = ground arith in
            let clean_before = join_NoStart lines lineix begin h before in
            elim e [
              | inl (at, none_left) ↦
                  let u : leb (length lines) end ≡ true = ground arith in
                  rw (inside, t, u) (unclosed begin lt starts none_left clean_before)
              | inr (le', lt', ends, _) ↦
                  let u : leb (length lines) end ≡ false = ground arith in
                  rw (inside, t, u) (k le le' lt' clean_before)
            ]
      ]
    ]

remove_loop-Outcome :
    (fuel lineix : ℕ) (lines : List Text)
    → length lines < lineix + fuel
    → NoStart 0 lineix lines
    → Outcome (remove_loop fuel lineix lines).0 (remove_loop fuel lineix lines).1
unfolding remove_loop find_next_multi_line_comment_start find_next_multi_line_comment_end
remove_loop-Outcome zero lineix lines f h =
    clean (join_NoStart lines lineix (length lines) h (λ j a b. absurd (omega arith)))
remove_loop-Outcome (suc fuel) lineix lines f h =
    let begin = find_next_multi_line_comment_start lines lineix in
    let end = find_next_multi_line_comment_end lines begin in
    let cleared = remove_multi_line_comments_from_range lines begin (end + 1) in
    remove_round-Outcome lineix begin end lines _ h (scan-EndsAt starts_comment lineix lines)
      (scan-EndsAt ends_comment begin lines)
      (λ l a b c.
        remove_loop-Outcome fuel (end + 1) cleared
          (omega (arith, length-range lines begin (end + 1)))
          (clear_lines-NoStart lines begin end a b c))

-- The removal of comments over several lines ends, with no report, where no line starts a comment
-- that goes on behind it, or with one report, for a line that starts such a comment when neither
-- it nor any later line ends it, and no line in front of it starts one.
pub remove_multi_line_comments-Outcome :
    (lines : List Text) → let r = remove_multi_line_comments lines in Outcome r.0 r.1
unfolding remove_multi_line_comments
remove_multi_line_comments-Outcome lines =
    remove_loop-Outcome (length lines + 1) 0 lines (omega arith) (λ k a b. absurd (omega arith))

-- What became of each line.
abbrev pub Kept : List Text → List Text → Type 0
Kept lines result =
    (length result ≡ length lines)
    × ((k : ℕ) → (get_or result k [] ≡ get_or lines k []) ⊎ (get_or result k [] ≡ blank_comment))

Kept-range :
    (lines result : List Text) (begin end : ℕ)
    → Kept (remove_multi_line_comments_from_range lines begin end) result
    → Kept lines result
unfolding remove_multi_line_comments_from_range
Kept-range lines result begin end (n, h) = (
  n ∙ length-clear_lines (end - begin) begin lines,
  λ k. ground (arith, h k, get_or-clear_lines (end - begin) begin lines k),
)

Kept-round :
    (lineix begin end : ℕ) (lines : List Text) (rest : List Text × List Report)
    → Kept lines rest.0
    → Kept lines (remove_round lineix begin end lines rest).0
unfolding remove_round
Kept-round lineix begin end lines rest h = ground (arith)

remove_loop-Kept :
    (fuel lineix : ℕ) (lines : List Text) → Kept lines (remove_loop fuel lineix lines).0
unfolding remove_loop remove_round
remove_loop-Kept zero lineix lines = (refl, λ k. inl refl)
remove_loop-Kept (suc fuel) lineix lines =
    let begin = find_next_multi_line_comment_start lines lineix in
    let end = find_next_multi_line_comment_end lines begin in
    let cleared = remove_multi_line_comments_from_range lines begin (end + 1) in
    let rest = Kept-range lines _ begin (end + 1) (remove_loop-Kept fuel (end + 1) cleared) in
    Kept-round lineix begin end lines _ rest

-- The removal keeps the number of lines, and each line as it was or as an empty comment.
pub remove_multi_line_comments-Kept :
    (lines : List Text) → Kept lines (remove_multi_line_comments lines).0
unfolding remove_multi_line_comments
remove_multi_line_comments-Kept lines = remove_loop-Kept (length lines + 1) 0 lines
