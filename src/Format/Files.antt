-- ===== src/Format/Files.antt =====
-- What `check` finds among the files.
use netier.Base.{
  ℕ, Bool, true, some, List, [], ◌∷◌, ◌++◌, ◌≡◌, ◌≢◌, refl, sym, ◌∙◌, ap, ◌↔◌, ◌⊎◌, inl, inr, arith,
  Text, txt, concat_list, if◌then◌else◌, Bool-cases,
}
use mathlib.Core.Option.{some-injective}
use netier.Format.{
  Tools, Output, done, split_lines, ends_line, onto_first, report_diff, compare_file, after,
  check_files, print,
}

concat-onto_first :
    (c : ℕ) (lines : List Text) → concat_list (onto_first c lines) ≡ c ∷ concat_list lines
concat-onto_first c [] = refl
concat-onto_first c (line ∷ lines) = refl

-- The lines of a text make up the text.
pub concat-split_lines : (s : Text) → concat_list (split_lines s) ≡ s
unfolding split_lines
concat-split_lines [] = refl
concat-split_lines (c ∷ s) = elim (Bool-cases (ends_line c s)) [
  | inl e ↦ rw e (ap (λ r. c ∷ r) (concat-split_lines s))
  | inr e ↦ rw e (concat-onto_first c (split_lines s) ∙ ap (λ r. c ∷ r) (concat-split_lines s))
]

split_lines-injective : (s t : Text) → split_lines s ≡ split_lines t → s ≡ t
split_lines-injective s t e = sym (concat-split_lines s) ∙ ap concat_list e ∙ concat-split_lines t

-- `unified_diff` writes nothing exactly for two equal sequences of lines.
unfoldable pub IsDiff : Tools → Type 0
IsDiff tools = (a b : List Text) (from to : Text) → (tools.unified_diff a b from to ≡ []) ↔ (a ≡ b)

-- Every file can be read and formatted.
pub data AreReadable (tools : Tools) : List Text → Type 0 where
  no_file : AreReadable tools []
  file :
      {filenames : List Text} (filename original formatted : Text)
      → tools.contents filename ≡ some original
      → tools.clang_format filename ≡ some formatted
      → AreReadable tools filenames
      → AreReadable tools (filename ∷ filenames)

-- Some file is not as clang-format prints it.
pub data HasIssue (tools : Tools) : List Text → Type 0 where
  here :
      {filenames : List Text} (filename original formatted : Text)
      → tools.contents filename ≡ some original
      → tools.clang_format filename ≡ some formatted
      → original ≢ formatted
      → HasIssue tools (filename ∷ filenames)
  there :
      {filenames : List Text} (filename : Text)
      → HasIssue tools filenames
      → HasIssue tools (filename ∷ filenames)

report_diff-issue :
    (filename : Text) (diff : List Text) (original formatted : Text) (error : Bool) (out : Output)
    → (diff ≡ []) ↔ (original ≡ formatted)
    → (e : Bool) × (out' : Output) × (report_diff filename diff error out ≡ done e out')
      × ((e ≡ true) ↔ ((error ≡ true) ⊎ (original ≢ formatted)))
unfolding report_diff
report_diff-issue filename [] original formatted error out h =
    (error, _, refl, (λ x. inl x, λ y. elim y [ inl x ↦ x | inr ne ↦ absurd (ne (h.0 refl)) ]))
report_diff-issue filename (line ∷ lines) original formatted error out h =
    (true, _, refl, (λ x. inr (λ e. ground (arith, h.1 e)), λ y. refl))

module _ (tools : Tools) where
  HasIssue-first :
      (filename original formatted : Text) (filenames : List Text)
      → tools.contents filename ≡ some original
      → tools.clang_format filename ≡ some formatted
      → HasIssue tools (filename ∷ filenames)
      → (original ≢ formatted) ⊎ HasIssue tools filenames
  HasIssue-first filename original formatted filenames c f (here _ o g c' f' ne) =
      inl (λ e. ne (some-injective _ _ (sym c' ∙ c) ∙ e ∙ some-injective _ _ (sym f ∙ f')))
  HasIssue-first filename original formatted filenames c f (there _ h) = inr h

  -- Where every file can be read and formatted, the loop over the files ends with no exception, and
  -- its result is an error exactly if there was one before or if some file differs from what
  -- clang-format makes of it.
  pub check_files-HasIssue :
      (quiet : Bool) (filenames : List Text) (error : Bool) (out : Output)
      → IsDiff tools
      → AreReadable tools filenames
      → (e : Bool) × (out' : Output) × (check_files tools quiet filenames error out ≡ done e out')
        × ((e ≡ true) ↔ ((error ≡ true) ⊎ HasIssue tools filenames))
  unfolding check_files compare_file after IsDiff
  check_files-HasIssue quiet [] error out d no_file =
      (error, out, refl, (λ x. inl x, λ y. elim y [ inl x ↦ x | inr h ↦ elim h [ ] ]))
  check_files-HasIssue quiet (filename ∷ filenames) error out d (file _ original formatted c f r) =
      let out' = if quiet then out else print (txt "Checking " ++ filename) out in
      let (e1, out1, eq1, iff1) =
        report_diff-issue filename
          (tools.unified_diff (split_lines original) (split_lines formatted) filename
            (filename ++ txt " (after clang format)"))
          original formatted error out'
          (
            λ x. split_lines-injective original formatted ((d _ _ _ _).0 x),
            λ x. (d _ _ _ _).1 (ap split_lines x),
          ) in
      let (e2, out2, eq2, iff2) = check_files-HasIssue quiet filenames e1 out1 d r in
      (
        e2,
        out2,
        rw (f, compare_file) (rw (c, compare_file) (rw (eq1, after) eq2)),
        (
          λ x. elim (iff2.0 x) [
            | inl y ↦ elim (iff1.0 y) [
              | inl z ↦ inl z
              | inr ne ↦ inr (here filename original formatted c f ne)
            ]
            | inr h ↦ inr (there filename h)
          ],
          λ y. elim y [
            | inl z ↦ iff2.1 (inl (iff1.1 (inl z)))
            | inr h ↦ elim (HasIssue-first filename original formatted filenames c f h) [
              | inl ne ↦ iff2.1 (inl (iff1.1 (inr ne)))
              | inr h' ↦ iff2.1 (inr h')
            ]
          ],
        ),
      )
