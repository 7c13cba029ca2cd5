-- ===== src/Includes/Lines.antt =====
-- `CheckIncludeLine` and `CheckLanguage`.
pub mod Distinct
pub mod Keeps
use netier.Base.{
  ℕ, ◌+◌, ◌-◌, Bool, true, false, not, ◌&&◌, ◌||◌, Option, none, some, List, [], ◌∷◌, ◌++◌, Text,
  txt, text_eq, has_text, ends_with, decimal, length, take, if◌then◌else◌,
}
use netier.Regex.{Found, match_re, is_match, group_or_empty}
use netier.Suppress.{Report}
use netier.Cleanse.{CleansedLines}
use netier.Cleanse.Strings.{include_match}
use netier.IncludeState.{
  IncludeState, find_header, reset_section, set_last_header, canonicalize_alphabetical_order,
  is_in_alphabetical_order, check_next_include_order,
}
use netier.LineChecks.Common.{report, when, line_of, is_empty}
use netier.Language.Rules.{language_reports}
use netier.Includes.Paths.{dirname}
use netier.Includes.FileInfo.{Split, split_name}
use netier.Includes.Headers.{
  Extensions, get_header_extensions, get_non_header_extensions, is_header_extension,
}
use netier.Includes.Classify.{classify_include}

-- `include_list[-1].append`. The include list is never empty.
unfoldable pub append_last : Text × ℕ → List (List (Text × ℕ)) → List (List (Text × ℕ))
append_last entry [] = []
append_last entry (hs ∷ []) = (hs ++ (entry ∷ [])) ∷ []
append_last entry (hs ∷ gs ∷ lists) = hs ∷ append_last entry (gs ∷ lists)

unfoldable pub is_third_party : Text → Bool
is_third_party = is_match (txt "^(?:[^/]*[A-Z][^/]*\\.h|lua\\.h|lauxlib\\.h|lualib\\.h)$")

unfoldable pub subdir_reports : ℕ → Option Found → List Report
subdir_reports linenum none = []
subdir_reports linenum (some m) = when (not (is_third_party (group_or_empty 1 m))) (
    report linenum (txt "build/include_subdir") 4
      (txt "Include the directory when naming .h files"))

-- The loop over the extensions of files that are no headers: the report, if there is one
unfoldable pub package_reports : ℕ → Text → Text → List Text → List Report
package_reports linenum repository_name include [] = []
package_reports linenum repository_name include (extension ∷ extensions) =
    if ends_with include (b'.' ∷ extension)
      && not (text_eq (dirname repository_name) (dirname include))
    then report linenum (txt "build/include") 4
        (txt "Do not include ." ++ (extension ++ txt " files from other packages"))
      ∷ []
    else package_reports linenum repository_name include extensions

module _ (names : Text → Text) (e : Extensions) (filename : Text) where
  unfoldable pub header_of : Text → Text
  header_of ext = names (
      take (length filename - length (split_name (names filename)).extension) filename
      ++ (b'.' ∷ ext))

  -- `third_src_header`, by the loop over the header extensions
  unfoldable pub is_source_header : Text → List Text → Bool
  is_source_header include [] = false
  is_source_header include (ext ∷ exts) =
      if has_text include (header_of ext) || has_text (header_of ext) include
      then true
      else is_source_header include exts

  unfoldable pub order_reports : ℕ → Text → List Report
  order_reports linenum message = when (not (is_empty message)) (
      report linenum (txt "build/include_order") 4 (
        message
        ++ (txt ". Should be: "
            ++ ((split_name (names filename)).base ++ txt ".h, c system, c++ system, other."))))

  unfoldable pub order_include :
      CleansedLines → ℕ → Text → Bool → IncludeState → IncludeState × List Report
  order_include clean_lines linenum include is_system s =
      let listed = record s { include_list = append_last (include, linenum) s.include_list } in
      let (next, message) =
        check_next_include_order (classify_include e (names filename) include is_system) listed in
      let canonical_include = canonicalize_alphabetical_order include in
      (
        set_last_header canonical_include next,
        order_reports linenum message
            ++ when
                (not (is_in_alphabetical_order clean_lines.elided linenum canonical_include next))
                (report linenum (txt "build/include_alpha") 4
                  (txt "Include \"" ++ (include ++ txt "\" not in alphabetical order"))),
      )

  -- Behind the test for a duplicate
  unfoldable pub new_include :
      CleansedLines → ℕ → Text → Bool → IncludeState → IncludeState × List Report
  new_include clean_lines linenum include is_system s =
      elim (package_reports linenum (names filename) include (get_non_header_extensions e)) [
        | r ∷ rs ↦ (s, r ∷ rs)
        | [] ↦
            if is_source_header include (get_header_extensions e) || not (is_third_party include)
            then order_include clean_lines linenum include is_system s
            else (s, [])
      ]

  unfoldable pub named_include :
      CleansedLines → ℕ → Option Found → IncludeState → IncludeState × List Report
  named_include clean_lines linenum none s = (s, [])
  named_include clean_lines linenum (some m) s = elim (find_header (group_or_empty 2 m) s) [
    | some duplicate_line ↦ (
      s,
      report linenum (txt "build/include") 4 (
            b'"' ∷ group_or_empty 2 m
            ++ (txt "\" already included at " ++ (filename ++ (b':' ∷ decimal duplicate_line))))
          ∷ [],
    )
    | none ↦
        new_include clean_lines linenum (group_or_empty 2 m)
          (text_eq (group_or_empty 1 m) (txt "<")) s
  ]

  -- `CheckIncludeLine`
  unfoldable pub check_include_line : CleansedLines → ℕ → IncludeState → IncludeState × List Report
  check_include_line clean_lines linenum s =
      let line = line_of clean_lines.lines linenum in
      let (next, reports) = named_include clean_lines linenum (include_match line) s in
      (next, subdir_reports linenum (match_re (txt "#include\\s*\"([^/]+\\.h)\"") line) ++ reports)

  abbrev pub section_after : Option Found → IncludeState → IncludeState
  section_after none s = s
  section_after (some m) s = reset_section (group_or_empty 1 m) s

  abbrev pub with_state : IncludeState → Option (List Report) → Option (IncludeState × List Report)
  with_state s none = none
  with_state s (some rs) = some (s, rs)

  -- `CheckLanguage`; none is an IndexError.
  unfoldable pub check_language :
      Text → CleansedLines → ℕ → IncludeState → Option (IncludeState × List Report)
  check_language file_extension clean_lines linenum s =
      let line = line_of clean_lines.elided linenum in
      if is_empty line then some (s, []) else elim (include_match line) [
        | some m ↦ some (check_include_line clean_lines linenum s)
        | none ↦
            with_state
              (section_after (match_re (txt "^\\s*#\\s*(if|ifdef|ifndef|elif|else|endif)\\b") line)
                s)
              (language_reports (is_header_extension e file_extension) clean_lines linenum)
      ]
