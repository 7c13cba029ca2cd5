-- ===== src/Includes/Classify.antt =====
-- `_DropCommonSuffixes` and `_ClassifyInclude`.
use netier.Base.{
  ℕ, ◌+◌, ◌-◌, Bool, false, not, ◌&&◌, ◌||◌, ◌==◌, none, some, List, [], ◌∷◌, ◌++◌, ltb, Text, txt,
  text_eq, elem, ends_with, map, length, take, get_or, replace, if◌then◌else◌,
}
use netier.Regex.{match_re}
use netier.IncludeState.{HeaderType, c_sys, cpp_sys, likely_my, possible_my, other}
use netier.Includes.Paths.{dirname, basename, splitext, normpath}
use netier.Includes.Headers.{
  Extensions, cpp_headers, get_header_extensions, get_non_header_extensions,
}

-- The members of a product, joined by a dot
unfoldable pub suffixes : List Text → List Text → List Text
suffixes [] exts = []
suffixes (s ∷ ss) exts = map (λ ext. s ++ (b'.' ∷ ext)) exts ++ suffixes ss exts

unfoldable pub common_suffixes : Extensions → List Text
common_suffixes e =
    suffixes (txt "test" ∷ txt "regtest" ∷ txt "unittest" ∷ []) (get_non_header_extensions e)
    ++ suffixes (txt "inl" ∷ txt "imp" ∷ txt "internal" ∷ []) (get_header_extensions e)

abbrev pub is_joiner : ℕ → Bool
is_joiner c = c == b'-' || c == b'_'

unfoldable pub has_suffix : Text → Text → Bool
has_suffix filename suffix =
    ends_with filename suffix
    && (ltb (length suffix) (length filename)
        && is_joiner (get_or filename (length filename - (length suffix + 1)) 0))

-- The loop over the suffixes
unfoldable pub drop_suffix : Text → List Text → Text
drop_suffix filename [] = (splitext filename).0
drop_suffix filename (suffix ∷ others) =
    if has_suffix filename suffix
    then take (length filename - (length suffix + 1)) filename
    else drop_suffix filename others

-- `_DropCommonSuffixes`
unfoldable pub drop_common_suffixes : Extensions → Text → Text
drop_common_suffixes e filename = drop_suffix filename (common_suffixes e)

-- Do the names have the same first component?
unfoldable pub are_related : Text → Text → Bool
are_related target_base include_base = elim (match_re (txt "^[^-_.]+") target_base) [
  | none ↦ false
  | some t ↦ elim (match_re (txt "^[^-_.]+") include_base) [
    | none ↦ false
    | some i ↦ text_eq (take (t.stop - t.start) target_base) (take (i.stop - i.start) include_base)
  ]
]

-- A header of the program
unfoldable pub classify_own : Extensions → Text → Text → HeaderType
classify_own e repository_name include =
    let target = drop_common_suffixes e repository_name in
    let own = drop_common_suffixes e include in
    let target_dir_pub =
      replace (normpath (dirname target ++ txt "/../public")) (txt "\\") (txt "/") in
    if text_eq (basename target) (basename own)
      && (text_eq (dirname own) (dirname target) || text_eq (dirname own) target_dir_pub)
    then likely_my
    else if are_related (basename target) (basename own)
    then possible_my
    else other

-- `_ClassifyInclude`, where the name is the repository name of the file
unfoldable pub classify_include : Extensions → Text → Text → Bool → HeaderType
classify_include e repository_name include is_system =
    if is_system && not (elem (splitext include).1 (txt ".hpp" ∷ txt ".hxx" ∷ txt ".h++" ∷ []))
    then if elem include cpp_headers then cpp_sys else c_sys
    else classify_own e repository_name include
