-- ===== src/Tests/IncludeLines.antt =====
-- Names of files and include lines in build_support/cpplint.py, at concrete files.
use mathlib.Core.List.{reverse-append}
use netier.Includes.Paths.{join_paths}
use netier.Base.{
  not, starts_with, ap, Bool, ◌++◌, if◌then◌else◌, ℕ, true, false, Option, none, some, List, [],
  ◌∷◌, ◌≡◌, refl, map, Text, txt, elem, lower, ends_with, text_gt,
}
use netier.Suppress.{Report}
use netier.IncludeState
use netier.IncludeState.{
  IncludeState, HeaderType, c_sys, cpp_sys, likely_my, possible_my, other, new_include_state,
}
use netier.Includes.Paths
use netier.Includes.FileInfo
use netier.Includes.Headers
use netier.Includes.Classify
use netier.Includes.Lines
use netier.Includes.Paths.{splitext, normpath, relpath, dirname}
use netier.Includes.FileInfo.{
  find_repository, checkout_root, Disk, svn_root, has_entry, repository_name,
}
use netier.Includes.Paths.Absolute.{IsAbsolute}
use netier.Includes.FileInfo.Ends.{HasPlainTop, repository_name-ends}
use netier.Includes.Headers.{Extensions, get_non_header_extensions, process_extensions_option}
use netier.Includes.Classify.{drop_common_suffixes, classify_include}
use netier.Includes.Lines.{check_language}
use netier.Includes.Lines.Distinct.{nil, also, ListsOnce, HasDistinct}
use netier.Includes.Lines.Keeps.{check_language-ListsOnce}
use netier.Tests.Running.{running, file}
use netier.Tests.LanguageReports.{language_running}

unfoldable including : Unit {0}
unfolding Paths.name_start Paths.drop_slashes Paths.trim_head Paths.dirname Paths.basename
    Paths.has_stem Paths.extension_at Paths.splitext Paths.join_paths Paths.norm_loop
    Paths.leading_slashes Paths.normpath Paths.common_prefix Paths.parts_of Paths.climb
    Paths.relative Paths.relpath FileInfo.abspath FileInfo.full_name FileInfo.find_repository
    FileInfo.has_entry FileInfo.svn_root FileInfo.is_checkout FileInfo.checkout_root
    FileInfo.behind_root FileInfo.git_name FileInfo.controlled_name FileInfo.named_root
    FileInfo.repository_name FileInfo.split_name FileInfo.no_extension FileInfo.is_source
    Headers.cpp_headers Headers.with_h Headers.get_header_extensions Headers.difference
    Headers.get_all_extensions Headers.get_non_header_extensions Headers.is_header_extension
    Headers.extensions_of Headers.process_hpp_headers_option Headers.process_extensions_option
    Classify.suffixes Classify.common_suffixes Classify.has_suffix Classify.drop_suffix
    Classify.drop_common_suffixes Classify.are_related Classify.classify_own
    Classify.classify_include Lines.append_last Lines.is_third_party Lines.subdir_reports
    Lines.package_reports Lines.header_of Lines.is_source_header Lines.order_reports
    Lines.order_include Lines.new_include Lines.named_include Lines.check_include_line
    Lines.check_language IncludeState.find_in IncludeState.find_in_lists IncludeState.find_header
    IncludeState.clear_last IncludeState.one_of IncludeState.list_after IncludeState.reset_section
    IncludeState.new_include_state IncludeState.set_last_header
    IncludeState.canonicalize_alphabetical_order IncludeState.is_in_alphabetical_order
    IncludeState.order_message IncludeState.move_to IncludeState.too_late
    IncludeState.check_next_include_order IncludeState.rank IncludeState.type_name
    IncludeState.section_name lower text_gt elem ends_with
including = tt

abbrev defaults : Extensions
defaults = record { hpp_headers = []; valid_extensions = [] }

extension_of : splitext (txt "a.b/.c.tar") ≡ (txt "a.b/.c", txt ".tar")
unfolding running including
extension_of = refl

no_extension_of : splitext (txt "a.b/.c") ≡ (txt "a.b/.c", [])
unfolding running including
no_extension_of = refl

normal_path : normpath (txt "/a/./b/../../../c//d/") ≡ txt "/c/d"
unfolding running including
normal_path = refl

relative_path : relpath (txt "/a/b/c.h") (txt "/a/d") ≡ txt "../b/c.h"
unfolding running including
relative_path = refl

no_header_extensions :
    get_non_header_extensions (process_extensions_option (txt "hpp, cc") defaults) ≡ txt "cc" ∷ []
unfolding running including
no_header_extensions = refl

bare_name : drop_common_suffixes defaults (txt "foo/bar-inl.h") ≡ txt "foo/bar"
unfolding running including
bare_name = refl

bare_test_name : drop_common_suffixes defaults (txt "foo/bar_unittest.cc") ≡ txt "foo/bar"
unfolding running including
bare_test_name = refl

c_header : classify_include defaults (txt "foo/foo.cc") (txt "stdio.h") true ≡ c_sys
unfolding running including
c_header = refl

cpp_header : classify_include defaults (txt "foo/foo.cc") (txt "string") true ≡ cpp_sys
unfolding running including
cpp_header = refl

own_header : classify_include defaults (txt "foo/foo.cc") (txt "foo/foo.h") false ≡ likely_my
unfolding running including
own_header = refl

public_header :
    classify_include defaults (txt "foo/internal/foo.cc") (txt "foo/public/foo.h") false ≡ likely_my
unfolding running including
public_header = refl

possible_header :
    classify_include defaults (txt "foo/foo_unknown_extension.cc") (txt "bar/foo_other_ext.h") false
    ≡ possible_my
unfolding running including
possible_header = refl

other_header : classify_include defaults (txt "foo/foo.cc") (txt "foo/bar.h") false ≡ other
unfolding running including
other_header = refl

abbrev disk_of : List Text → Disk
disk_of paths = record { cwd = txt "/home/u"; exists = λ p. elem p paths }

in_git :
    repository_name
      (disk_of (txt "/home/u/n/src/a.cc" ∷ txt "/home/u/n/.git" ∷ []))
      none
      (txt "n/src/a.cc")
    ≡ some (txt "src/a.cc")
unfolding running including
in_git = refl

in_svn :
    repository_name
      (disk_of (txt "/home/u/n/src/a.cc" ∷ txt "/home/u/n/.svn" ∷ txt "/home/u/n/src/.svn" ∷ []))
      none
      (txt "n/src/a.cc")
    ≡ some (txt "src/a.cc")
unfolding running including
in_svn = refl

in_named :
    repository_name
      (disk_of (txt "/home/u/n/src/a.cc" ∷ txt "/home/u/n/src" ∷ txt "/home/u/n" ∷ []))
      (some (txt "n"))
      (txt "n/src/a.cc")
    ≡ some (txt "src/a.cc")
unfolding running including
in_named = refl

-- With an entry `.svn` in all directories up to the top the loop does not end.
svn_everywhere :
    repository_name (disk_of (txt "/a/b.h" ∷ txt "/a/.svn" ∷ txt "/.svn" ∷ [])) none (txt "/a/b.h")
    ≡ none
unfolding running including
svn_everywhere = refl

abbrev brief_report : Report → ℕ × Text
brief_report r = (r.linenum, r.message)

-- The reports for the first line of foo/foo.cc, behind some headers
unfoldable included : IncludeState → Text → Option (List (ℕ × Text))
unfolding running language_running including
included s line =
    elim (check_language (λ p. p) defaults (txt "foo/foo.cc") (txt "cc") (file (line ∷ [])) 1 s) [
      | none ↦ none
      | some (next, rs) ↦ some (map brief_report rs)
    ]

abbrev behind_map : IncludeState
behind_map = record {
  include_list = ((txt "map", 7) ∷ []) ∷ [];
  section = IncludeState.cpp;
  last_header = txt "map";
}

own_include : included behind_map (txt "#include \"foo/foo.h\"") ≡ some []
unfolding included
own_include = refl

same_include :
    included behind_map (txt "#include <map>")
    ≡ some ((1, txt "\"map\" already included at foo/foo.cc:7") ∷ [])
unfolding included
same_include = refl

late_include :
    included behind_map (txt "#include <stdio.h>")
    ≡ some (
        (
          1,
          txt
              "Found C system header after C++ system header. Should be: foo.h, c system, c++ system, other.",
        )
        ∷ [])
unfolding included
late_include = refl

near_include :
    included behind_map (txt "#include \"bar.h\"")
    ≡ some ((1, txt "Include the directory when naming .h files") ∷ [])
unfolding included
near_include = refl

foreign_include :
    included behind_map (txt "#include \"bar/bar.cc\"")
    ≡ some ((1, txt "Do not include .cc files from other packages") ∷ [])
unfolding included
foreign_include = refl

-- A disk on which everything exists but entries `.svn`.
abbrev full_disk : Disk
full_disk = record { cwd = txt "/"; exists = λ p. not (ends_with p (txt ".svn")) }

svn_end : (a : Text) → ends_with (a ++ txt ".svn") (txt ".svn") ≡ true
unfolding txt ends_with starts_with
svn_end a = rw (reverse-append a (txt ".svn"))

joined_end :
    (a : Text) (b : Bool)
    → ends_with (if b then a ++ txt ".svn" else a ++ (b'/' ∷ txt ".svn")) (txt ".svn") ≡ true
unfolding txt ends_with starts_with
joined_end a true = svn_end a
joined_end a false = rw (reverse-append a (txt "/.svn"))

plain_top : HasPlainTop full_disk
unfolding HasPlainTop has_entry join_paths txt starts_with
plain_top d a e = ap not (joined_end d _)

cwd-IsAbsolute : IsAbsolute full_disk.cwd
unfolding IsAbsolute txt
cwd-IsAbsolute = ([], refl)

repository_name-ends_example :
    (name : Text) × (repository_name full_disk none (txt "n/a.cc") ≡ some name)
repository_name-ends_example =
    repository_name-ends full_disk none (txt "n/a.cc") cwd-IsAbsolute plain_top

-- The loop goes on over header extensions that do not fit.
second_extension :
    check_language
      (λ p. p)
      (record { hpp_headers = txt "hpp" ∷ txt "h" ∷ []; valid_extensions = [] })
      (txt "Foo.cc")
      (txt "cc")
      (file (txt "#include \"Foo.h\"" ∷ []))
      1
      new_include_state
    ≡ some (
      record {
        include_list = ((txt "Foo.h", 1) ∷ []) ∷ [];
        section = IncludeState.my_h;
        last_header = txt "foo.h";
      },
      [],
    )
unfolding running language_running including
second_extension = refl

behind_map-ListsOnce : ListsOnce behind_map
unfolding ListsOnce HasDistinct elem
behind_map-ListsOnce = also refl nil

abbrev behind_own : IncludeState
unfolding txt
behind_own = record {
  include_list = ((txt "map", 7) ∷ (txt "foo/foo.h", 1) ∷ []) ∷ [];
  section = IncludeState.other_h;
  last_header = txt "foo/foo.h";
}

own_run :
    check_language
      (λ p. p)
      defaults
      (txt "foo/foo.cc")
      (txt "cc")
      (file (txt "#include \"foo/foo.h\"" ∷ []))
      1
      behind_map
    ≡ some (behind_own, [])
unfolding running language_running including
own_run = refl

check_language-ListsOnce_example : ListsOnce behind_own
check_language-ListsOnce_example =
    check_language-ListsOnce (λ p. p) defaults (txt "foo/foo.cc") (txt "cc")
      (file (txt "#include \"foo/foo.h\"" ∷ [])) 1 behind_map behind_own [] behind_map-ListsOnce
      own_run
