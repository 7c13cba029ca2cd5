-- ===== src/Tests/Formats.antt =====
-- build_support/run_clang_format.py on two small directories.
use netier.Base.{
  Bool, true, false, ◌&&◌, some, List, [], ◌∷◌, ◌++◌, ◌≡◌, ◌↔◌, ◌⊎◌, refl, arith, Text, txt,
  text_eq, text_eq_iff, ends_with, split_on, if◌then◌else◌,
}
use netier.Format.{
  Tools, Arguments, Output, done, check_directory, check_directories, run, exit_status, path_join,
  is_source, is_excluded, source_files, formatted_filenames, ends_line, split_lines, report_diff,
  compare_file, after, check_files, fixing_text, fix_all,
}
use netier.Format.Files.{IsDiff, AreReadable, no_file, file, HasIssue, check_files-HasIssue}
use netier.Format.Directories.{check_directories-last}

running : Unit {0}
unfolding txt text_eq ends_with split_on path_join is_source is_excluded source_files
    formatted_filenames ends_line split_lines report_diff compare_file after check_files fixing_text
    fix_all check_directory check_directories run exit_status
running = tt

abbrev texts_eq : List Text → List Text → Bool
texts_eq [] [] = true
texts_eq (a ∷ s) (b ∷ t) = text_eq a b && texts_eq s t
texts_eq _ _ = false

texts_eq_iff : (s t : List Text) → (texts_eq s t ≡ true) ↔ (s ≡ t)
texts_eq_iff (a ∷ s) (b ∷ t) = ground (arith, text_eq_iff a b, texts_eq_iff s t)
texts_eq_iff _ _ = ground arith

abbrev diff : List Text → List Text → Text → Text → List Text
diff a b from to = if texts_eq a b then [] else to ∷ []

abbrev files_of : Text → List (Text × List Text)
unfolding txt text_eq
files_of dir =
    if text_eq dir (txt "a")
    then (dir, txt "x.h" ∷ txt "x.txt" ∷ []) ∷ []
    else (dir, txt "y.cpp" ∷ []) ∷ []

abbrev text_of_file : Text → Text
unfolding txt text_eq
text_of_file path = if text_eq path (txt "a/x.h") then txt "int  x;\r\n" else txt "int y;\n"

abbrev tools : Tools
unfolding txt
tools = record {
  walk = files_of;
  fnmatch = λ path glob. false;
  contents = λ path. some (text_of_file path);
  clang_format = λ path. some (txt "int y;\n");
  fix_files = λ paths. true;
  unified_diff = diff;
}

tools-IsDiff : IsDiff tools
unfolding IsDiff tools
tools-IsDiff a b from to = ground (arith, texts_eq_iff a b)

abbrev args : Arguments
args = record { exclude_globs = []; fix = false; quiet = true }

found_in_the_last : exit_status (run tools args (txt "b,a")) ≡ 1
unfolding running
found_in_the_last = refl

lost_in_front_of_the_last : exit_status (run tools args (txt "a,b")) ≡ 0
unfolding running
lost_in_front_of_the_last = refl

abbrev out : Output
out = record { stdout = []; stderr = [] }

abbrev paths : List Text
unfolding txt
paths = txt "a/x.h" ∷ txt "b/y.cpp" ∷ []

paths-AreReadable : AreReadable tools paths
unfolding txt text_eq
paths-AreReadable = file _ _ _ refl refl (file _ _ _ refl refl no_file)

check_files-HasIssue_example :
    (e : Bool) × (out' : Output) × (check_files tools true paths false out ≡ done e out')
    × ((e ≡ true) ↔ ((false ≡ true) ⊎ HasIssue tools paths))
check_files-HasIssue_example =
    check_files-HasIssue tools true paths false out tools-IsDiff paths-AreReadable

abbrev first : List Text
unfolding txt
first = txt "a" ∷ []

abbrev printed : Output
unfolding txt
printed = record {
  stdout = txt "a/x.h had clang-format style issues" ∷ [];
  stderr = txt "a/x.h (after clang format)" ∷ [];
}

check_directories-last_example :
    check_directories tools args (first ++ (b'b' ∷ []) ∷ []) false out
    ≡ check_directory tools args (b'b' ∷ []) printed
unfolding running
check_directories-last_example =
    check_directories-last tools args first b'b' [] false out printed true refl
