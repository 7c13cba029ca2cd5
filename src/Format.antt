-- ===== src/Format.antt =====
-- build_support/run_clang_format.py: `check` and the loop over the source directories.
pub mod Files
pub mod Directories
use netier.Base.{
  ℕ, Bool, true, false, not, ◌&&◌, ◌||◌, Option, none, some, List, [], ◌∷◌, ◌++◌, ◌==◌, Text, txt,
  within, starts_with, ends_with, split_on, strip, if◌then◌else◌,
}

-- What the script calls: the files below a directory as `os.walk` yields them, `fnmatch.fnmatch`,
-- the decoded contents of a file, what clang-format prints for it, and `difflib.unified_diff`.
-- None stands for an exception.
pub record Tools : Type 0 where
  pub walk : Text → List (Text × List Text)
  pub fnmatch : Text → Text → Bool
  pub contents : Text → Option Text
  pub clang_format : Text → Option Text
  pub fix_files : List Text → Bool
  pub unified_diff : List Text → List Text → Text → Text → List Text

-- The command line, and what has been printed.
pub record Arguments : Type 0 where
  pub exclude_globs : List Text
  pub fix : Bool
  pub quiet : Bool

pub record Output : Type 0 where
  pub stdout : List Text
  pub stderr : List Text

abbrev pub is_empty : Text → Bool
is_empty [] = true
is_empty (c ∷ s) = false

-- `os.path.join(a, b)`
unfoldable pub path_join : Text → Text → Text
path_join a b =
    if starts_with b (b'/' ∷ [])
    then b
    else if is_empty a || ends_with a (b'/' ∷ [])
    then a ++ b
    else a ++ (b'/' ∷ b)

unfoldable pub is_source : Text → Bool
is_source path = ends_with path (txt ".h") || ends_with path (txt ".cpp")

unfoldable pub is_excluded : Tools → List Text → Text → Bool
is_excluded tools [] path = false
is_excluded tools (glob ∷ globs) path = tools.fnmatch path glob || is_excluded tools globs path

unfoldable pub source_files : Tools → List Text → Text → List Text → List Text
source_files tools globs directory [] = []
source_files tools globs directory (filename ∷ filenames) =
    let path = path_join directory filename in
    let rest = source_files tools globs directory filenames in
    if is_source path && not (is_excluded tools globs path) then path ∷ rest else rest

unfoldable pub formatted_filenames : Tools → List Text → List (Text × List Text) → List Text
formatted_filenames tools globs [] = []
formatted_filenames tools globs ((directory, filenames) ∷ walk) =
    source_files tools globs directory filenames ++ formatted_filenames tools globs walk

-- Where `str.splitlines` ends a line: behind `c`, when `s` follows
unfoldable pub ends_line : ℕ → Text → Bool
ends_line c s =
    (within 10 13 c || within 28 30 c || c == 0x85 || c == 0x2028 || c == 0x2029)
    && not (c == 13 && starts_with s (10 ∷ []))

abbrev pub onto_first : ℕ → List Text → List Text
onto_first c [] = (c ∷ []) ∷ []
onto_first c (line ∷ lines) = (c ∷ line) ∷ lines

-- `s.splitlines(True)`
unfoldable pub split_lines : Text → List Text
split_lines [] = []
split_lines (c ∷ s) =
    let rest = split_lines s in if ends_line c s then (c ∷ []) ∷ rest else onto_first c rest

abbrev pub print : Text → Output → Output
print line out = record out { stdout = out.stdout ++ line ∷ [] }

-- The end of an action: an exception that ends the script, or a value and what was printed
pub data Result : Type 0 where
  raised : Output → Result
  done : Bool → Output → Result

unfoldable pub report_diff : Text → List Text → Bool → Output → Result
report_diff filename [] error out = done error out
report_diff filename (line ∷ lines) error out =
    let out' = print (filename ++ txt " had clang-format style issues") out in
    done true (record out' { stderr = out'.stderr ++ line ∷ lines })

unfoldable pub compare_file : Tools → Text → Option Text → Option Text → Bool → Output → Result
compare_file tools filename none original error out = raised out
compare_file tools filename (some formatted) none error out = raised out
compare_file tools filename (some formatted) (some original) error out =
    report_diff filename
      (tools.unified_diff (split_lines original) (split_lines formatted) filename
        (filename ++ txt " (after clang format)"))
      error out

-- What follows a result that is no exception.
unfoldable pub after : Result → (Bool → Output → Result) → Result
after (raised out) go = raised out
after (done error out) go = go error out

-- The loop over the files
unfoldable pub check_files : Tools → Bool → List Text → Bool → Output → Result
check_files tools quiet [] error out = done error out
check_files tools quiet (filename ∷ filenames) error out =
    let out' = if quiet then out else print (txt "Checking " ++ filename) out in
    after
      (compare_file tools filename (tools.clang_format filename) (tools.contents filename) error
        out')
      (check_files tools quiet filenames)

-- The lines for `--fix`, joined by newlines
unfoldable pub fixing_text : List Text → Text
fixing_text [] = []
fixing_text (filename ∷ []) = txt "Formatting " ++ filename
fixing_text (filename ∷ other ∷ filenames) =
    txt "Formatting " ++ filename ++ (10 ∷ fixing_text (other ∷ filenames))

-- The branch for `--fix`: an exit status other than 0 is an exception.
unfoldable pub fix_all : Tools → Bool → List Text → Output → Result
fix_all tools quiet filenames out =
    let out' = if quiet then out else print (fixing_text filenames) out in
    if tools.fix_files filenames then done false out' else raised out'

-- `check`
unfoldable pub check_directory : Tools → Arguments → Text → Output → Result
check_directory tools args source_dir out =
    let filenames = formatted_filenames tools args.exclude_globs (tools.walk source_dir) in
    if args.fix
    then fix_all tools args.quiet filenames out
    else check_files tools args.quiet filenames false out

-- The loop over the source directories, from the value of `had_err` on
unfoldable pub check_directories : Tools → Arguments → List Text → Bool → Output → Result
check_directories tools args [] had_err out = done had_err out
check_directories tools args ([] ∷ dirs) had_err out = check_directories tools args dirs had_err out
check_directories tools args ((c ∷ dir) ∷ dirs) had_err out =
    after (check_directory tools args (c ∷ dir) out) (check_directories tools args dirs)

unfoldable pub exit_status : Result → ℕ
exit_status (raised out) = 1
exit_status (done had_err out) = if had_err then 1 else 0

-- The main program, for the `--source_dirs` of the command line
unfoldable pub run : Tools → Arguments → Text → Result
run tools args source_dirs =
    check_directories tools args (split_on b',' source_dirs) false
      (record { stdout = []; stderr = [] })
