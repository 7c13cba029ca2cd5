-- ===== src/Includes/FileInfo.antt =====
-- `FileInfo`, over a file system of which the program asks the working directory and what exists.
pub mod Ends
use netier.Base.{
  ℕ, zero, suc, ◌+◌, Bool, true, false, ◌&&◌, ◌||◌, Option, none, some, List, [], ◌∷◌, ◌++◌, Text,
  txt, text_eq, elem, replace, length, drop, if◌then◌else◌,
}
use netier.LineChecks.Common.{is_empty, none_or_empty}
use netier.Includes.Paths.{
  dirname, basename, splitext, join_paths, normpath, common_prefix, relpath,
}

pub record Disk : Type 0 where
  pub cwd : Text
  pub exists : Text → Bool

-- A round of the loop to the repository that the user named: does the directory exist, is it the
-- repository, is it a top directory, and what do the rounds behind it find?
abbrev pub repository_turn : Bool → Bool → Bool → Text → Option (Option Text) → Option (Option Text)
repository_turn false is_repo is_top root_dir rest = some none
repository_turn true true is_top root_dir rest = some (some root_dir)
repository_turn true false true root_dir rest = some none
repository_turn true false false root_dir rest = rest

-- A round of the loop to the top of a checkout
abbrev pub checkout_turn : Bool → Text → Option Text → Option Text
checkout_turn true root_dir rest = some root_dir
checkout_turn false root_dir rest = rest

module _ (disk : Disk) where
  -- `os.path.abspath`
  unfoldable pub abspath : Text → Text
  abspath p = normpath (join_paths disk.cwd p)

  -- `FullName`
  unfoldable pub full_name : Text → Text
  full_name filename = replace (abspath filename) (txt "\\") (txt "/")

  -- The loop up from a directory to the repository that the user named; none is out of rounds, and
  -- within it none is not found.
  unfoldable pub find_repository : ℕ → Text → Text → Option (Option Text)
  find_repository zero repo root_dir = none
  find_repository (suc rounds) repo root_dir =
      repository_turn (disk.exists root_dir) (text_eq root_dir repo)
        (text_eq (dirname root_dir) root_dir) root_dir
        (find_repository rounds repo (dirname root_dir))

  unfoldable pub has_entry : Text → Text → Bool
  has_entry dir entry = disk.exists (join_paths dir entry)

  -- The loop up to the top of an SVN checkout; none where it is out of rounds
  unfoldable pub svn_root : ℕ → Text → Text → Option Text
  svn_root zero root_dir one_up_dir = none
  svn_root (suc rounds) root_dir one_up_dir = elim (has_entry one_up_dir (txt ".svn")) [
    | false ↦ some root_dir
    | true ↦ svn_root rounds (dirname root_dir) (dirname one_up_dir)
  ]

  unfoldable pub is_checkout : Text → Bool
  is_checkout dir =
      has_entry dir (txt ".git") || (has_entry dir (txt ".hg") || has_entry dir (txt ".svn"))

  -- The loop up to the last directory but the top one that is a checkout; none is out of rounds.
  unfoldable pub checkout_root : ℕ → Text → Text → Option Text
  checkout_root zero root_dir current_dir = none
  checkout_root (suc rounds) root_dir current_dir =
      checkout_turn (text_eq current_dir (dirname current_dir)) root_dir (
        checkout_root rounds (if is_checkout current_dir then current_dir else root_dir)
          (dirname current_dir))

  unfoldable pub behind_root : Text → Text → Text → Text
  behind_root fullname project_dir root_dir =
      drop (length (common_prefix root_dir project_dir) + 1) fullname

  abbrev pub git_name_in : Text → Text → Option Text → Option Text
  git_name_in fullname project_dir none = none
  git_name_in fullname project_dir (some root_dir) =
      some (if is_checkout root_dir then behind_root fullname project_dir root_dir else fullname)

  unfoldable pub git_name : Text → Text → Option Text
  git_name fullname project_dir =
      git_name_in fullname project_dir
        (checkout_root (length project_dir + 1) project_dir project_dir)

  abbrev pub svn_name : Text → Text → Option Text → Option Text
  svn_name fullname project_dir none = none
  svn_name fullname project_dir (some root_dir) = some (behind_root fullname project_dir root_dir)

  -- The name by version control; none where a loop does not end
  unfoldable pub controlled_name : Text → Text → Option Text
  controlled_name fullname project_dir =
      if has_entry project_dir (txt ".svn")
      then svn_name fullname project_dir
          (svn_root (length project_dir + 2) project_dir (dirname project_dir))
      else git_name fullname project_dir

  abbrev pub or_controlled : Text → Text → Option (Option Text) → Option Text
  or_controlled fullname project_dir none = none
  or_controlled fullname project_dir (some none) = controlled_name fullname project_dir
  or_controlled fullname project_dir (some (some root_dir)) =
      some (replace (relpath fullname root_dir) (txt "\\") (txt "/"))

  unfoldable pub named_root : Option Text → Text → Option (Option Text)
  named_root repository project_dir =
      if is_empty (none_or_empty repository)
      then some none
      else find_repository (length project_dir + 1) (full_name (none_or_empty repository))
          project_dir

  -- `RepositoryName`, where `repository` is the global `_repository`; none where a loop does not end
  unfoldable pub repository_name : Option Text → Text → Option Text
  repository_name repository filename =
      let fullname = full_name filename in
      if disk.exists fullname
      then or_controlled fullname (dirname fullname) (named_root repository (dirname fullname))
      else some fullname

-- The parts of a repository name that `Split` returns
pub record Split : Type 0 where
  pub project : Text
  pub base : Text
  pub extension : Text

unfoldable pub split_name : Text → Split
split_name googlename =
    let (base, extension) = splitext (basename googlename) in
    record { project = dirname googlename; base = base; extension = extension }

-- `NoExtension`
unfoldable pub no_extension : Text → Text
no_extension googlename = let s = split_name googlename in s.project ++ (b'/' ∷ s.base)

-- `IsSource`, where the second argument is `GetNonHeaderExtensions()`
unfoldable pub is_source : List Text → Text → Bool
is_source extensions googlename = elem (drop 1 (split_name googlename).extension) extensions
