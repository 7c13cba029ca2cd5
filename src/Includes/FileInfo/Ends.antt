-- ===== src/Includes/FileInfo/Ends.antt =====
-- `RepositoryName` ends where no top directory has an entry `.svn`.
use netier.Base.{
  ℕ, zero, suc, ◌+◌, ◌<◌, ◌≡◌, ◌⊎◌, inl, inr, refl, ap, Bool, true, false, Option, none, some,
  arith, Text, txt, text_eq, text_eq_refl, length, if◌then◌else◌,
}
use netier.Includes.Paths.{dirname}
use netier.Includes.Paths.Prefix.{dirname-shorter}
use netier.Includes.Paths.Absolute.{
  IsAbsolute, dirname-IsAbsolute, join_paths-IsAbsolute, normpath-IsAbsolute, replace-IsAbsolute,
}
use netier.Includes.FileInfo.{
  Disk, abspath, full_name, repository_turn, checkout_turn, find_repository, checkout_root,
  is_checkout, git_name_in, git_name, named_root, has_entry, svn_root, svn_name, controlled_name,
  or_controlled, repository_name,
}

full_name-IsAbsolute :
    (disk : Disk) (filename : Text) → IsAbsolute disk.cwd → IsAbsolute (full_name disk filename)
unfolding full_name abspath
full_name-IsAbsolute disk filename h =
    replace-IsAbsolute _ (normpath-IsAbsolute _ (join_paths-IsAbsolute disk.cwd filename h))

top_eq : (d : Text) → dirname d ≡ d → text_eq (dirname d) d ≡ true
top_eq d e = rw e (text_eq_refl d)

top_eq_sym : (d : Text) → dirname d ≡ d → text_eq d (dirname d) ≡ true
top_eq_sym d e = rw e (text_eq_refl d)

abbrev Ends {ℓ} : {A : Type ℓ} → Option A → Type ℓ
Ends {A = A} o = (r : A) × (o ≡ some r)

repository_turn-Ends :
    (exists is_repo is_top : Bool) (root_dir : Text) (rest : Option (Option Text))
    → (is_top ≡ true) ⊎ Ends rest
    → Ends (repository_turn exists is_repo is_top root_dir rest)
repository_turn-Ends false is_repo is_top root_dir rest h = (_, refl)
repository_turn-Ends true true is_top root_dir rest h = (_, refl)
repository_turn-Ends true false true root_dir rest h = (_, refl)
repository_turn-Ends true false false root_dir rest (inl e) = ground arith
repository_turn-Ends true false false root_dir rest (inr h) = h

checkout_turn-Ends :
    (is_top : Bool) (root_dir : Text) (rest : Option Text)
    → (is_top ≡ true) ⊎ Ends rest
    → Ends (checkout_turn is_top root_dir rest)
checkout_turn-Ends true root_dir rest h = (_, refl)
checkout_turn-Ends false root_dir rest (inl e) = ground arith
checkout_turn-Ends false root_dir rest (inr h) = h

module _ (disk : Disk) where
  find_repository-Ends :
      (rounds : ℕ) (repo root_dir : Text)
      → length root_dir < rounds
      → Ends (find_repository disk rounds repo root_dir)
  unfolding find_repository
  find_repository-Ends zero repo root_dir h = absurd (omega arith)
  find_repository-Ends (suc rounds) repo root_dir h =
      repository_turn-Ends _ _ _ root_dir _ (elim (dirname-shorter root_dir) [
        | inl l ↦ inr (find_repository-Ends rounds repo (dirname root_dir) (omega arith))
        | inr e ↦ inl (top_eq root_dir e)
      ])

  checkout_root-Ends :
      (rounds : ℕ) (root_dir current_dir : Text)
      → length current_dir < rounds
      → Ends (checkout_root disk rounds root_dir current_dir)
  unfolding checkout_root
  checkout_root-Ends zero root_dir current_dir h = absurd (omega arith)
  checkout_root-Ends (suc rounds) root_dir current_dir h =
      checkout_turn-Ends _ root_dir _ (elim (dirname-shorter current_dir) [
        | inl l ↦ inr (
            checkout_root-Ends rounds
              (if is_checkout disk current_dir then current_dir else root_dir) (dirname current_dir)
              (omega arith))
        | inr e ↦ inl (top_eq_sym current_dir e)
      ])

  git_name_in-Ends :
      (fullname project_dir : Text) (o : Option Text)
      → Ends o
      → Ends (git_name_in disk fullname project_dir o)
  git_name_in-Ends fullname project_dir none (r, e) = ground arith
  git_name_in-Ends fullname project_dir (some root_dir) h = (_, refl)

  git_name-Ends : (fullname project_dir : Text) → Ends (git_name disk fullname project_dir)
  unfolding git_name
  git_name-Ends fullname project_dir =
      git_name_in-Ends fullname project_dir _
        (checkout_root-Ends (length project_dir + 1) project_dir project_dir (omega arith))

  if-Ends : {A : Type 0} (b : Bool) {o p : Option A} → Ends o → Ends p → Ends (if b then o else p)
  if-Ends true e e' = e
  if-Ends false e e' = e'

  named_root-Ends :
      (repository : Option Text) (project_dir : Text)
      → Ends (named_root disk repository project_dir)
  unfolding named_root
  named_root-Ends repository project_dir =
      if-Ends _ (_, refl)
        (find_repository-Ends (length project_dir + 1) _ project_dir (omega arith))

-- No top directory, which is an absolute path that is its own directory, has an entry `.svn`.
unfoldable pub HasPlainTop : Disk → Type 0
HasPlainTop disk = (d : Text) → IsAbsolute d → dirname d ≡ d → has_entry disk d (txt ".svn") ≡ false

within_rounds :
    (p : Text)
    → (length (dirname p) < length p) ⊎ (dirname p ≡ p)
    → length (dirname p) < length p + 2
within_rounds p (inl l) = omega arith
within_rounds p (inr e) = let n : length (dirname p) ≡ length p = ap length e in omega arith

module _ (disk : Disk) (h : HasPlainTop disk) where
  not_top :
      (d : Text)
      → IsAbsolute d
      → has_entry disk d (txt ".svn") ≡ true
      → length (dirname d) < length d
  unfolding HasPlainTop
  not_top d a e = elim (dirname-shorter d) [ inl l ↦ l | inr q ↦ let f = h d a q in ground arith ]

  svn_round-Ends :
      (rounds : ℕ) (root_dir one_up_dir : Text) (b : Bool)
      → IsAbsolute one_up_dir
      → ((root one_up : Text)
          → IsAbsolute one_up
          → length one_up < rounds
          → Ends (svn_root disk rounds root one_up))
      → has_entry disk one_up_dir (txt ".svn") ≡ b
      → length one_up_dir < suc rounds
      → Ends (elim b [
        | false ↦ some root_dir
        | true ↦ svn_root disk rounds (dirname root_dir) (dirname one_up_dir)
      ])
  svn_round-Ends rounds root_dir one_up_dir false a ih e l = (root_dir, refl)
  svn_round-Ends rounds root_dir one_up_dir true a ih e l =
      let k = not_top one_up_dir a e in ih _ _ (dirname-IsAbsolute one_up_dir a) (omega arith)

  svn_root-Ends :
      (rounds : ℕ) (root_dir one_up_dir : Text)
      → IsAbsolute one_up_dir
      → length one_up_dir < rounds
      → Ends (svn_root disk rounds root_dir one_up_dir)
  unfolding svn_root
  svn_root-Ends zero root_dir one_up_dir a l = absurd (omega arith)
  svn_root-Ends (suc rounds) root_dir one_up_dir a l =
      svn_round-Ends rounds root_dir one_up_dir _ a (svn_root-Ends rounds) refl l

  svn_name-Ends :
      (fullname project_dir : Text) (o : Option Text)
      → Ends o
      → Ends (svn_name disk fullname project_dir o)
  svn_name-Ends fullname project_dir none (r, e) = ground arith
  svn_name-Ends fullname project_dir (some root_dir) e = (_, refl)

  controlled_name-Ends :
      (fullname project_dir : Text)
      → IsAbsolute project_dir
      → Ends (controlled_name disk fullname project_dir)
  unfolding controlled_name
  controlled_name-Ends fullname project_dir a =
      if-Ends disk _
        (svn_name-Ends fullname project_dir _ (
          svn_root-Ends (length project_dir + 2) project_dir (dirname project_dir)
            (dirname-IsAbsolute project_dir a)
            (within_rounds project_dir (dirname-shorter project_dir))))
        (git_name-Ends disk fullname project_dir)

  or_controlled-Ends :
      (fullname project_dir : Text) (o : Option (Option Text))
      → IsAbsolute project_dir
      → Ends o
      → Ends (or_controlled disk fullname project_dir o)
  or_controlled-Ends fullname project_dir none a (r, e) = ground arith
  or_controlled-Ends fullname project_dir (some none) a e =
      controlled_name-Ends fullname project_dir a
  or_controlled-Ends fullname project_dir (some (some root_dir)) a e = (_, refl)

-- Where the working directory is an absolute path and no top directory has an entry `.svn`, all
-- loops of `RepositoryName` end, and it returns a name for every file.
pub repository_name-ends :
    (disk : Disk) (repository : Option Text) (filename : Text)
    → IsAbsolute disk.cwd
    → HasPlainTop disk
    → (name : Text) × (repository_name disk repository filename ≡ some name)
unfolding repository_name
repository_name-ends disk repository filename a h =
    let fullname = full_name disk filename in
    let top = full_name-IsAbsolute disk filename a in
    if-Ends disk _
      (or_controlled-Ends disk h fullname (dirname fullname) _ (dirname-IsAbsolute fullname top)
        (named_root-Ends disk repository (dirname fullname)))
      (_, refl)
