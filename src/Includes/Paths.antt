-- ===== src/Includes/Paths.antt =====
-- What is used of Python's `os.path`, on a POSIX system.
pub mod Prefix
pub mod Absolute
use netier.Base.{
  ℕ, ◌+◌, Bool, false, not, ◌&&◌, ◌||◌, Option, none, some, List, [], ◌∷◌, ◌++◌, ◌==◌, Text, txt,
  text_eq, starts_with, ends_with, split_on, join, take, drop, reverse, if◌then◌else◌,
}
use netier.LineChecks.Common.{rfind, is_empty}

-- The place behind the last slash
unfoldable pub name_start : Text → ℕ
name_start p = elim (rfind p b'/') [ none ↦ 0 | some i ↦ i + 1 ]

unfoldable pub drop_slashes : Text → Text
drop_slashes [] = []
drop_slashes (c ∷ s) = if c == b'/' then drop_slashes s else c ∷ s

-- `head.rstrip('/')`, of a head that is not all slashes
unfoldable pub trim_head : Text → Text
trim_head head =
    if is_empty (drop_slashes head) then head else reverse (drop_slashes (reverse head))

unfoldable pub dirname : Text → Text
dirname p = trim_head (take (name_start p) p)

unfoldable pub basename : Text → Text
basename p = drop (name_start p) p

-- Is some character of the name in front of its last dot no dot?
unfoldable pub has_stem : Text → Bool
has_stem [] = false
has_stem (c ∷ s) = not (c == b'.') || has_stem s

-- The place of the dot of the extension in a name
unfoldable pub extension_at : Text → Option ℕ
extension_at name = elim (rfind name b'.') [
  | none ↦ none
  | some i ↦ if has_stem (take i name) then some i else none
]

-- `os.path.splitext`
unfoldable pub splitext : Text → Text × Text
splitext p = elim (extension_at (basename p)) [
  | none ↦ (p, [])
  | some i ↦ (take (name_start p + i) p, drop (name_start p + i) p)
]

-- `os.path.join` of two paths
unfoldable pub join_paths : Text → Text → Text
join_paths a b =
    if starts_with b (txt "/")
    then b
    else if is_empty a || ends_with a (txt "/")
    then a ++ b
    else a ++ (b'/' ∷ b)

-- The loop of `os.path.normpath` over the parts of a path; the parts so far are in reverse.
unfoldable pub norm_loop : Bool → List Text → List Text → List Text
norm_loop is_absolute kept [] = reverse kept
norm_loop is_absolute [] (part ∷ parts) =
    if is_empty part || text_eq part (txt ".")
    then norm_loop is_absolute [] parts
    else if text_eq part (txt "..") && is_absolute
    then norm_loop is_absolute [] parts
    else norm_loop is_absolute (part ∷ []) parts
norm_loop is_absolute (last ∷ kept) (part ∷ parts) =
    if is_empty part || text_eq part (txt ".")
    then norm_loop is_absolute (last ∷ kept) parts
    else if text_eq part (txt "..") && not (text_eq last (txt ".."))
    then norm_loop is_absolute kept parts
    else norm_loop is_absolute (part ∷ last ∷ kept) parts

unfoldable pub leading_slashes : Text → Text
leading_slashes p =
    if starts_with p (txt "//") && not (starts_with p (txt "///"))
    then txt "//"
    else if starts_with p (txt "/")
    then txt "/"
    else []

abbrev pub or_dot : Text → Text
or_dot [] = txt "."
or_dot (c ∷ p) = c ∷ p

unfoldable pub normpath : Text → Text
normpath p = or_dot (
    leading_slashes p
    ++ join b'/' (norm_loop (not (is_empty (leading_slashes p))) [] (split_on b'/' p)))

-- `os.path.commonprefix` of two texts
unfoldable pub common_prefix : Text → Text → Text
common_prefix [] t = []
common_prefix (c ∷ s) [] = []
common_prefix (c ∷ s) (d ∷ t) = if c == d then c ∷ common_prefix s t else []

unfoldable pub parts_of : List Text → List Text
parts_of [] = []
parts_of (p ∷ ps) = if is_empty p then parts_of ps else p ∷ parts_of ps

unfoldable pub climb : List Text → List Text → List Text
climb [] to = to
climb (p ∷ from) to = txt ".." ∷ climb from to

-- The way from one list of parts to another
unfoldable pub relative : List Text → List Text → List Text
relative [] to = to
relative (p ∷ from) [] = climb (p ∷ from) []
relative (p ∷ from) (q ∷ to) = if text_eq p q then relative from to else climb (p ∷ from) (q ∷ to)

-- `os.path.relpath` of two absolute paths
unfoldable pub relpath : Text → Text → Text
relpath path start = or_dot (
    join b'/' (
      relative (parts_of (split_on b'/' (normpath start)))
        (parts_of (split_on b'/' (normpath path)))))
