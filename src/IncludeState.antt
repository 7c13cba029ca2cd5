-- ===== src/IncludeState.antt =====
-- `_IncludeState` of build_support/cpplint.py: the order of a file's include lines.
pub mod Steps
pub mod Order
use netier.Base.{
  ℕ, zero, suc, ◌-◌, Bool, true, false, not, ◌&&◌, Option, none, some, List, [], ◌∷◌, ◌++◌, leb,
  if◌then◌else◌, Text, txt, text_eq, text_gt, replace, lower, reverse, get_or, length,
}
use netier.Regex.{is_match}

-- `_C_SYS_HEADER` and so on.
pub data HeaderType : Type 0 where
  c_sys cpp_sys likely_my possible_my other : HeaderType

-- `_INITIAL_SECTION` and so on.
pub data Section : Type 0 where
  initial my_h c cpp other_h : Section

-- The number of a section.
unfoldable pub rank : Section → ℕ
rank initial = 0
rank my_h = 1
rank c = 2
rank cpp = 3
rank other_h = 4

unfoldable pub type_name : HeaderType → Text
type_name c_sys = txt "C system header"
type_name cpp_sys = txt "C++ system header"
type_name likely_my = txt "header this file implements"
type_name possible_my = txt "header this file may implement"
type_name other = txt "other header"

unfoldable pub section_name : Section → Text
section_name initial = txt "... nothing. (This can't be an error.)"
section_name my_h = txt "a header this file implements"
section_name c = txt "C system header"
section_name cpp = txt "C++ system header"
section_name other_h = txt "other header"

-- The include list has one inner list of headers and lines for each preprocessor branch.
pub record IncludeState : Type 0 where
  pub include_list : List (List (Text × ℕ))
  pub section : Section
  pub last_header : Text

unfoldable pub find_in : Text → List (Text × ℕ) → Option ℕ
find_in header [] = none
find_in header ((h, n) ∷ hs) = if text_eq h header then some n else find_in header hs

unfoldable pub find_in_lists : Text → List (List (Text × ℕ)) → Option ℕ
find_in_lists header [] = none
find_in_lists header (hs ∷ lists) = elim (find_in header hs) [
  | some n ↦ some n
  | none ↦ find_in_lists header lists
]

-- `FindHeader`, with none for -1
unfoldable pub find_header : Text → IncludeState → Option ℕ
find_header header s = find_in_lists header s.include_list

-- `xs[-1] = []`. The include list is never empty.
unfoldable pub clear_last : List (List (Text × ℕ)) → List (List (Text × ℕ))
clear_last [] = []
clear_last (hs ∷ []) = [] ∷ []
clear_last (hs ∷ gs ∷ lists) = hs ∷ clear_last (gs ∷ lists)

unfoldable pub one_of : Text → List Text → Bool
one_of d [] = false
one_of d (x ∷ xs) = if text_eq d x then true else one_of d xs

-- The include list after a directive: "if" and its kin, "else" and its kin, or another.
unfoldable pub list_after : Text → List (List (Text × ℕ)) → List (List (Text × ℕ))
list_after directive lists =
    if one_of directive (txt "if" ∷ txt "ifdef" ∷ txt "ifndef" ∷ [])
    then lists ++ [] ∷ []
    else if one_of directive (txt "else" ∷ txt "elif" ∷ [])
    then clear_last lists
    else lists

unfoldable pub reset_section : Text → IncludeState → IncludeState
reset_section directive s = record {
  include_list = list_after directive s.include_list;
  section = initial;
  last_header = [];
}

-- `__init__`
unfoldable pub new_include_state : IncludeState
unfolding reset_section
new_include_state =
    reset_section [] (record { include_list = [] ∷ []; section = initial; last_header = [] })

unfoldable pub set_last_header : Text → IncludeState → IncludeState
set_last_header header_path s = record s { last_header = header_path }

unfoldable pub canonicalize_alphabetical_order : Text → Text
canonicalize_alphabetical_order header_path =
    lower (replace (replace header_path (txt "-inl.h") (txt ".h")) (txt "-") (txt "_"))

-- `elided[linenum - 1]`, where -1 is the last line
unfoldable pub line_before : List Text → ℕ → Text
line_before elided zero = get_or elided (length elided - 1) []
line_before elided (suc n) = get_or elided n []

unfoldable pub is_in_alphabetical_order : List Text → ℕ → Text → IncludeState → Bool
is_in_alphabetical_order elided linenum header_path s = not (
    text_gt s.last_header header_path
    && is_match (txt "^\\s*#\\s*include\\b") (line_before elided linenum))

unfoldable pub order_message : HeaderType → Section → Text
order_message t s = txt "Found " ++ type_name t ++ txt " after " ++ section_name s

abbrev pub section_eq : Section → Section → Bool
unfolding rank
section_eq s t = netier.Base.◌==◌ (rank s) (rank t)

-- The end of the method for a section that is allowed: a new section clears the last header.
unfoldable pub move_to : Section → IncludeState → IncludeState × Text
move_to section s = (
  record s {
    section = section;
    last_header = if section_eq s.section section then s.last_header else [];
  },
  [],
)

-- The end of the method for a system header that comes too late.
unfoldable pub too_late : HeaderType → IncludeState → IncludeState × Text
too_late t s = (record s { last_header = [] }, order_message t s.section)

unfoldable pub check_next_include_order : HeaderType → IncludeState → IncludeState × Text
check_next_include_order c_sys s =
    if leb (rank s.section) (rank c) then move_to c s else too_late c_sys s
check_next_include_order cpp_sys s =
    if leb (rank s.section) (rank cpp) then move_to cpp s else too_late cpp_sys s
check_next_include_order likely_my s =
    if leb (rank s.section) (rank my_h) then move_to my_h s else move_to other_h s
check_next_include_order possible_my s =
    if leb (rank s.section) (rank my_h) then move_to my_h s else move_to other_h s
check_next_include_order other s = move_to other_h s
