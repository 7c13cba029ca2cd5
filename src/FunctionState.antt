-- ===== src/FunctionState.antt =====
-- `_FunctionState` and `CheckForFunctionLengths` of build_support/cpplint.py.
pub mod Trigger
pub mod Lines
use netier.Base.{
  ℕ, zero, suc, ◌+◌, ◌*◌, ◌^◌, Bool, true, false, not, ◌&&◌, ◌||◌, Option, none, some, List, [],
  ◌∷◌, ◌++◌, leb, ltb, min, if◌then◌else◌, Text, txt, text_eq, is_space, lstrip, decimal, reverse,
  get_or, drop,
}
use netier.Suppress.{Report}
use netier.Regex.{Found, match_re, search_re, is_match, is_found, group_or_empty}

pub record FunctionState : Type 0 where
  pub in_a_function : Bool
  pub lines_in_function : ℕ
  pub current_function : Text

unfoldable pub new_function_state : FunctionState
new_function_state = record { in_a_function = false; lines_in_function = 0; current_function = [] }

unfoldable pub begin : Text → FunctionState → FunctionState
begin function_name s = record {
  in_a_function = true;
  lines_in_function = 0;
  current_function = function_name;
}

unfoldable pub count : FunctionState → FunctionState
count s = if s.in_a_function then record s { lines_in_function = s.lines_in_function + 1 } else s

abbrev pub normal_trigger : ℕ
normal_trigger = 250

abbrev pub test_trigger : ℕ
test_trigger = 400

unfoldable pub base_trigger : Text → ℕ
base_trigger function =
    if is_match (txt "T(EST|est)") function then test_trigger else normal_trigger

-- `int(math.log(lines / base, 2))` for base <= lines: how often `base` can be doubled.
unfoldable pub log2_ratio : ℕ → ℕ → ℕ → ℕ
log2_ratio zero lines base = 0
log2_ratio (suc fuel) lines base =
    let rest = log2_ratio fuel lines (base * 2) in if leb (base * 2) lines then suc rest else 0

unfoldable pub error_level : ℕ → ℕ → ℕ
error_level lines base = let level = log2_ratio lines lines base in if ltb 5 level then 5 else level

unfoldable pub size_report : FunctionState → ℕ → ℕ → ℕ → Report
size_report s linenum base trigger = record {
  linenum = linenum;
  category = txt "readability/fn_size";
  confidence = error_level s.lines_in_function base;
  message =
      txt "Small and focused functions are preferred: "
      ++ s.current_function
      ++ txt " has "
      ++ decimal s.lines_in_function
      ++ txt " non-comment lines (error triggered by exceeding "
      ++ decimal trigger
      ++ txt " lines).";
}

-- `Check`, at a verbosity level
unfoldable pub check : ℕ → ℕ → FunctionState → List Report
check verbose_level linenum s =
    let base = base_trigger s.current_function in
    let trigger = base * 2 ^ verbose_level in
    if s.in_a_function && ltb trigger s.lines_in_function
    then size_report s linenum base trigger ∷ []
    else []

unfoldable pub end : FunctionState → FunctionState
end s = record s { in_a_function = false }

-- `s.split()[-1]` for an `s` that is not blank: what follows the last white space, if the space
-- at the end is left out.
unfoldable pub until_space : Text → Text
until_space [] = []
until_space (c ∷ s) = if is_space c then [] else c ∷ until_space s

unfoldable pub last_word : Text → Text
last_word s = reverse (until_space (lstrip (reverse s)))

-- Does the line begin a function, as far as its name shows?
unfoldable pub names_function : Option Found → Bool
names_function none = false
names_function (some m) =
    let name = last_word (group_or_empty 1 m) in
    text_eq name (txt "TEST") || text_eq name (txt "TEST_F") || not (is_match (txt "[A-Z_]+$") name)

unfoldable pub starting_func : Text → Bool
starting_func line = names_function (match_re (txt "(\\w(\\w|::|\\*|\\&|\\s)*)\\(") line)

-- What the loop over the lines from the start finds: a declaration or a trivial body, the start of
-- a body with the lines joined so far, or neither.
pub data Body : Type 0 where
  ignored : Body
  starts : Text → Body
  missing : Body

unfoldable pub find_body : Text → List Text → Body
find_body joined [] = missing
find_body joined (line ∷ lines) =
    let joined' = joined ++ txt " " ++ lstrip line in
    let rest = find_body joined' lines in
    if is_found (txt "(;|})") line
    then ignored
    else if is_found (txt "{") line
    then starts joined'
    else rest

abbrev group_of_search : ℕ → Option Found → Text
group_of_search n none = []
group_of_search n (some m) = group_or_empty n m

-- The name that is given to `Begin`. The search for it succeeds: the line has a `(`.
unfoldable pub function_title : Text → Text → Text
function_title line joined =
    let function = group_of_search 1 (search_re (txt "((\\w|:)*)\\(") line) in
    if is_match (txt "TEST") function
    then function ++ group_of_search 1 (search_re (txt "(\\(.*\\))") joined)
    else function ++ txt "()"

unfoldable pub no_body_report : ℕ → Report
no_body_report linenum = record {
  linenum = linenum;
  category = txt "readability/fn_size";
  confidence = 5;
  message = txt "Lint failed to find start of function body.";
}

unfoldable pub start_function : Body → Text → ℕ → FunctionState → FunctionState × List Report
start_function ignored line linenum s = (s, [])
start_function (starts joined) line linenum s = (begin (function_title line joined) s, [])
start_function missing line linenum s = (s, no_body_report linenum ∷ [])

unfoldable pub check_for_function_lengths :
    List Text → ℕ → ℕ → FunctionState → FunctionState × List Report
check_for_function_lengths lines linenum verbose_level s =
    let line = get_or lines linenum [] in
    if starting_func line
    then start_function (find_body [] (drop linenum lines)) line linenum s
    else if is_match (txt "^\\}\\s*$") line
    then (end s, check verbose_level linenum s)
    else if not (is_match (txt "^\\s*$") line)
    then (count s, [])
    else (s, [])
