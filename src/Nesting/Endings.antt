-- ===== src/Nesting/Endings.antt =====
-- `CheckBegin` and `CheckEnd` of the classes of blocks.
use netier.Base.{
  ℕ, zero, suc, ◌+◌, ◌-◌, Bool, true, false, not, ◌&&◌, ◌||◌, Option, none, some, List, [], ◌∷◌,
  ◌++◌, Text, txt, length, get_or, ltb, ◌==◌, if◌then◌else◌,
}
use netier.Regex.{Found, match_re, search_re, is_match, is_found, group_or_empty}
use netier.Cleanse.{CleansedLines}
use netier.Suppress.{Report}
use netier.Nesting.Blocks.{
  BlockInfo, BlockClass, generic, extern_c, class_info, namespace_info, ClassInfo,
}

-- `CheckBegin`: a class with a bare `:` in its head is derived.
unfoldable pub begin_class : Text → BlockClass → BlockClass
begin_class line (class_info c) = class_info (record c {
  is_derived = if is_found (txt "(^|[^:]):($|[^:])") line then true else c.is_derived;
})
begin_class line k = k

unfoldable pub check_begin : Text → BlockInfo → BlockInfo
check_begin line b = record b { block_class = begin_class line b.block_class }

unfoldable pub disallow_match : Text → Text → Option Found
disallow_match name line =
    search_re
      (txt "\\b(DISALLOW_COPY_AND_ASSIGN|DISALLOW_IMPLICIT_CONSTRUCTORS)\\(" ++ name ++ txt "\\)")
      line

unfoldable pub last_thing_report : ℕ → Found → Report
last_thing_report i m = record {
  linenum = i;
  category = txt "readability/constructors";
  confidence = 3;
  message = group_or_empty 1 m ++ txt " should be the last thing in the class";
}

-- The loop over the lines in front of the closing brace: `rounds` lines, from `i` down
unfoldable pub disallow_loop : Text → List Text → ℕ → ℕ → Bool → List Report
disallow_loop name elided zero i seen = []
disallow_loop name elided (suc rounds) i seen =
    let line = get_or elided i [] in
    let rest =
      disallow_loop name elided rounds (i - 1) (seen || not (is_match (txt "^\\s*$") line)) in
    elim (disallow_match name line) [
      | some m ↦ if seen then last_thing_report i m ∷ [] else []
      | none ↦ rest
    ]

unfoldable pub parent_name : ClassInfo → Text
parent_name c = (if c.is_struct then txt "struct " else txt "class ") ++ c.name

unfoldable pub brace_report : ℕ → ClassInfo → Report
brace_report linenum c = record {
  linenum = linenum;
  category = txt "whitespace/indent";
  confidence = 3;
  message = txt "Closing brace should be aligned with beginning of " ++ parent_name c;
}

unfoldable pub brace_indent : ℕ → ClassInfo → Option Found → List Report
brace_indent linenum c none = []
brace_indent linenum c (some m) =
    if length (group_or_empty 1 m) == c.class_indent then [] else brace_report linenum c ∷ []

unfoldable pub end_class : CleansedLines → ℕ → ℕ → ClassInfo → List Report
end_class clean_lines linenum start c =
    disallow_loop c.name clean_lines.elided (linenum - 1 - start) (linenum - 1) false
    ++ brace_indent linenum c (match_re (txt "^( *)\\}") (get_or clean_lines.elided linenum []))

unfoldable pub namespace_report : ℕ → Text → Report
namespace_report linenum message = record {
  linenum = linenum;
  category = txt "readability/namespace";
  confidence = 5;
  message = message;
}

-- The comment behind a namespace with this name. Names hold only word characters and `:`, which
-- `re.escape` need not escape.
unfoldable pub named_end : ℕ → Text → Text → List Report
named_end linenum name line =
    if is_match (txt "^\\s*};*\\s*(//|/\\*).*\\bnamespace\\s+" ++ name ++ txt "[\\*/\\.\\\\\\s]*$")
      line
    then []
    else namespace_report linenum
        (txt "Namespace should be terminated with \"// namespace " ++ name ++ txt "\"")
      ∷ []

unfoldable pub anonymous_end : ℕ → Text → List Report
anonymous_end linenum line =
    if is_match (txt "^\\s*};*\\s*(//|/\\*).*\\bnamespace[\\*/\\.\\\\\\s]*$") line
    then []
    else if is_match (txt "^\\s*}.*\\b(namespace anonymous|anonymous namespace)\\b") line
    then namespace_report linenum (
        txt "Anonymous namespace should be terminated with \"// namespace\""
        ++ txt " or \"// anonymous namespace\"")
      ∷ []
    else namespace_report linenum
        (txt "Anonymous namespace should be terminated with \"// namespace\"")
      ∷ []

unfoldable pub name_end : ℕ → Text → Text → List Report
name_end linenum [] line = anonymous_end linenum line
name_end linenum (c ∷ name) line = named_end linenum (c ∷ name) line

unfoldable pub end_namespace : CleansedLines → ℕ → ℕ → Text → List Report
end_namespace clean_lines linenum start name =
    let line = get_or clean_lines.raw_lines linenum [] in
    if ltb linenum (start + 10)
      && not (is_match (txt "^\\s*};*\\s*(//|/\\*).*\\bnamespace\\b") line)
    then []
    else name_end linenum name line

unfoldable pub end_of : CleansedLines → ℕ → ℕ → BlockClass → List Report
end_of clean_lines linenum start generic = []
end_of clean_lines linenum start extern_c = []
end_of clean_lines linenum start (class_info c) = end_class clean_lines linenum start c
end_of clean_lines linenum start (namespace_info name) =
    end_namespace clean_lines linenum start name

-- `CheckEnd`
unfoldable pub check_end : CleansedLines → ℕ → BlockInfo → List Report
check_end clean_lines linenum b = end_of clean_lines linenum b.starting_linenum b.block_class
