-- ===== src/Nesting/Blocks.antt =====
-- `_BlockInfo` and its subclasses, `GetIndentLevel`, and `_MATCH_ASM`.
use netier.Base.{
  ℕ, ◌+◌, Bool, true, false, Option, none, some, List, [], ◌∷◌, Text, txt, text_eq, count_text,
  length, drop, get_or, ℤ, pos, add_sub, is_int, if◌then◌else◌,
}
use netier.Regex.{Found, match_re, is_match, group_or_empty}
use netier.Cleanse.{CleansedLines}

-- `_NO_ASM` and so on
pub data Asm : Type 0 where
  no_asm inside_asm end_asm block_asm : Asm

-- What `_ClassInfo` adds
pub record ClassInfo : Type 0 where
  pub name : Text
  pub is_derived : Bool
  pub is_struct : Bool
  pub access : Text
  pub class_indent : ℕ
  pub last_line : ℕ

-- The class of a block, with what a subclass adds
pub data BlockClass : Type 0 where
  generic : BlockClass
  extern_c : BlockClass
  class_info : ClassInfo → BlockClass
  namespace_info : Text → BlockClass

pub record BlockInfo : Type 0 where
  pub starting_linenum : ℕ
  pub seen_open_brace : Bool
  pub open_parentheses : ℤ
  pub inline_asm : Asm
  pub check_namespace_indentation : Bool
  pub block_class : BlockClass

-- `_BlockInfo(linenum, seen_open_brace)`
unfoldable pub new_block : ℕ → Bool → BlockInfo
new_block linenum seen = record {
  starting_linenum = linenum;
  seen_open_brace = seen;
  open_parentheses = pos 0;
  inline_asm = no_asm;
  check_namespace_indentation = false;
  block_class = generic;
}

-- `_ExternCInfo(linenum)`
unfoldable pub new_extern_c : ℕ → BlockInfo
unfolding new_block
new_extern_c linenum = record (new_block linenum true) { block_class = extern_c }

-- `_NamespaceInfo(name, linenum)`, where a missing name is ""
unfoldable pub new_namespace : Text → ℕ → BlockInfo
unfolding new_block
new_namespace name linenum = record (new_block linenum false) {
  check_namespace_indentation = true;
  block_class = namespace_info name;
}

abbrev indent_length : Option Found → ℕ
indent_length none = 0
indent_length (some m) = length (group_or_empty 1 m)

unfoldable pub get_indent_level : Text → ℕ
get_indent_level line = indent_length (match_re (txt "^( *)\\S") line)

-- The loop for `last_line`, over the lines from number `i` on
unfoldable pub last_line_from : ℤ → ℕ → List Text → ℕ
last_line_from depth i [] = 0
last_line_from depth i (line ∷ lines) =
    let depth' = add_sub depth (count_text line (txt "{")) (count_text line (txt "}")) in
    let rest = last_line_from depth' (i + 1) lines in if is_int depth' 0 then i else rest

-- `_ClassInfo(name, class_or_struct, clean_lines, linenum)`
unfoldable pub new_class : Text → Text → CleansedLines → ℕ → BlockInfo
unfolding new_block
new_class name class_or_struct clean_lines linenum =
    let is_struct = text_eq class_or_struct (txt "struct") in
    record (new_block linenum false) {
      check_namespace_indentation = true;
      block_class = class_info (record {
        name = name;
        is_derived = false;
        is_struct = is_struct;
        access = if is_struct then txt "public" else txt "private";
        class_indent = get_indent_level (get_or clean_lines.raw_lines linenum []);
        last_line = last_line_from (pos 0) linenum (drop linenum clean_lines.elided);
      });
    }

-- `_MATCH_ASM.match(line)`
unfoldable pub is_asm : Text → Bool
is_asm line =
    is_match (txt "^\\s*(?:asm|_asm|__asm|__asm__)(?:\\s+(volatile|__volatile__))?\\s*[{(]") line

abbrev pub is_namespace : BlockClass → Bool
is_namespace (namespace_info name) = true
is_namespace _ = false

abbrev pub is_class : BlockClass → Bool
is_class (class_info c) = true
is_class _ = false

abbrev pub is_extern_c : BlockClass → Bool
is_extern_c extern_c = true
is_extern_c _ = false

-- `IsBlockInfo`
abbrev pub is_block_info : BlockClass → Bool
is_block_info generic = true
is_block_info _ = false
