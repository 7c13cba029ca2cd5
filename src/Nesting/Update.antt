-- ===== src/Nesting/Update.antt =====
-- `Update`: what one line does to the nesting.
use netier.Base.{
  ℕ, zero, suc, ◌+◌, Bool, true, not, ◌&&◌, ◌||◌, Option, none, some, List, [], ◌∷◌, ◌++◌, ◌==◌,
  if◌then◌else◌, Text, txt, find, get_or, length, drop, count_text, add_sub, is_int,
}
use netier.Regex.{Found, match_re, is_match, group_or_empty}
use netier.Cleanse.{CleansedLines}
use netier.Suppress.{Report}
use netier.Nesting.Blocks.{
  BlockInfo, BlockClass, class_info, ClassInfo, Asm, no_asm, inside_asm, end_asm, block_asm,
  new_block, new_extern_c, new_namespace, new_class, is_asm,
}
use netier.Nesting.Endings.{check_begin, check_end, parent_name}
use netier.Nesting.State.{NestingState, top_of}
use netier.Nesting.Preprocessor.{update_preprocessor}
use netier.Nesting.Template.{in_template_argument_list}

-- The assembly state after a line that is `at_asm` an assembly head, `changed` the number of open
-- parentheses, and left one or none of them open.
unfoldable pub next_asm : Asm → Bool → Bool → Bool → Bool → Asm
next_asm no_asm changed is_one is_none at_asm =
    if changed && is_one && at_asm then inside_asm else no_asm
next_asm end_asm changed is_one is_none at_asm =
    if changed && is_one && at_asm then inside_asm else no_asm
next_asm inside_asm changed is_one is_none at_asm = if is_none then end_asm else inside_asm
next_asm block_asm changed is_one is_none at_asm = block_asm

unfoldable pub count_parentheses : Text → List BlockInfo → List BlockInfo
count_parentheses line [] = []
count_parentheses line (b ∷ bs) =
    let opened = count_text line (txt "(") in
    let closed = count_text line (txt ")") in
    let open_parentheses = add_sub b.open_parentheses opened closed in
    record b {
      open_parentheses = open_parentheses;
      inline_asm =
          next_asm b.inline_asm (not (opened == closed)) (is_int open_parentheses 1)
            (is_int open_parentheses 0) (is_asm line);
    }
    ∷ bs

-- A stack with the rest of the line
abbrev pub Parsed : Type 0
Parsed = List BlockInfo × Text

-- The namespace block, and the line behind its opening brace
unfoldable pub open_namespace : BlockInfo → Text → Option ℕ → List BlockInfo → Parsed
open_namespace b line none bs = (b ∷ bs, line)
open_namespace b line (some i) bs = (record b { seen_open_brace = true } ∷ bs, drop (i + 1) line)

unfoldable pub push_namespace : ℕ → Found → List BlockInfo → Parsed
push_namespace linenum m bs =
    let line = group_or_empty 2 m in
    open_namespace (new_namespace (group_or_empty 1 m) linenum) line (find line (txt "{")) bs

-- The loop over the namespaces at the start of the line: every one takes characters off it.
unfoldable pub namespace_loop : ℕ → ℕ → Parsed → Parsed
namespace_loop zero linenum p = p
namespace_loop (suc fuel) linenum (bs, line) =
    elim (match_re (txt "^\\s*namespace\\b\\s*([:\\w]+)?(.*)$") line) [
      | none ↦ (bs, line)
      | some m ↦ namespace_loop fuel linenum (push_namespace linenum m bs)
    ]

unfoldable pub class_decl : Text → Option Found
class_decl line =
    match_re
      (txt "^(\\s*(?:template\\s*<[\\w\\s<>,:=]*>\\s*)?"
        ++ txt "(class|struct)\\s+(?:[A-Z_]+\\s+)*(\\w+(?:::\\w+)*))"
        ++ txt "(.*)$")
      line

unfoldable pub no_open_parentheses : List BlockInfo → Bool
no_open_parentheses [] = true
no_open_parentheses (b ∷ bs) = is_int b.open_parentheses 0

unfoldable pub push_class : CleansedLines → ℕ → Parsed → Option Found → Parsed
push_class clean_lines linenum (bs, line) none = (bs, line)
push_class clean_lines linenum (bs, line) (some m) =
    if no_open_parentheses bs
      && not (in_template_argument_list clean_lines linenum (length (group_or_empty 1 m)))
    then (
      new_class (group_or_empty 3 m) (group_or_empty 2 m) clean_lines linenum ∷ bs,
      group_or_empty 4 m,
    )
    else (bs, line)

-- `CheckBegin` of a block that has not seen its brace, for the whole line
unfoldable pub begin_top : Text → List BlockInfo → List BlockInfo
begin_top line [] = []
begin_top line (b ∷ bs) = if b.seen_open_brace then b ∷ bs else check_begin line b ∷ bs

unfoldable pub access_report : ℕ → ClassInfo → Found → Report
access_report linenum c m = record {
  linenum = linenum;
  category = txt "whitespace/indent";
  confidence = 3;
  message =
      group_or_empty 2 m
      ++ group_or_empty 3 m
      ++ txt ": should be indented +1 space inside "
      ++ parent_name c;
}

unfoldable pub access_reports : ℕ → ClassInfo → Found → List Report
access_reports linenum c m =
    let indent = group_or_empty 1 m in
    if not (length indent == c.class_indent + 1) && is_match (txt "^\\s*$") indent
    then access_report linenum c m ∷ []
    else []

unfoldable pub access_match : Text → Option Found
access_match line =
    match_re
      (txt "^(.*)\\b(public|private|protected|signals)(\\s+(?:slots\\s*)?)?" ++ txt ":(?:[^:]|$)")
      line

unfoldable pub class_access : ℕ → ClassInfo → Option Found → ClassInfo × List Report
class_access linenum c none = (c, [])
class_access linenum c (some m) =
    (record c { access = group_or_empty 2 m }, access_reports linenum c m)

unfoldable pub block_access : Text → ℕ → BlockClass → BlockClass × List Report
block_access line linenum (class_info c) =
    let result = class_access linenum c (access_match line) in (class_info result.0, result.1)
block_access line linenum k = (k, [])

-- The access specifier of the class on top
unfoldable pub update_access : Text → ℕ → List BlockInfo → List BlockInfo × List Report
update_access line linenum [] = ([], [])
update_access line linenum (b ∷ bs) =
    let result = block_access line linenum b.block_class in
    (record b { block_class = result.0 } ∷ bs, result.1)

-- The brace of the head of a class or a namespace, or a block of its own
unfoldable pub open_brace : ℕ → Text → List BlockInfo → List BlockInfo
open_brace linenum line bs =
    if is_match (txt "^extern\\s*\"[^\"]*\"\\s*\\{") line
    then new_extern_c linenum ∷ bs
    else record (new_block linenum true) { inline_asm = if is_asm line then block_asm else no_asm }
      ∷ bs

unfoldable pub at_open : ℕ → Text → List BlockInfo → List BlockInfo
at_open linenum line [] = open_brace linenum line []
at_open linenum line (b ∷ bs) =
    if b.seen_open_brace
    then open_brace linenum line (b ∷ bs)
    else record b { seen_open_brace = true } ∷ bs

-- A declaration with no body ends.
unfoldable pub at_semicolon : List BlockInfo → List BlockInfo
at_semicolon [] = []
at_semicolon (b ∷ bs) = if b.seen_open_brace then b ∷ bs else bs

unfoldable pub at_close : CleansedLines → ℕ → List BlockInfo → List BlockInfo × List Report
at_close clean_lines linenum [] = ([], [])
at_close clean_lines linenum (b ∷ bs) = (bs, check_end clean_lines linenum b)

unfoldable pub at_token :
    CleansedLines → ℕ → Text → ℕ → List BlockInfo → List BlockInfo × List Report
at_token clean_lines linenum line token bs =
    if token == b'{'
    then (at_open linenum line bs, [])
    else if token == b';' || token == b')'
    then (at_semicolon bs, [])
    else at_close clean_lines linenum bs

-- The loop over the braces, semicolons and closing parentheses of the line
unfoldable pub brace_loop :
    ℕ → CleansedLines → ℕ → Text → List BlockInfo → List BlockInfo × List Report
brace_loop zero clean_lines linenum line bs = (bs, [])
brace_loop (suc fuel) clean_lines linenum line bs =
    elim (match_re (txt "^[^{;)}]*([{;)}])(.*)$") line) [
      | none ↦ (bs, [])
      | some m ↦
          let now = at_token clean_lines linenum line (get_or (group_or_empty 1 m) 0 0) bs in
          let later = brace_loop fuel clean_lines linenum (group_or_empty 2 m) now.0 in
          (later.0, now.1 ++ later.1)
    ]

-- The line up to the braces: the stack, the reports and what is left of the line
unfoldable pub update_heads : CleansedLines → ℕ → Text → List BlockInfo → List BlockInfo × Text
update_heads clean_lines linenum line bs =
    let spaced = namespace_loop (length line + 1) linenum (count_parentheses line bs, line) in
    let classed = push_class clean_lines linenum spaced (class_decl spaced.1) in
    (begin_top line classed.0, classed.1)

unfoldable pub update_stack :
    CleansedLines → ℕ → Text → List BlockInfo → List BlockInfo × List Report
update_stack clean_lines linenum line bs =
    let heads = update_heads clean_lines linenum line bs in
    let accessed = update_access heads.1 linenum heads.0 in
    let braced = brace_loop (length heads.1 + 1) clean_lines linenum heads.1 accessed.0 in
    (braced.0, accessed.1 ++ braced.1)

-- `Update`
unfoldable pub update : CleansedLines → ℕ → NestingState → NestingState × List Report
update clean_lines linenum s =
    let line = get_or clean_lines.elided linenum [] in
    let s' = update_preprocessor line (record s { previous_stack_top = top_of s.stack }) in
    let result = update_stack clean_lines linenum line s'.stack in
    (record s' { stack = result.0 }, result.1)
