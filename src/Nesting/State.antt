-- ===== src/Nesting/State.antt =====
-- The attributes of `NestingState`, its queries, and `CheckCompletedBlocks`.
use netier.Base.{
  ℕ, Bool, true, false, not, Option, none, some, List, [], ◌∷◌, ◌++◌, txt, reverse, if◌then◌else◌,
}
use netier.Suppress.{Report}
use netier.Nesting.Blocks.{
  BlockInfo, BlockClass, class_info, namespace_info, Asm, no_asm, is_namespace, is_class,
  is_extern_c,
}

-- `_PreprocessorInfo`. Stacks have their top first.
pub record PreprocessorInfo : Type 0 where
  pub stack_before_if : List BlockInfo
  pub stack_before_else : List BlockInfo
  pub seen_else : Bool

-- `previous_stack_top` is the block as it was when `Update` began. The source keeps a reference to
-- it, of which the checks read the class and the identity.
pub record NestingState : Type 0 where
  pub stack : List BlockInfo
  pub previous_stack_top : Option BlockInfo
  pub pp_stack : List PreprocessorInfo

unfoldable pub new_nesting_state : NestingState
new_nesting_state = record { stack = []; previous_stack_top = none; pp_stack = [] }

abbrev pub top_of : List BlockInfo → Option BlockInfo
top_of [] = none
top_of (b ∷ bs) = some b

-- `SeenOpenBrace`
abbrev pub seen_open_brace_of : List BlockInfo → Bool
seen_open_brace_of [] = true
seen_open_brace_of (b ∷ bs) = b.seen_open_brace

unfoldable pub in_namespace_body : List BlockInfo → Bool
in_namespace_body [] = false
in_namespace_body (b ∷ bs) = is_namespace b.block_class

unfoldable pub in_extern_c : List BlockInfo → Bool
in_extern_c [] = false
in_extern_c (b ∷ bs) = is_extern_c b.block_class

unfoldable pub in_class_declaration : List BlockInfo → Bool
in_class_declaration [] = false
in_class_declaration (b ∷ bs) = is_class b.block_class

abbrev pub is_no_asm : Asm → Bool
is_no_asm no_asm = true
is_no_asm _ = false

unfoldable pub in_asm_block : List BlockInfo → Bool
in_asm_block [] = false
in_asm_block (b ∷ bs) = not (is_no_asm b.inline_asm)

-- `InnermostClass`
unfoldable pub innermost_class : List BlockInfo → Option BlockInfo
innermost_class [] = none
innermost_class (b ∷ bs) =
    let rest = innermost_class bs in if is_class b.block_class then some b else rest

unfoldable pub completed_report : ℕ → BlockClass → List Report
completed_report start (class_info c) =
    record {
      linenum = start;
      category = txt "build/class";
      confidence = 5;
      message = txt "Failed to find complete declaration of class " ++ c.name;
    }
    ∷ []
completed_report start (namespace_info name) =
    record {
      linenum = start;
      category = txt "build/namespaces";
      confidence = 5;
      message = txt "Failed to find complete declaration of namespace " ++ name;
    }
    ∷ []
completed_report start _ = []

unfoldable pub completed_blocks : List BlockInfo → List Report
completed_blocks [] = []
completed_blocks (b ∷ bs) = completed_report b.starting_linenum b.block_class ++ completed_blocks bs

-- `CheckCompletedBlocks`, from the outermost block to the top
unfoldable pub check_completed_blocks : NestingState → List Report
check_completed_blocks s = completed_blocks (reverse s.stack)
