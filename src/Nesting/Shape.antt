-- ===== src/Nesting/Shape.antt =====
-- What holds of every block that `Update` makes.
use netier.Base.{
  ℕ, zero, suc, ◌≤◌, Bool, true, ◌||◌, Option, none, some, List, [], ◌∷◌, ◌≡◌, refl, inl, inr,
  arith, Text, txt, find, Bool-cases, Option-cases,
}
use netier.Regex.{match_re, group_or_empty}
use netier.Nesting.Blocks.{BlockInfo, BlockClass, new_block, new_namespace, is_namespace, is_class}
use netier.Nesting.State.{PreprocessorInfo, NestingState}
use netier.Nesting.Preprocessor.{
  Directive, starts_if, starts_else, ends_if, none_of_these, update_branch, update_else,
  update_endif, see_else, new_preprocessor_info,
}
use netier.Nesting.Update.{count_parentheses, open_namespace, push_namespace, namespace_loop}

-- A class or a namespace
abbrev pub is_head : BlockClass → Bool
is_head k = is_class k || is_namespace k

-- A block checks the indentation inside of it exactly if it is a class or a namespace, only these
-- can wait for their brace, and the block starts at line `n` or in front of it.
pub record IsShaped (n : ℕ) (b : BlockInfo) : Type 0 where
  pub indents : b.check_namespace_indentation ≡ is_head b.block_class
  pub waits : (b.seen_open_brace || is_head b.block_class) ≡ true
  pub starts : b.starting_linenum ≤ n

pub data AreShaped (n : ℕ) : List BlockInfo → Type 0 where
  nothing : AreShaped n []
  more :
      {b : BlockInfo} {bs : List BlockInfo} → IsShaped n b → AreShaped n bs → AreShaped n (b ∷ bs)

pub data AreSaved (n : ℕ) : List PreprocessorInfo → Type 0 where
  nothing : AreSaved n []
  more :
      {info : PreprocessorInfo} {infos : List PreprocessorInfo}
      → AreShaped n info.stack_before_if
      → AreShaped n info.stack_before_else
      → AreSaved n infos
      → AreSaved n (info ∷ infos)

-- The stack, and the copies of it for the preprocessor sections
pub record IsWellShaped (n : ℕ) (s : NestingState) : Type 0 where
  pub blocks : AreShaped n s.stack
  pub saved : AreSaved n s.pp_stack

module _ (n : ℕ) where
  update_else-IsWellShaped :
      (infos : List PreprocessorInfo) (s : NestingState)
      → AreSaved n infos
      → IsWellShaped n s
      → IsWellShaped n (update_else infos s)
  unfolding update_else see_else
  update_else-IsWellShaped [] s w h = h
  update_else-IsWellShaped (info ∷ infos) s (more before after w) h =
      elim (Bool-cases info.seen_else) [
        | inl e ↦ record { blocks = before; saved = rw e (more before after w) }
        | inr e ↦ record { blocks = before; saved = rw e (more before h.blocks w) }
      ]

  update_endif-IsWellShaped :
      (infos : List PreprocessorInfo) (s : NestingState)
      → AreSaved n infos
      → IsWellShaped n s
      → IsWellShaped n (update_endif infos s)
  unfolding update_endif
  update_endif-IsWellShaped [] s w h = h
  update_endif-IsWellShaped (info ∷ infos) s (more before after w) h =
      elim (Bool-cases info.seen_else) [
        | inl e ↦ record { blocks = rw e after; saved = w }
        | inr e ↦ record { blocks = rw e h.blocks; saved = w }
      ]

  pub update_branch-IsWellShaped :
      (d : Directive) (s : NestingState) → IsWellShaped n s → IsWellShaped n (update_branch d s)
  unfolding update_branch new_preprocessor_info
  update_branch-IsWellShaped starts_if s h = record {
    blocks = h.blocks;
    saved = more h.blocks nothing h.saved;
  }
  update_branch-IsWellShaped starts_else s h = update_else-IsWellShaped s.pp_stack s h.saved h
  update_branch-IsWellShaped ends_if s h = update_endif-IsWellShaped s.pp_stack s h.saved h
  update_branch-IsWellShaped none_of_these s h = h

  pub count_parentheses-AreShaped :
      (line : Text) (bs : List BlockInfo) → AreShaped n bs → AreShaped n (count_parentheses line bs)
  unfolding count_parentheses
  count_parentheses-AreShaped line [] h = nothing
  count_parentheses-AreShaped line (b ∷ bs) (more h hs) =
      more (record { indents = h.indents; waits = h.waits; starts = h.starts }) hs

  new_namespace-IsShaped : (name : Text) → IsShaped n (new_namespace name n)
  unfolding new_namespace new_block
  new_namespace-IsShaped name = record { indents = refl; waits = refl; starts = omega arith }

  open_namespace-AreShaped :
      (b : BlockInfo) (line : Text) (i : Option ℕ) (bs : List BlockInfo)
      → IsShaped n b
      → AreShaped n bs
      → AreShaped n (open_namespace b line i bs).0
  unfolding open_namespace
  open_namespace-AreShaped b line none bs h hs = more h hs
  open_namespace-AreShaped b line (some i) bs h hs =
      more (record { indents = h.indents; waits = refl; starts = h.starts }) hs

  pub namespace_loop-AreShaped :
      (fuel : ℕ) (bs : List BlockInfo) (line : Text)
      → AreShaped n bs
      → AreShaped n (namespace_loop fuel n (bs, line)).0
  unfolding namespace_loop push_namespace
  namespace_loop-AreShaped zero bs line h = h
  namespace_loop-AreShaped (suc fuel) bs line h =
      elim (Option-cases (match_re (txt "^\\s*namespace\\b\\s*([:\\w]+)?(.*)$") line)) [
        | inl e ↦ rw (e, namespace_loop) h
        | inr (m, e) ↦
            rw (e, namespace_loop)
              (namespace_loop-AreShaped fuel _ _ (
                open_namespace-AreShaped _ _ (find (group_or_empty 2 m) (txt "{")) bs
                  (new_namespace-IsShaped (group_or_empty 1 m)) h))
      ]
