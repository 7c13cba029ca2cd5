-- ===== src/Nesting/Invariant.antt =====
-- `Update` keeps the stacks well shaped.
use netier.Base.{
  ℕ, zero, suc, ◌+◌, ◌≤◌, Bool, true, false, not, ◌&&◌, ◌||◌, Option, none, some, List, [], ◌∷◌,
  ◌≡◌, refl, inl, inr, arith, Text, txt, get_or, length, if◌then◌else◌, Bool-cases, Option-cases,
  ◌==◌,
}
use netier.Regex.{Found, match_re, is_match, group_or_empty}
use netier.Cleanse.{CleansedLines}
use netier.Nesting.Blocks.{
  BlockInfo, BlockClass, generic, extern_c, class_info, namespace_info, new_block, new_extern_c,
  new_class, Asm, is_asm, block_asm, no_asm,
}
use netier.Nesting.Endings.{check_begin, begin_class}
use netier.Nesting.State.{NestingState, top_of}
use netier.Nesting.Preprocessor.{directive_of, update_preprocessor}
use netier.Nesting.Template.{in_template_argument_list}
use netier.Nesting.Update.{
  push_class, no_open_parentheses, begin_top, block_access, update_access, open_brace, at_open,
  at_semicolon, at_close, at_token, brace_loop, update_heads, update_stack, update,
}
use netier.Nesting.Shape.{
  IsShaped, AreShaped, more, IsWellShaped, is_head, update_branch-IsWellShaped,
  count_parentheses-AreShaped, namespace_loop-AreShaped,
}

module _ (clean_lines : CleansedLines) (n : ℕ) where
  if-AreShaped :
      (c : Bool) (xs ys : List BlockInfo)
      → AreShaped n xs
      → AreShaped n ys
      → AreShaped n (if c then xs else ys)
  if-AreShaped true xs ys h h' = h
  if-AreShaped false xs ys h h' = h'

  ≤-refl : (m : ℕ) → m ≤ m
  ≤-refl m = omega arith

  new_class-IsShaped : (name kind : Text) → IsShaped n (new_class name kind clean_lines n)
  unfolding new_class new_block
  new_class-IsShaped name kind = record { indents = refl; waits = refl; starts = omega arith }

  push_class-AreShaped :
      (bs : List BlockInfo) (line : Text) (m : Option Found)
      → AreShaped n bs
      → AreShaped n (push_class clean_lines n (bs, line) m).0
  unfolding push_class
  push_class-AreShaped bs line none h = h
  push_class-AreShaped bs line (some m) h =
      elim (Bool-cases (
        no_open_parentheses bs
        && not (in_template_argument_list clean_lines n (length (group_or_empty 1 m))))) [
          | inl e ↦ rw e (more (new_class-IsShaped (group_or_empty 3 m) (group_or_empty 2 m)) h)
          | inr e ↦ rw e h
        ]

  begin_class-is_head : (line : Text) (k : BlockClass) → is_head (begin_class line k) ≡ is_head k
  unfolding begin_class
  begin_class-is_head line generic = refl
  begin_class-is_head line extern_c = refl
  begin_class-is_head line (class_info c) = refl
  begin_class-is_head line (namespace_info name) = refl

  begin_top-AreShaped :
      (line : Text) (bs : List BlockInfo) → AreShaped n bs → AreShaped n (begin_top line bs)
  unfolding begin_top check_begin
  begin_top-AreShaped line [] h = h
  begin_top-AreShaped line (b ∷ bs) (more h hs) = if-AreShaped b.seen_open_brace _ _ (more h hs) (
      more
        (record {
          indents = rw (begin_class-is_head line b.block_class) h.indents;
          waits = rw (begin_class-is_head line b.block_class) h.waits;
          starts = h.starts;
        })
        hs)

  block_access-is_head :
      (line : Text) (k : BlockClass) → is_head (block_access line n k).0 ≡ is_head k
  unfolding block_access
  block_access-is_head line generic = refl
  block_access-is_head line extern_c = refl
  block_access-is_head line (class_info c) = refl
  block_access-is_head line (namespace_info name) = refl

  update_access-AreShaped :
      (line : Text) (bs : List BlockInfo) → AreShaped n bs → AreShaped n (update_access line n bs).0
  unfolding update_access
  update_access-AreShaped line [] h = h
  update_access-AreShaped line (b ∷ bs) (more h hs) =
      more
        (record {
          indents = rw (block_access-is_head line b.block_class) h.indents;
          waits = rw (block_access-is_head line b.block_class) h.waits;
          starts = h.starts;
        })
        hs

  new_extern_c-IsShaped : IsShaped n (new_extern_c n)
  unfolding new_extern_c new_block
  new_extern_c-IsShaped = record { indents = refl; waits = refl; starts = ≤-refl n }

  new_block-IsShaped : (asm : Asm) → IsShaped n (record (new_block n true) { inline_asm = asm })
  unfolding new_block
  new_block-IsShaped asm = record { indents = refl; waits = refl; starts = ≤-refl n }

  open_brace-AreShaped :
      (line : Text) (bs : List BlockInfo) → AreShaped n bs → AreShaped n (open_brace n line bs)
  unfolding open_brace
  open_brace-AreShaped line bs h =
      if-AreShaped (is_match (txt "^extern\\s*\"[^\"]*\"\\s*\\{") line) _ _
        (more new_extern_c-IsShaped h)
        (more (new_block-IsShaped (if is_asm line then block_asm else no_asm)) h)

  at_open-AreShaped :
      (line : Text) (bs : List BlockInfo) → AreShaped n bs → AreShaped n (at_open n line bs)
  unfolding at_open
  at_open-AreShaped line [] h = open_brace-AreShaped line [] h
  at_open-AreShaped line (b ∷ bs) (more h hs) =
      if-AreShaped b.seen_open_brace _ _ (open_brace-AreShaped line (b ∷ bs) (more h hs))
        (more (record { indents = h.indents; waits = refl; starts = h.starts }) hs)

  at_semicolon-AreShaped : (bs : List BlockInfo) → AreShaped n bs → AreShaped n (at_semicolon bs)
  unfolding at_semicolon
  at_semicolon-AreShaped [] h = h
  at_semicolon-AreShaped (b ∷ bs) (more h hs) = if-AreShaped b.seen_open_brace _ _ (more h hs) hs

  at_close-AreShaped :
      (bs : List BlockInfo) → AreShaped n bs → AreShaped n (at_close clean_lines n bs).0
  unfolding at_close
  at_close-AreShaped [] h = h
  at_close-AreShaped (b ∷ bs) (more h hs) = hs

  at_token-AreShaped :
      (line : Text) (token : ℕ) (bs : List BlockInfo)
      → AreShaped n bs
      → AreShaped n (at_token clean_lines n line token bs).0
  unfolding at_token
  at_token-AreShaped line token bs h = elim (Bool-cases (token == b'{')) [
    | inl e ↦ rw e (at_open-AreShaped line bs h)
    | inr e ↦ rw e (elim (Bool-cases (token == b';' || token == b')')) [
      | inl e' ↦ rw e' (at_semicolon-AreShaped bs h)
      | inr e' ↦ rw e' (at_close-AreShaped bs h)
    ])
  ]

  brace_loop-AreShaped :
      (fuel : ℕ) (line : Text) (bs : List BlockInfo)
      → AreShaped n bs
      → AreShaped n (brace_loop fuel clean_lines n line bs).0
  unfolding brace_loop
  brace_loop-AreShaped zero line bs h = h
  brace_loop-AreShaped (suc fuel) line bs h =
      elim (Option-cases (match_re (txt "^[^{;)}]*([{;)}])(.*)$") line)) [
        | inl e ↦ rw (e, brace_loop) h
        | inr (m, e) ↦
            rw (e, brace_loop)
              (brace_loop-AreShaped fuel (group_or_empty 2 m) _
                (at_token-AreShaped line (get_or (group_or_empty 1 m) 0 0) bs h))
      ]

  update_stack-AreShaped :
      (line : Text) (bs : List BlockInfo)
      → AreShaped n bs
      → AreShaped n (update_stack clean_lines n line bs).0
  unfolding update_stack update_heads
  update_stack-AreShaped line bs h = brace_loop-AreShaped _ _ _ (
      update_access-AreShaped _ _ (
        begin_top-AreShaped line _ (
          push_class-AreShaped _ _ _ (
            namespace_loop-AreShaped n (length line + 1) _ line
              (count_parentheses-AreShaped n line bs h)))))

  -- `Update` keeps the shape: only a class or a namespace can wait for its brace, exactly these
  -- check the indentation inside of them, and no block on the stack, or on a copy of it for a
  -- preprocessor section, starts behind the line.
  pub update-IsWellShaped :
      (s : NestingState) → IsWellShaped n s → IsWellShaped n (update clean_lines n s).0
  unfolding update update_preprocessor
  update-IsWellShaped s h =
      let line = get_or clean_lines.elided n [] in
      let h' =
        update_branch-IsWellShaped n (directive_of line)
          (record s { previous_stack_top = top_of s.stack })
          (record { blocks = h.blocks; saved = h.saved }) in
      record { blocks = update_stack-AreShaped line _ h'.blocks; saved = h'.saved }
