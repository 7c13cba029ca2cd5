-- ===== src/Nesting/Sections.antt =====
-- The nesting across whole preprocessor sections.
use netier.Base.{ℕ, List, [], ◌∷◌, ◌++◌, ◌≡◌, refl, sym, ◌∙◌, arith, get_or, if◌then◌else◌}
use netier.Cleanse.{CleansedLines}
use netier.Nesting.Blocks.{BlockInfo}
use netier.Nesting.State.{PreprocessorInfo, NestingState}
use netier.Nesting.Preprocessor.{
  Directive, starts_if, starts_else, ends_if, none_of_these, directive_of, update_preprocessor,
  update_branch, update_else, update_endif, see_else, new_preprocessor_info,
}
use netier.Nesting.Update.{update, update_stack}

-- The calls of `Update` for a list of lines.
unfoldable pub nesting_pass : CleansedLines → List ℕ → NestingState → NestingState
nesting_pass clean_lines [] s = s
nesting_pass clean_lines (i ∷ is) s = nesting_pass clean_lines is (update clean_lines i s).0

module _ (clean_lines : CleansedLines) where
  abbrev directive : ℕ → Directive
  directive i = directive_of (get_or clean_lines.elided i [])

  mutual
    -- Lines with whole sections only
    pub data AreWhole : List ℕ → Type 0 where
      nothing : AreWhole []
      line : {i : ℕ} {is : List ℕ} → directive i ≡ none_of_these → AreWhole is → AreWhole (i ∷ is)
      section :
          (i e : ℕ) (is js ks : List ℕ)
          → directive i ≡ starts_if
          → AreWhole is
          → AreBranches js
          → directive e ≡ ends_if
          → AreWhole ks
          → AreWhole (i ∷ is ++ (js ++ (e ∷ ks)))

    -- The `#else` and `#elif` branches of a section
    pub data AreBranches : List ℕ → Type 0 where
      no_more : AreBranches []
      branch :
          (i : ℕ) (is js : List ℕ)
          → directive i ≡ starts_else
          → AreWhole is
          → AreBranches js
          → AreBranches (i ∷ is ++ js)

  nesting_pass-append :
      (is js : List ℕ) (s : NestingState)
      → nesting_pass clean_lines (is ++ js) s
        ≡ nesting_pass clean_lines js (nesting_pass clean_lines is s)
  unfolding nesting_pass
  nesting_pass-append [] js s = refl
  nesting_pass-append (i ∷ is) js s = nesting_pass-append is js (update clean_lines i s).0

  -- What the section's end will leave.
  abbrev kept : PreprocessorInfo → List BlockInfo → List BlockInfo
  kept info stack = if info.seen_else then info.stack_before_else else stack

  update-none :
      (i : ℕ) (s : NestingState)
      → directive i ≡ none_of_these
      → (update clean_lines i s).0.pp_stack ≡ s.pp_stack
  unfolding update update_preprocessor update_branch
  update-none i s h = rw h refl

  update-if :
      (i : ℕ) (s : NestingState)
      → directive i ≡ starts_if
      → (update clean_lines i s).0.pp_stack ≡ new_preprocessor_info s.stack ∷ s.pp_stack
  unfolding update update_preprocessor update_branch
  update-if i s h = rw h refl

  update-else :
      (i : ℕ) (s : NestingState) (info : PreprocessorInfo) (infos : List PreprocessorInfo)
      → directive i ≡ starts_else
      → s.pp_stack ≡ info ∷ infos
      → (update clean_lines i s).0.pp_stack ≡ see_else s.stack info ∷ infos
  unfolding update update_preprocessor update_branch update_else
  update-else i s info infos h e = rw h (rw e refl)

  update-endif :
      (i : ℕ) (s : NestingState) (info : PreprocessorInfo) (infos : List PreprocessorInfo)
      → directive i ≡ ends_if
      → s.pp_stack ≡ info ∷ infos
      → ((update clean_lines i s).0.pp_stack ≡ infos)
        × ((update clean_lines i s).0.stack
            ≡ (update_stack clean_lines i (get_or clean_lines.elided i []) (kept info s.stack)).0)
  unfolding update update_preprocessor update_branch update_endif
  update-endif i s info infos h e = rw h (rw e (refl, refl))

  -- The states in front of the branches of a section, and behind them
  abbrev after_first : ℕ → List ℕ → NestingState → NestingState
  after_first i is s = nesting_pass clean_lines is (update clean_lines i s).0

  abbrev after_branches : ℕ → List ℕ → List ℕ → NestingState → NestingState
  after_branches i is js s = nesting_pass clean_lines js (after_first i is s)

  kept-see_else :
      (stack stack' : List BlockInfo) (info : PreprocessorInfo)
      → kept (see_else stack info) stack' ≡ kept info stack
  unfolding see_else
  kept-see_else stack stack' info = ground arith

  -- The end of a section whose branches keep a stack
  finish :
      (e : ℕ) (s : NestingState) (info : PreprocessorInfo) (infos : List PreprocessorInfo)
      (stack : List BlockInfo)
      → directive e ≡ ends_if
      → s.pp_stack ≡ info ∷ infos
      → kept info s.stack ≡ stack
      → ((update clean_lines e s).0.pp_stack ≡ infos)
        × ((update clean_lines e s).0.stack
            ≡ (update_stack clean_lines e (get_or clean_lines.elided e []) stack).0)
  finish e s info infos stack h p k = rw (sym k) (update-endif e s info infos h p)

  mutual
    unfolding nesting_pass

    AreWhole-pp :
        {is : List ℕ} (w : AreWhole is) (s : NestingState)
        → (nesting_pass clean_lines is s).pp_stack ≡ s.pp_stack
    AreWhole-pp nothing s = refl
    AreWhole-pp (line {i} {is} h w) s = AreWhole-pp w (update clean_lines i s).0 ∙ update-none i s h
    AreWhole-pp (section i e is js ks h w bs h' w') s =
        let (info', p, k) =
          AreBranches-kept bs (after_first i is s) (new_preprocessor_info s.stack) s.pp_stack
            (AreWhole-pp w (update clean_lines i s).0 ∙ update-if i s h) in
        rw (nesting_pass-append is (js ++ (e ∷ ks)) (update clean_lines i s).0) (
          rw (nesting_pass-append js (e ∷ ks) (after_first i is s)) (
            AreWhole-pp w' (update clean_lines e (after_branches i is js s)).0
            ∙ (finish e (after_branches i is js s) info' s.pp_stack _ h' p k).0))

    -- The branches keep what the section's end will leave.
    AreBranches-kept :
        {js : List ℕ} (bs : AreBranches js) (s : NestingState) (info : PreprocessorInfo)
        (infos : List PreprocessorInfo)
        → s.pp_stack ≡ info ∷ infos
        → (info' : PreprocessorInfo) × ((nesting_pass clean_lines js s).pp_stack ≡ info' ∷ infos)
          × (kept info' (nesting_pass clean_lines js s).stack ≡ kept info s.stack)
    AreBranches-kept no_more s info infos e = (info, e, refl)
    AreBranches-kept (branch i is js h w bs) s info infos e =
        let (info', p, k) =
          AreBranches-kept bs (nesting_pass clean_lines is (update clean_lines i s).0)
            (see_else s.stack info) infos
            (AreWhole-pp w (update clean_lines i s).0 ∙ update-else i s info infos h e) in
        rw (nesting_pass-append is js (update clean_lines i s).0)
          (info', p, k ∙ kept-see_else s.stack _ info)

  -- A section, in whose branches every `#if` has its `#endif`, leaves the stack as if its `#else`
  -- and `#elif` branches were not there: the stack behind its first branch, with the line of the
  -- `#endif` applied. The preprocessor stack is the one before the section.
  pub section-kept :
      (i e : ℕ) (is js : List ℕ) (s : NestingState)
      → directive i ≡ starts_if
      → AreWhole is
      → AreBranches js
      → directive e ≡ ends_if
      → ((nesting_pass clean_lines (i ∷ is ++ (js ++ (e ∷ []))) s).pp_stack ≡ s.pp_stack)
        × ((nesting_pass clean_lines (i ∷ is ++ (js ++ (e ∷ []))) s).stack
            ≡ (update_stack clean_lines e
                (get_or clean_lines.elided e [])
                (nesting_pass clean_lines (i ∷ is) s).stack).0)
  unfolding nesting_pass new_preprocessor_info
  section-kept i e is js s h w bs h' =
      let (info', p, k) =
        AreBranches-kept bs (after_first i is s) (new_preprocessor_info s.stack) s.pp_stack
          (AreWhole-pp w (update clean_lines i s).0 ∙ update-if i s h) in
      rw (nesting_pass-append is (js ++ (e ∷ [])) (update clean_lines i s).0) (
        rw (nesting_pass-append js (e ∷ []) (after_first i is s))
          (finish e (after_branches i is js s) info' s.pp_stack _ h' p k))
