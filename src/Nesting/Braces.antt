-- ===== src/Nesting/Braces.antt =====
-- The loop over the braces of a line.
use netier.Base.{
  ℕ, zero, suc, ◌+◌, ◌-◌, ◌≤◌, true, none, some, List, [], ◌∷◌, ◌++◌, ◌≡◌, refl, ◌∙◌, Bool-cases,
  sym, ap, ◌⊎◌, inl, inr, arith, Text, txt, get_or, length, append-nil, append_assoc, subst,
  if◌then◌else◌,
}
use netier.Regex.{Found, match_re, is_match, group_or_empty}
use netier.Cleanse.{CleansedLines}
use netier.Suppress.{Report}
use netier.Nesting.Blocks.{BlockInfo, new_block, new_extern_c, is_asm, block_asm, no_asm}
use netier.Nesting.Endings.{check_end, end_of}
use netier.Nesting.State.{seen_open_brace_of}
use netier.Nesting.Rounds.{brace_shorter}
use netier.Nesting.Update.{brace_loop, at_token, at_open, at_semicolon, at_close, open_brace}

-- The tokens that the loop finds on a line
pub data Tokens : Text → List ℕ → Type 0 where
  no_token : {line : Text} → match_re (txt "^[^{;)}]*([{;)}])(.*)$") line ≡ none → Tokens line []
  token :
      {line : Text} {ts : List ℕ} (m : Found) (t : ℕ)
      → match_re (txt "^[^{;)}]*([{;)}])(.*)$") line ≡ some m
      → get_or (group_or_empty 1 m) 0 0 ≡ t
      → Tokens (group_or_empty 2 m) ts
      → Tokens line (t ∷ ts)

Tokens-length : {line : Text} {ts : List ℕ} → Tokens line ts → length ts ≤ length line
Tokens-length (no_token e) = omega arith
Tokens-length (token {line} m t e g later) =
    omega (arith, Tokens-length later, brace_shorter line m e)

-- Every brace that opens is closed.
pub data IsNested : List ℕ → Type 0 where
  nothing : IsNested []
  skip : (t : ℕ) (ts : List ℕ) → (t ≡ b';') ⊎ (t ≡ b')') → IsNested ts → IsNested (t ∷ ts)
  braces : (ts us : List ℕ) → IsNested ts → IsNested us → IsNested (b'{' ∷ ts ++ (b'}' ∷ us))

module _ (clean_lines : CleansedLines) (linenum : ℕ) where
  abbrev loop : ℕ → Text → List BlockInfo → List BlockInfo × List Report
  loop fuel line bs = brace_loop fuel clean_lines linenum line bs

  -- As many rounds more as there are tokens
  abbrev rounds : List ℕ → ℕ → ℕ
  rounds [] fuel = fuel
  rounds (t ∷ ts) fuel = suc (rounds ts fuel)

  rounds-append : (ts us : List ℕ) (fuel : ℕ) → rounds (ts ++ us) fuel ≡ rounds ts (rounds us fuel)
  rounds-append [] us fuel = refl
  rounds-append (t ∷ ts) us fuel = ap suc (rounds-append ts us fuel)

  rounds_lem : (ts : List ℕ) (fuel : ℕ) → rounds ts fuel ≡ length ts + fuel
  rounds_lem [] fuel = omega arith
  rounds_lem (t ∷ ts) fuel = omega (arith, rounds_lem ts fuel)

  -- A round of the loop that makes no report
  round :
      (fuel : ℕ) (line : Text) (bs bs' : List BlockInfo) (t : ℕ) (ts : List ℕ)
      → Tokens line (t ∷ ts)
      → at_token clean_lines linenum line t bs ≡ (bs', [])
      → (line' : Text) × Tokens line' ts × (loop (suc fuel) line bs ≡ loop fuel line' bs')
  unfolding brace_loop
  round fuel line bs bs' t ts (token m _ e g later) h =
      (group_or_empty 2 m, later, rw (e, brace_loop) (rw g (rw h refl)))

  -- A block that a brace opens has seen it, and makes no report at its end.
  open_brace_lem :
      (line : Text) (bs : List BlockInfo)
      → (b : BlockInfo) × (open_brace linenum line bs ≡ b ∷ bs)
        × (b.seen_open_brace ≡ true)
        × (check_end clean_lines linenum b ≡ [])
  unfolding open_brace check_end end_of new_block new_extern_c
  open_brace_lem line bs = elim (Bool-cases (is_match (txt "^extern\\s*\"[^\"]*\"\\s*\\{") line)) [
    | inl h ↦ (new_extern_c linenum, rw h refl, refl, refl)
    | inr h ↦ (
      record (new_block linenum true) { inline_asm = if is_asm line then block_asm else no_asm },
      rw h refl,
      refl,
      refl,
    )
  ]

  at_open_lem :
      (line : Text) (bs : List BlockInfo)
      → seen_open_brace_of bs ≡ true
      → at_token clean_lines linenum line b'{' bs ≡ (open_brace linenum line bs, [])
  unfolding at_token at_open
  at_open_lem line [] h = refl
  at_open_lem line (b ∷ bs) h = rw h refl

  at_skip_lem :
      (line : Text) (t : ℕ) (bs : List BlockInfo)
      → (t ≡ b';') ⊎ (t ≡ b')')
      → seen_open_brace_of bs ≡ true
      → at_token clean_lines linenum line t bs ≡ (bs, [])
  unfolding at_token at_semicolon
  at_skip_lem line t [] (inl e) h = rw e refl
  at_skip_lem line t [] (inr e) h = rw e refl
  at_skip_lem line t (b ∷ bs) (inl e) h = rw e (rw h refl)
  at_skip_lem line t (b ∷ bs) (inr e) h = rw e (rw h refl)

  at_close_lem :
      (line : Text) (b : BlockInfo) (bs : List BlockInfo)
      → check_end clean_lines linenum b ≡ []
      → at_token clean_lines linenum line b'}' (b ∷ bs) ≡ (bs, [])
  unfolding at_token at_close
  at_close_lem line b bs h = rw h refl

  -- Nested tokens do nothing, whatever follows them.
  nested :
      {ts : List ℕ} (n : IsNested ts) (fuel : ℕ) (line : Text) (us : List ℕ) (bs : List BlockInfo)
      → Tokens line (ts ++ us)
      → seen_open_brace_of bs ≡ true
      → (line' : Text) × Tokens line' us × (loop (rounds ts fuel) line bs ≡ loop fuel line' bs)
  nested nothing fuel line us bs t h = (line, t, refl)
  nested (skip x ts e n) fuel line us bs t h =
      let (line', t', eq) =
        round (rounds ts fuel) line bs bs x (ts ++ us) t (at_skip_lem line x bs e h) in
      let (line'', t'', eq') = nested n fuel line' us bs t' h in (line'', t'', eq ∙ eq')
  nested (braces ts us' n n') fuel line us bs t h =
      let (b, opens, seen, ends) = open_brace_lem line bs in
      let (l1, t1, e1) =
        round (rounds (ts ++ (b'}' ∷ us')) fuel) line bs (b ∷ bs) b'{' ((ts ++ (b'}' ∷ us')) ++ us)
          t (at_open_lem line bs h ∙ ap (λ x. (x, [])) opens) in
      let (l2, t2, e2) =
        nested n (suc (rounds us' fuel)) l1 (b'}' ∷ (us' ++ us)) (b ∷ bs)
          (subst (Tokens l1) (append_assoc ts (b'}' ∷ us') us) t1) seen in
      let (l3, t3, e3) =
        round (rounds us' fuel) l2 (b ∷ bs) bs b'}' (us' ++ us) t2 (at_close_lem l2 b bs ends) in
      let (l4, t4, e4) = nested n' fuel l3 us bs t3 h in
      (
        l4,
        t4,
        e1 ∙ ap (λ k. loop k l1 (b ∷ bs)) (rounds-append ts (b'}' ∷ us') fuel) ∙ e2 ∙ e3 ∙ e4,
      )

  at_end :
      (fuel : ℕ) (line : Text) (bs : List BlockInfo) → Tokens line [] → loop fuel line bs ≡ (bs, [])
  unfolding brace_loop
  at_end zero line bs t = refl
  at_end (suc fuel) line bs (no_token e) = rw (e, brace_loop) refl

  enough_rounds :
      (ts : List ℕ) (line : Text) (bs : List BlockInfo) (fuel : ℕ)
      → Tokens line ts
      → IsNested ts
      → seen_open_brace_of bs ≡ true
      → length ts ≤ fuel
      → brace_loop fuel clean_lines linenum line bs ≡ (bs, [])
  enough_rounds ts line bs fuel t n h le =
      let rest = fuel - length ts in
      let (line', t', e) =
        nested n rest line [] bs (subst (Tokens line) (sym (append-nil ts)) t) h in
      ap (λ k. loop k line bs) (omega (arith, rounds_lem ts rest)) ∙ e ∙ at_end rest line' bs t'

  -- Where the block on top has its brace, or there is none, the brace loop of `Update` leaves the
  -- stack as it was, with no report, for a line whose braces are nested, whatever semicolons and
  -- closing parentheses are between them. The rounds are those that `Update` gives.
  pub brace_loop-IsNested :
      (ts : List ℕ) (line : Text) (bs : List BlockInfo)
      → Tokens line ts
      → IsNested ts
      → seen_open_brace_of bs ≡ true
      → brace_loop (length line + 1) clean_lines linenum line bs ≡ (bs, [])
  brace_loop-IsNested ts line bs t n h =
      enough_rounds ts line bs (length line + 1) t n h (omega (arith, Tokens-length t))
