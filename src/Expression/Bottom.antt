-- ===== src/Expression/Bottom.antt =====
-- What the scan to the end keeps: the bracket at the bottom of the stack.
use netier.Base.{ℕ, ◌+◌, Bool, true, ◌&&◌, ◌||◌, [], ◌∷◌, ◌≡◌, refl, ◌⊎◌, arith, ◌==◌, Text}
use netier.Expression.Stack.{
  Stack, found, unclosed, pending, Step, next, skip, stop, is_pair, drop_top, Kind, opening,
  closing, less, greater, semicolon, plain, kind_of,
}
use netier.Expression.Forward.{
  close_top, shift_left, close_angle, end_statement, end_branch, end_step,
}

-- The bottom of the stack with this top.
abbrev pub bottom : ℕ → Stack → ℕ
bottom top [] = top
bottom top (below ∷ stack) = bottom below stack

-- Does the second character close the bracket that the first one opens?
abbrev pub closes : ℕ → ℕ → Bool
closes open_char close_char =
    is_pair open_char close_char || open_char == b'<' && close_char == b'>'

-- A stack that is not empty and has this bottom.
abbrev pub HasBottom : ℕ → Stack → Type 0
HasBottom b [] = ⊥
HasBottom b (top ∷ stack) = bottom top stack ≡ b

abbrev pub StepKeeps : ℕ → ℕ → ℕ → Step → Type 0
StepKeeps b i char (next stack) = HasBottom b stack
StepKeeps b i char (skip stack) = ⊥
StepKeeps b i char (stop (found n)) = (n ≡ i + 1) × (closes b char ≡ true)
StepKeeps b i char (stop unclosed) = Unit
StepKeeps b i char (stop (pending stack)) = ⊥

drop_top-bottom :
    (c b top : ℕ) (stack : Stack)
    → bottom top stack ≡ b
    → (drop_top c (top ∷ stack) ≡ []) ⊎ HasBottom b (drop_top c (top ∷ stack))
unfolding drop_top
drop_top-bottom c b top [] h = ground arith
drop_top-bottom c b top (below ∷ stack) h = ground (arith, drop_top-bottom c b below stack h)

close_top-keeps :
    (i char b : ℕ) (stack : Stack)
    → (stack ≡ []) ⊎ HasBottom b stack
    → StepKeeps b i char (close_top i char stack)
unfolding close_top
close_top-keeps i char b [] h = tt
close_top-keeps i char b (top ∷ []) h = ground arith
close_top-keeps i char b (top ∷ below ∷ stack) h = ground arith

shift_left-keeps :
    (i char b : ℕ) (stack : Stack) → HasBottom b stack → StepKeeps b i char (shift_left stack)
unfolding shift_left
shift_left-keeps i char b [] h = h
shift_left-keeps i char b (top ∷ []) h = ground arith
shift_left-keeps i char b (top ∷ below ∷ stack) h = ground arith

close_angle-keeps :
    (i b : ℕ) (stack : Stack) → HasBottom b stack → StepKeeps b i b'>' (close_angle i stack)
unfolding close_angle
close_angle-keeps i b [] h = h
close_angle-keeps i b (top ∷ []) h = ground arith
close_angle-keeps i b (top ∷ below ∷ stack) h = ground arith

end_statement-keeps :
    (i char b : ℕ) (stack : Stack)
    → (stack ≡ []) ⊎ HasBottom b stack
    → StepKeeps b i char (end_statement stack)
unfolding end_statement
end_statement-keeps i char b [] h = tt
end_statement-keeps i char b (top ∷ stack) h = ground arith

kind_of-greater : (char : ℕ) → kind_of char ≡ greater → char ≡ b'>'
unfolding kind_of
kind_of-greater char h = ground arith

close_angle-at :
    (i char b : ℕ) (stack : Stack)
    → char ≡ b'>'
    → HasBottom b stack
    → StepKeeps b i char (close_angle i stack)
close_angle-at i char b stack e h = rw e (close_angle-keeps i b stack h)

end_branch-keeps :
    (k : Kind) (line : Text) (i char b top : ℕ) (stack : Stack)
    → kind_of char ≡ k
    → bottom top stack ≡ b
    → StepKeeps b i char (end_branch k line i char (top ∷ stack))
unfolding end_branch
end_branch-keeps opening line i char b top stack k h = h
end_branch-keeps closing line i char b top stack k h =
    close_top-keeps i char b _ (drop_top-bottom b'<' b top stack h)
end_branch-keeps less line i char b top stack k h =
    ground (arith, shift_left-keeps i char b (top ∷ stack) h)
end_branch-keeps greater line i char b top stack k h =
    ground (arith, close_angle-at i char b (top ∷ stack) (kind_of-greater char k) h)
end_branch-keeps semicolon line i char b top stack k h =
    end_statement-keeps i char b _ (drop_top-bottom b'<' b top stack h)
end_branch-keeps plain line i char b top stack k h = h

pub end_step-keeps :
    (line : Text) (i char b top : ℕ) (stack : Stack)
    → bottom top stack ≡ b
    → StepKeeps b i char (end_step line i char (top ∷ stack))
unfolding end_step
end_step-keeps line i char b top stack h =
    end_branch-keeps (kind_of char) line i char b top stack refl h
