-- ===== src/Nesting/Rounds.antt =====
-- The rounds of the loops of `Update` over one line.
use netier.Base.{
  ℕ, zero, suc, ◌+◌, ◌≤◌, Option, none, some, List, [], ◌++◌, ◌≡◌, refl, sym, ap, inl, inr, arith,
  Text, txt, get_or, find, length, length-drop, Option-cases,
}
use netier.Regex.{Found, match_re, group_or_empty}
use netier.Regex.Groups.{match_re-late, brace_pattern, namespace_pattern}
use netier.Cleanse.{CleansedLines}
use netier.Nesting.Blocks.{BlockInfo, new_namespace}
use netier.Nesting.Update.{at_token, brace_loop, namespace_loop, push_namespace, open_namespace}

pub brace_shorter :
    (line : Text) (m : Found)
    → match_re (txt "^[^{;)}]*([{;)}])(.*)$") line ≡ some m
    → suc (length (group_or_empty 2 m)) ≤ length line
brace_shorter line m e = match_re-late 2 _ line m brace_pattern e

open_namespace-shorter :
    (b : BlockInfo) (line : Text) (i : Option ℕ) (bs : List BlockInfo)
    → length (open_namespace b line i bs).1 ≤ length line
unfolding open_namespace
open_namespace-shorter b line none bs = omega arith
open_namespace-shorter b line (some i) bs = omega (arith, length-drop {0} (i + 1) line)

push_namespace-shorter :
    (linenum : ℕ) (line : Text) (m : Found) (bs : List BlockInfo)
    → match_re (txt "^\\s*namespace\\b\\s*([:\\w]+)?(.*)$") line ≡ some m
    → suc (length (push_namespace linenum m bs).1) ≤ length line
unfolding push_namespace
push_namespace-shorter linenum line m bs e =
    let h = match_re-late 2 _ line m namespace_pattern e in
    let rest = group_or_empty 2 m in
    omega (
      arith,
      open_namespace-shorter (new_namespace (group_or_empty 1 m) linenum) rest (find rest (txt "{"))
          bs,
      h,
    )

namespace_loop-nothing :
    (linenum fuel : ℕ) (bs : List BlockInfo) (line : Text)
    → length line ≤ 0
    → namespace_loop fuel linenum (bs, line) ≡ (bs, line)
unfolding namespace_loop
namespace_loop-nothing linenum zero bs line h = refl
namespace_loop-nothing linenum (suc fuel) bs line h =
    elim (Option-cases (match_re (txt "^\\s*namespace\\b\\s*([:\\w]+)?(.*)$") line)) [
      | inl e ↦ rw (e, namespace_loop) refl
      | inr (m, e) ↦ absurd (omega (arith, match_re-late 2 _ line m namespace_pattern e))
    ]

-- The loop over the namespaces at the start of a line ends in at most as many rounds as the line
-- has characters: with more of them the stack and the rest of the line are the same.
pub namespace_loop-enough :
    (linenum fuel fuel' : ℕ) (bs : List BlockInfo) (line : Text)
    → length line ≤ fuel
    → length line ≤ fuel'
    → namespace_loop fuel linenum (bs, line) ≡ namespace_loop fuel' linenum (bs, line)
unfolding namespace_loop
namespace_loop-enough linenum zero fuel' bs line h h' =
    sym (namespace_loop-nothing linenum fuel' bs line h)
namespace_loop-enough linenum (suc fuel) zero bs line h h' =
    namespace_loop-nothing linenum (suc fuel) bs line h'
namespace_loop-enough linenum (suc fuel) (suc fuel') bs line h h' =
    elim (Option-cases (match_re (txt "^\\s*namespace\\b\\s*([:\\w]+)?(.*)$") line)) [
      | inl e ↦ rw (e, namespace_loop) refl
      | inr (m, e) ↦
          let shorter = push_namespace-shorter linenum line m bs e in
          rw (e, namespace_loop)
            (namespace_loop-enough linenum fuel fuel' (push_namespace linenum m bs).0
              (push_namespace linenum m bs).1 (omega arith) (omega arith))
    ]

module _ (clean_lines : CleansedLines) (linenum : ℕ) where
  brace_loop-nothing :
      (fuel : ℕ) (line : Text) (bs : List BlockInfo)
      → length line ≤ 0
      → brace_loop fuel clean_lines linenum line bs ≡ (bs, [])
  unfolding brace_loop
  brace_loop-nothing zero line bs h = refl
  brace_loop-nothing (suc fuel) line bs h =
      elim (Option-cases (match_re (txt "^[^{;)}]*([{;)}])(.*)$") line)) [
        | inl e ↦ rw (e, brace_loop) refl
        | inr (m, e) ↦ absurd (omega (arith, brace_shorter line m e))
      ]

  -- The loop over the braces of a line ends in at most as many rounds as the line has characters:
  -- with more of them the stack and the reports are the same.
  pub brace_loop-enough :
      (fuel fuel' : ℕ) (line : Text) (bs : List BlockInfo)
      → length line ≤ fuel
      → length line ≤ fuel'
      → brace_loop fuel clean_lines linenum line bs ≡ brace_loop fuel' clean_lines linenum line bs
  unfolding brace_loop
  brace_loop-enough zero fuel' line bs h h' = sym (brace_loop-nothing fuel' line bs h)
  brace_loop-enough (suc fuel) zero line bs h h' = brace_loop-nothing (suc fuel) line bs h'
  brace_loop-enough (suc fuel) (suc fuel') line bs h h' =
      elim (Option-cases (match_re (txt "^[^{;)}]*([{;)}])(.*)$") line)) [
        | inl e ↦ rw (e, brace_loop) refl
        | inr (m, e) ↦
            let shorter = brace_shorter line m e in
            let now = at_token clean_lines linenum line (get_or (group_or_empty 1 m) 0 0) bs in
            rw (e, brace_loop)
              (ap (λ later. (later.0, now.1 ++ later.1))
                (brace_loop-enough fuel fuel' (group_or_empty 2 m) now.0 (omega arith)
                  (omega arith)))
      ]
