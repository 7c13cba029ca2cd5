-- ===== src/Regex/Parts.antt =====
-- The groups of `Match` for a pattern that is three groups, one behind the other.
use netier.Base.{ℕ, none, some, List, [], ◌∷◌, ◌==◌, ◌≡◌, refl, arith, Text, txt}
use mathlib.Core.Option.{some-injective}
use netier.Regex.Syntax.{Re, empty, seq, group, bol, eol}
use netier.Regex.Parse.{compile}
use netier.Regex.Run.{Place}
use netier.Regex.Run.Progress.{All, nil, also}
use netier.Regex.Run.Words.{at_last, behind}
use netier.Regex.Run.Chain.{Chain, runs-IsInThree}
pub use netier.Regex.Run.Chain.{IsInThree, StartsOutside, IsEnd}
use netier.Regex.{Found, first_found, found_at, match_re}

pub HasChain : Text → Type 0
HasChain pattern =
    (x : Re) × (y : Re) × (z : Re) × (compile pattern
      ≡ some (seq bol (seq (group 1 x) (seq (group 2 y) (seq (group 3 z) (seq eol empty))))))
    × Chain x y z

first_found-IsInThree :
    (s : Text) (start : ℕ) (ss : List Place) (m : Found)
    → All (λ t. IsInThree s t.groups t.rest) ss
    → first_found start ss ≡ some m
    → IsInThree s m.groups m.rest
unfolding first_found
first_found-IsInThree s start [] m nil e = ground arith
first_found-IsInThree s start (t ∷ ts) m (also h hs) e = rw⁻¹ (some-injective _ _ e) h

-- A match makes the text up of its groups.
pub match_re-IsInThree :
    (pattern s : Text) (m : Found)
    → HasChain pattern
    → match_re pattern s ≡ some m
    → IsInThree s m.groups m.rest
unfolding HasChain match_re found_at
match_re-IsInThree pattern s m (x, y, z, c, chain) e =
    let s0 : Place = record { pos = 0; prev = none; rest = s; groups = [] } in
    first_found-IsInThree s 0 _ m (runs-IsInThree x y z chain s0) (rw (c, match_re) at e)

pub operator_chain : HasChain (txt "^(.*\\boperator\\b)(\\S+)(\\s*\\(.*)$")
unfolding HasChain txt compile
operator_chain = (
  _,
  _,
  _,
  refl,
  record {
    word = behind _ (
        behind _ (
          behind _ (
            behind _ (
              behind _ (
                behind _ (
                  behind _
                    (behind _ (behind _ (at_last (λ c. c == b'r') (λ c h. ground arith))))))))));
    some_char = omega arith;
    first_only = (refl, refl);
    second_only = refl;
  },
)
