-- ===== src/LineChecks/CheckMacros/Negation.antt =====
-- The macros that `CheckCheck` suggests for conditions that must not hold.
use netier.Base.{ℕ, ◌≡◌, refl, Bool, not, ◌==◌, leb, ltb, Text, txt, text_eq, arith, if◌then◌else◌}
use netier.LineChecks.CheckMacros.{check_replacement, name_of, comparison_names, inverse_names}

-- What an operator of C++ tests
compares : Text → ℕ → ℕ → Bool
compares operator a b =
    if text_eq operator (txt "==")
    then a == b
    else if text_eq operator (txt "!=")
    then not (a == b)
    else if text_eq operator (txt ">=")
    then leb b a
    else if text_eq operator (txt ">")
    then ltb b a
    else if text_eq operator (txt "<=")
    then leb a b
    else ltb a b

pub data Comparison : Type 0 where
  equal unequal at_least greater at_most less : Comparison

unfoldable pub operator_of : Comparison → Text
operator_of equal = txt "=="
operator_of unequal = txt "!="
operator_of at_least = txt ">="
operator_of greater = txt ">"
operator_of at_most = txt "<="
operator_of less = txt "<"

pub Negates : Text → Text → Type 0
Negates negated operator = (a b : ℕ) → compares negated a b ≡ not (compares operator a b)

unfoldable pub negated : Comparison → Comparison
negated equal = unequal
negated unequal = equal
negated at_least = less
negated greater = at_most
negated at_most = greater
negated less = at_least

negated-Negates : (o : Comparison) → Negates (operator_of (negated o)) (operator_of o)
unfolding Negates compares operator_of negated txt text_eq
negated-Negates equal a b = ground arith
negated-Negates unequal a b = ground arith
negated-Negates at_least a b = ground arith
negated-Negates greater a b = ground arith
negated-Negates at_most a b = ground arith
negated-Negates less a b = ground arith

-- For a comparison that must not hold, the suggested macro is the one for the comparison that holds
-- exactly when this one does not, whichever of the six operators it is.
pub check_replacement-negated :
    (o : Comparison)
    → (check_replacement (txt "EXPECT_FALSE") (operator_of o)
        ≡ check_replacement (txt "EXPECT_TRUE") (operator_of (negated o)))
      × (check_replacement (txt "ASSERT_FALSE") (operator_of o)
          ≡ check_replacement (txt "ASSERT_TRUE") (operator_of (negated o)))
      × Negates (operator_of (negated o)) (operator_of o)
unfolding check_replacement name_of comparison_names inverse_names operator_of negated txt text_eq
check_replacement-negated equal = (refl, refl, negated-Negates equal)
check_replacement-negated unequal = (refl, refl, negated-Negates unequal)
check_replacement-negated at_least = (refl, refl, negated-Negates at_least)
check_replacement-negated greater = (refl, refl, negated-Negates greater)
check_replacement-negated at_most = (refl, refl, negated-Negates at_most)
check_replacement-negated less = (refl, refl, negated-Negates less)
