-- ===== src/LineChecks/Constructs/Arguments.antt =====
-- The arguments of a constructor, with those that go on behind a comma put together.
use netier.Base.{
  ◌≡◌, refl, ◌∙◌, ap, inl, inr, false, Option, none, some, List, [], ◌∷◌, ◌++◌, Text, join,
  join-merge, join-split_on, ◌≤◌, txt, count_text, arith, Bool-cases, subst,
}
use mathlib.Core.Option.{some-injective}
use netier.LineChecks.Constructs.{
  is_unbalanced, with_first, collapse_from, collapse_args, constructor_args,
}

-- No more of the opening brackets than of the closing ones
abbrev pub ClosesAll : Text → Type 0
ClosesAll arg =
    (count_text arg (txt "<") ≤ count_text arg (txt ">"))
    × (count_text arg (txt "(") ≤ count_text arg (txt ")"))

abbrev pub AllClose : List Text → Type 0
AllClose [] = Unit {0}
AllClose (arg ∷ args) = ClosesAll arg × AllClose args

is_unbalanced-ClosesAll : (arg : Text) → is_unbalanced arg ≡ false → ClosesAll arg
unfolding is_unbalanced
is_unbalanced-ClosesAll arg h = ground arith

-- The arguments close their brackets, and make up the same text; the first of them is there.
abbrev Keeps : Text → List Text → Type 0
Keeps text args =
    (first : Text) × (others : List Text) × (args ≡ first ∷ others)
    × (join b',' args ≡ text)
    × AllClose args

with_first-Keeps :
    (arg : Text) (text : Text) (o : Option (List Text)) (result : List Text)
    → is_unbalanced arg ≡ false
    → ((r : List Text) → o ≡ some r → Keeps text r)
    → with_first arg o ≡ some result
    → Keeps (arg ++ (b',' ∷ text)) result
unfolding join
with_first-Keeps arg text none result b h e = ground arith
with_first-Keeps arg text (some r) result b h e =
    let (first, others, split, whole, balanced) = h r refl in
    subst (Keeps (arg ++ (b',' ∷ text))) (some-injective _ _ e) (
      arg,
      r,
      refl,
      rw (split, join) (ap (λ t. arg ++ (b',' ∷ t)) (rw split at whole)),
      (is_unbalanced-ClosesAll arg b, balanced),
    )

collapse_from-Keeps :
    (arg : Text) (args result : List Text)
    → collapse_from arg args ≡ some result
    → Keeps (join b',' (arg ∷ args)) result
unfolding collapse_from join
collapse_from-Keeps arg [] result e = elim (Bool-cases (is_unbalanced arg)) [
  | inl b ↦ let e' = rw (b, collapse_from) at e in ground arith
  | inr b ↦
      subst (Keeps arg) (some-injective _ _ (rw (b, collapse_from) at e))
        (arg, [], refl, refl, (is_unbalanced-ClosesAll arg b, tt))
]
collapse_from-Keeps arg (next ∷ rest) result e = elim (Bool-cases (is_unbalanced arg)) [
  | inl b ↦
      subst (λ t. Keeps t result) (join-merge b',' arg next rest)
        (collapse_from-Keeps (arg ++ (b',' ∷ next)) rest result (rw (b, collapse_from) at e))
  | inr b ↦
      with_first-Keeps arg (join b',' (next ∷ rest)) _ result b
        (λ r. collapse_from-Keeps next rest r) (rw (b, collapse_from) at e)
]

collapse_args-Keeps :
    (args result : List Text)
    → collapse_args args ≡ some result
    → (join b',' result ≡ join b',' args) × AllClose result
unfolding collapse_args
collapse_args-Keeps [] result e =
    subst (λ r. (join b',' r ≡ join b',' []) × AllClose r) (some-injective _ _ e) (refl, tt)
collapse_args-Keeps (arg ∷ args) result e =
    let (_, _, _, whole, balanced) = collapse_from-Keeps arg args result e in (whole, balanced)

constructor_args-join : (text : Text) → join b',' (constructor_args text) ≡ text
unfolding constructor_args join
constructor_args-join [] = refl
constructor_args-join (c ∷ s) = join-split_on b',' (c ∷ s)

-- When the arguments of a constructor are put together, none is lost or changed: joined by commas
-- they are the text between the parentheses again, and none of them has more `<` than `>` or more `(`
-- than `)`.
pub collapse_args-join :
    (text : Text) (args : List Text)
    → collapse_args (constructor_args text) ≡ some args
    → (join b',' args ≡ text) × AllClose args
collapse_args-join text args e =
    let (whole, balanced) = collapse_args-Keeps (constructor_args text) args e in
    (whole ∙ constructor_args-join text, balanced)
