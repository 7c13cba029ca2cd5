-- ===== src/Includes/Paths/Absolute.antt =====
-- Paths that begin with a slash.
use netier.Base.{
  ℕ, suc, ◌+◌, ◌≡◌, ◌⊎◌, inl, inr, refl, sym, ap, subst, ◌∙◌, Bool, true, false, ◌==◌, some, [],
  ◌∷◌, ◌++◌, arith, Text, txt, take, reverse, starts_with, replace, replace-kept, Bool-cases,
  if◌then◌else◌,
}
use mathlib.Core.List.{reverse-reverse, reverse-cons}
use netier.LineChecks.Common.{rfind, rfind_from}
use netier.Includes.Paths.{
  name_start, drop_slashes, trim_head, dirname, join_paths, leading_slashes, or_dot, normpath,
}
use netier.Includes.Paths.Prefix.{IsPrefix, trimmed-prefix}

unfoldable pub IsAbsolute : Text → Type 0
IsAbsolute p = (rest : Text) × (p ≡ b'/' ∷ rest)

starts_with-IsAbsolute : (p : Text) → starts_with p (txt "/") ≡ true → IsAbsolute p
unfolding IsAbsolute starts_with txt
starts_with-IsAbsolute [] h = ground arith
starts_with-IsAbsolute (c ∷ p) h = (p, let e : c ≡ b'/' = ground arith in rw e)

if-IsAbsolute :
    (b : Bool) (p q : Text)
    → (b ≡ true → IsAbsolute p)
    → IsAbsolute q
    → IsAbsolute (if b then p else q)
if-IsAbsolute true p q h h' = h refl
if-IsAbsolute false p q h h' = h'

either-IsAbsolute :
    (b : Bool) (p q : Text) → IsAbsolute p → IsAbsolute q → IsAbsolute (if b then p else q)
either-IsAbsolute b p q h h' = if-IsAbsolute b p q (λ _. h) h'

append-IsAbsolute : (p q : Text) → IsAbsolute p → IsAbsolute (p ++ q)
unfolding IsAbsolute
append-IsAbsolute p q (rest, e) = (rest ++ q, rw e)

pub join_paths-IsAbsolute : (a b : Text) → IsAbsolute a → IsAbsolute (join_paths a b)
unfolding join_paths
join_paths-IsAbsolute a b h = if-IsAbsolute _ b _ (starts_with-IsAbsolute b) (
    either-IsAbsolute _ (a ++ b) (a ++ (b'/' ∷ b)) (append-IsAbsolute a b h)
      (append-IsAbsolute a (b'/' ∷ b) h))

or_dot-IsAbsolute : (p : Text) → IsAbsolute p → IsAbsolute (or_dot p)
unfolding IsAbsolute
or_dot-IsAbsolute [] (rest, e) = ground arith
or_dot-IsAbsolute (c ∷ p) h = h

slash-IsAbsolute : (s : Text) → IsAbsolute (b'/' ∷ s)
unfolding IsAbsolute
slash-IsAbsolute s = (s, refl)

leading_slashes-IsAbsolute : (s : Text) → IsAbsolute (leading_slashes (b'/' ∷ s))
unfolding leading_slashes txt starts_with
leading_slashes-IsAbsolute s =
    either-IsAbsolute _ (b'/' ∷ b'/' ∷ []) (b'/' ∷ []) (slash-IsAbsolute _) (slash-IsAbsolute _)

pub normpath-IsAbsolute : (p : Text) → IsAbsolute p → IsAbsolute (normpath p)
unfolding normpath IsAbsolute
normpath-IsAbsolute p (rest, e) = or_dot-IsAbsolute _ (
    append-IsAbsolute (leading_slashes p) _
      (subst (λ q. IsAbsolute (leading_slashes q)) (sym e) (leading_slashes-IsAbsolute rest)))

pub replace-IsAbsolute : (p : Text) → IsAbsolute p → IsAbsolute (replace p (txt "\\") (txt "/"))
unfolding IsAbsolute txt
replace-IsAbsolute p (rest, e) = rw e (replace-kept b'/' b'\\' [] (b'/' ∷ []) rest refl)

rfind_from-some : (c i k : ℕ) (s : Text) → (j : ℕ) × (rfind_from c i s (some k) ≡ some j)
unfolding rfind_from
rfind_from-some c i k [] = (k, refl)
rfind_from-some c i k (d ∷ s) = elim (Bool-cases (d == c)) [
  | inl e ↦ rw (e, rfind_from) (rfind_from-some c (i + 1) i s)
  | inr e ↦ rw (e, rfind_from) (rfind_from-some c (i + 1) k s)
]

name_start-slash : (s : Text) → (i : ℕ) × (name_start (b'/' ∷ s) ≡ suc i)
unfolding name_start rfind rfind_from
name_start-slash s =
    let (j, e) = rfind_from-some b'/' 1 0 s in (j, rw (e, name_start) (omega arith))

data AllSlashes : Text → Type 0 where
  no_more : AllSlashes []
  slash : {c : ℕ} {s : Text} → (c == b'/') ≡ true → AllSlashes s → AllSlashes (c ∷ s)

drop_slashes-all : (s : Text) → AllSlashes s → drop_slashes s ≡ []
unfolding drop_slashes
drop_slashes-all [] no_more = refl
drop_slashes-all (c ∷ s) (slash e a) = rw e (drop_slashes-all s a)

all_dropped : (s : Text) → drop_slashes s ≡ [] → AllSlashes s
unfolding drop_slashes
all_dropped [] h = no_more
all_dropped (c ∷ s) h = elim (Bool-cases (c == b'/')) [
  | inl e ↦ slash e (all_dropped s (rw (e, drop_slashes) at h))
  | inr e ↦ let h' = rw (e, drop_slashes) at h in ground arith
]

AllSlashes-append : (s t : Text) → AllSlashes s → AllSlashes t → AllSlashes (s ++ t)
AllSlashes-append [] t no_more h = h
AllSlashes-append (c ∷ s) t (slash e a) h = slash e (AllSlashes-append s t a h)

AllSlashes-reverse : (s : Text) → AllSlashes s → AllSlashes (reverse s)
AllSlashes-reverse [] no_more = no_more
AllSlashes-reverse (c ∷ s) (slash e a) =
    rw (reverse-cons c s)
      (AllSlashes-append (reverse s) (c ∷ []) (AllSlashes-reverse s a) (slash e no_more))

trimmed_empty : (s : Text) → reverse (drop_slashes (reverse s)) ≡ [] → drop_slashes s ≡ []
trimmed_empty s h =
    let e : drop_slashes (reverse s) ≡ [] =
      sym (reverse-reverse (drop_slashes (reverse s))) ∙ ap reverse h in
    let a = AllSlashes-reverse (reverse s) (all_dropped (reverse s) e) in
    drop_slashes-all s (rw (reverse-reverse s) at a)

prefix-IsAbsolute : (s t : Text) → IsPrefix s t → IsAbsolute t → (s ≡ []) ⊎ IsAbsolute s
unfolding IsAbsolute
prefix-IsAbsolute [] t h a = inl refl
prefix-IsAbsolute (c ∷ s) t (more, e) (rest, f) =
    let same : c ∷ (s ++ more) ≡ b'/' ∷ rest = sym e ∙ f in
    let first : c ≡ b'/' = ground arith in inr (s, rw first)

trim_head-IsAbsolute : (s : Text) → IsAbsolute s → IsAbsolute (trim_head s)
unfolding trim_head
trim_head-IsAbsolute s h = elim (prefix-IsAbsolute _ s (trimmed-prefix s) h) [
  | inl e ↦ rw (trimmed_empty s e, trim_head) h
  | inr a ↦ either-IsAbsolute _ s (reverse (drop_slashes (reverse s))) h a
]

pub dirname-IsAbsolute : (p : Text) → IsAbsolute p → IsAbsolute (dirname p)
unfolding dirname IsAbsolute
dirname-IsAbsolute p (rest, e) =
    let (i, n) = name_start-slash rest in
    rw (e, n) (trim_head-IsAbsolute (b'/' ∷ take i rest) (slash-IsAbsolute _))
