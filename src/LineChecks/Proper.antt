-- ===== src/LineChecks/Proper.antt =====
-- Reports with a line of the file, a known category and a confidence of at most 5.
pub mod Categories
pub mod Spacing
pub mod Operators
pub mod Braces
pub mod Events
pub mod Bodies
pub mod Macros
pub mod Style
use Categories.{IsKnown, known}
use netier.Base.{
  ℕ, ◌≤◌, ◌<◌, Bool, true, false, List, [], ◌∷◌, ◌++◌, ◌≡◌, subst, Option, none, some, arith, Text,
  elem, map, if◌then◌else◌,
}
use mathlib.Core.Option.{some-injective}
use netier.Categories.{error_categories}
use netier.Suppress.{Report}
use netier.LineChecks.Common.{report, when}

pub record IsProper (first last : ℕ) (r : Report) : Type 0 where
  pub from : first ≤ r.linenum
  pub before : r.linenum < last
  pub known : elem r.category error_categories ≡ true
  pub sure : r.confidence ≤ 5

pub data AreProper (first last : ℕ) : List Report → Type 0 where
  nil : AreProper first last []
  also :
      {r : Report} {rs : List Report}
      → IsProper first last r
      → AreProper first last rs
      → AreProper first last (r ∷ rs)

module _ {first last : ℕ} where
  pub alone : {r : Report} → IsProper first last r → AreProper first last (r ∷ [])
  alone p = also p nil

  pub AreProper-append :
      {rs qs : List Report}
      → AreProper first last rs
      → AreProper first last qs
      → AreProper first last (rs ++ qs)
  AreProper-append nil h' = h'
  AreProper-append (also p h) h' = also p (AreProper-append h h')

  pub when-AreProper :
      (b : Bool) {r : Report} → IsProper first last r → AreProper first last (when b r)
  when-AreProper true p = also p nil
  when-AreProper false p = nil

  pub if-AreProper :
      (b : Bool) {rs qs : List Report}
      → AreProper first last rs
      → AreProper first last qs
      → AreProper first last (if b then rs else qs)
  if-AreProper true h h' = h
  if-AreProper false h h' = h'

  pub if-IsProper :
      (b : Bool) {r q : Report}
      → IsProper first last r
      → IsProper first last q
      → IsProper first last (if b then r else q)
  if-IsProper true h h' = h
  if-IsProper false h h' = h'

  pub map-AreProper {ℓ} :
      {A : Type ℓ} (f : A → Report) (h : (a : A) → IsProper first last (f a)) (xs : List A)
      → AreProper first last (map f xs)
  map-AreProper f h [] = nil
  map-AreProper f h (x ∷ xs) = also (h x) (map-AreProper f h xs)

-- Reports for later lines are reports for earlier ones.
pub AreProper-from :
    {first other last : ℕ} {rs : List Report}
    → first ≤ other
    → AreProper other last rs
    → AreProper first last rs
AreProper-from h nil = nil
AreProper-from h (also p ps) =
    also (record { from = omega arith; before = p.before; known = p.known; sure = p.sure })
      (AreProper-from h ps)

-- A report for the first of the lines
pub here :
    {first last confidence : ℕ} {category message : Text}
    → IsKnown category
    → confidence ≤ 5
    → first < last
    → IsProper first last (report first category confidence message)
here k c h = record { from = omega arith; before = h; known = k; sure = c }

pub ruleset proper =
    (known, nil, alone, AreProper-append, when-AreProper, if-AreProper, if-IsProper, here)

-- What holds of the reports of a check that may raise
abbrev pub AreProperIf : ℕ → ℕ → Option (List Report) → Type 0
AreProperIf n last rs = (qs : List Report) → rs ≡ some qs → AreProper n last qs

pub known_reports :
    {n last : ℕ} {rs : List Report} → AreProper n last rs → AreProperIf n last (some rs)
known_reports {n} {last} p qs e = subst (AreProper n last) (some-injective _ _ e) p

pub if-AreProperIf :
    {n last : ℕ} (b : Bool) {rs qs : Option (List Report)}
    → AreProperIf n last rs
    → AreProperIf n last qs
    → AreProperIf n last (if b then rs else qs)
if-AreProperIf true h h' = h
if-AreProperIf false h h' = h'
