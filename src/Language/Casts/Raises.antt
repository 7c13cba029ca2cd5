-- ===== src/Language/Casts/Raises.antt =====
-- Where `CheckCasts` raises an IndexError.
use netier.Base.{
  ℕ, zero, suc, ◌≤◌, ◌<◌, ◌≡◌, refl, Bool, true, false, Option, none, some, List, [], ◌∷◌, arith,
  Text, length, get_elem?, Option-cases, inl, inr, ap, ◌∙◌, if◌then◌else◌,
}
use mathlib.Core.Option.{some-injective}
use netier.Regex.{Found, match_re, group_or_empty}
use netier.Regex.Groups.{cast_pattern, match_re-split}
use netier.Suppress.{Report}
use netier.Cleanse.{CleansedLines}
use netier.Expression.Stack.{Location}
use netier.Expression.Forward.{close_expression}
use netier.Expression.Moves.{PosMoves, close_expression-moves}
use netier.LineChecks.Common.{line_of}
use netier.LineChecks.Constructs.{behind}
use netier.Language.Casts.{
  bound_pattern, dereference_at, dereference_of, is_parenthesis_error, address_report,
  address_reports, casts_of, check_casts,
}

-- The type of a cast whose address is taken ends a line.
pub record EndsBehindType (c : CleansedLines) (n : ℕ) : Type 0 where
  pub cast : Found
  pub type_end : Location
  pub matched : match_re bound_pattern (line_of c.elided n) ≡ some cast
  pub closed : close_expression c n (length (group_or_empty 1 cast)) ≡ some type_end
  pub at_end : type_end.pos ≡ some (length (line_of c.elided type_end.linenum))

behind_end : (s : Text) (i : ℕ) → get_elem? s i ≡ none → length s ≤ i
behind_end [] i e = omega arith
behind_end (x ∷ s) zero e = ground arith
behind_end (x ∷ s) (suc i) e = let h = behind_end s i e in omega arith

within : (s : Text) (i : ℕ) → i < length s → get_elem? s i ≡ none → ⊥
within s i h e = let h' = behind_end s i e in omega arith

dereference_at-raises :
    (c : CleansedLines) (y1 : ℕ) (x1 : Option ℕ)
    → dereference_at c y1 x1 ≡ none
    → (x : ℕ) × (x1 ≡ some x) × (length (line_of c.elided y1) ≤ x)
unfolding dereference_at
dereference_at-raises c y1 none e = ground arith
dereference_at-raises c y1 (some x) e = elim (Option-cases (get_elem? (line_of c.elided y1) x)) [
  | inl g ↦ (x, refl, behind_end (line_of c.elided y1) x g)
  | inr (char, g) ↦ let e' = rw (g, dereference_at) at e in ground arith
]

close_expression-raises :
    (c : CleansedLines) (n pos : ℕ)
    → close_expression c n pos ≡ none
    → get_elem? (line_of c.elided n) pos ≡ none
unfolding close_expression
close_expression-raises c n pos e = elim (Option-cases (get_elem? (line_of c.elided n) pos)) [
  | inl g ↦ g
  | inr (char, g) ↦ let e' = rw (g, close_expression) at e in ground arith
]

abbrev RaisesIf : Type 0 → Option (List Report) → Type 0
RaisesIf A o = o ≡ none → A

if-RaisesIf :
    {A : Type 0} (b : Bool) {x y : Option (List Report)}
    → RaisesIf A x
    → RaisesIf A y
    → RaisesIf A (if b then x else y)
if-RaisesIf true h h' = h
if-RaisesIf false h h' = h'

some-RaisesIf : {A : Type 0} {rs : List Report} → RaisesIf A (some rs)
some-RaisesIf e = cc

behind-RaisesIf :
    {A : Type 0} (first : List Report) (rest : Option (List Report))
    → RaisesIf A rest
    → RaisesIf A (behind first rest)
behind-RaisesIf first none h = h
behind-RaisesIf first (some rest) h = some-RaisesIf

module _ (c : CleansedLines) (n : ℕ) (h : n < length c.elided) where
  ends_within :
      (line start : ℕ) (pos : Option ℕ) (x : ℕ)
      → pos ≡ some x
      → length (line_of c.elided line) ≤ x
      → PosMoves c.elided n start line pos
      → x ≡ length (line_of c.elided line)
  ends_within line start none x p q m = ground arith
  ends_within line start (some y) x p q (_, _, k, _) =
      let e : y ≡ x = some-injective _ _ p in omega arith

  at_end_of :
      (l : Location) (start : ℕ)
      → close_expression c n start ≡ some l
      → dereference_at c l.linenum l.pos ≡ none
      → l.pos ≡ some (length (line_of c.elided l.linenum))
  at_end_of l start e d =
      let (x, p, q) = dereference_at-raises c l.linenum l.pos d in
      let same : x ≡ length (line_of c.elided l.linenum) =
        ends_within l.linenum start l.pos x p q (close_expression-moves c n start l h e) in
      p ∙ ap some same

  dereference_of-raises :
      (m : Found) (l : Option Location)
      → match_re bound_pattern (line_of c.elided n) ≡ some m
      → close_expression c n (length (group_or_empty 1 m)) ≡ l
      → dereference_of c l ≡ none
      → EndsBehindType c n
  dereference_of-raises m none e f d =
      let g = close_expression-raises c n _ f in
      let k = match_re-split 1 2 1 bound_pattern _ m cast_pattern e in
      absurd (within (line_of c.elided n) _ (omega arith) g)
  dereference_of-raises m (some l) e f d = record {
    cast = m;
    type_end = l;
    matched = e;
    closed = f;
    at_end = at_end_of l _ f d;
  }

  is_parenthesis_error-raises :
      (m : Option Found)
      → match_re bound_pattern (line_of c.elided n) ≡ m
      → is_parenthesis_error c n m ≡ none
      → EndsBehindType c n
  unfolding is_parenthesis_error
  is_parenthesis_error-raises none e d = ground arith
  is_parenthesis_error-raises (some m) e d = dereference_of-raises m _ e refl d

  address_report-raises : (b : Option Bool) → address_report n b ≡ none → b ≡ none
  address_report-raises none e = refl
  address_report-raises (some true) e = ground arith
  address_report-raises (some false) e = ground arith

  address_reports-raises : RaisesIf (EndsBehindType c n) (address_reports c n)
  unfolding address_reports
  address_reports-raises =
      if-RaisesIf _ (λ e. is_parenthesis_error-raises _ refl (address_report-raises _ e))
        some-RaisesIf

  casts_of-raises :
      (line : Text) (m : Option Found) → RaisesIf (EndsBehindType c n) (casts_of c n line m)
  unfolding casts_of
  casts_of-raises line none = behind-RaisesIf _ _ address_reports-raises
  casts_of-raises line (some m) =
      if-RaisesIf _ (behind-RaisesIf _ _ address_reports-raises)
        (if-RaisesIf _ some-RaisesIf (behind-RaisesIf _ _ address_reports-raises))

-- `CheckCasts` raises an IndexError for a line of the file only where the address of a cast is
-- taken and the type of the cast, by `CloseExpression`, ends at the end of a line.
pub check_casts-raises :
    (c : CleansedLines) (n : ℕ) → n < length c.elided → check_casts c n ≡ none → EndsBehindType c n
unfolding check_casts
check_casts-raises c n h e = casts_of-raises c n h _ _ e
