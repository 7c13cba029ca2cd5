-- ===== src/Includes/Lines/Keeps.antt =====
-- `CheckLanguage` never lists a header twice.
use netier.Base.{
  ℕ, ◌≡◌, refl, subst, Bool, true, false, Option, none, some, List, [], ◌∷◌, arith, Text,
  if◌then◌else◌,
}
use mathlib.Core.Option.{some-injective}
use netier.Regex.{Found, group_or_empty}
use netier.LineChecks.Common.{line_of}
use netier.Cleanse.Strings.{include_match}
use netier.Suppress.{Report}
use netier.Cleanse.{CleansedLines}
use netier.IncludeState.{
  HeaderType, IncludeState, find_header, reset_section, set_last_header, move_to, too_late,
  check_next_include_order,
}
use netier.Includes.Headers.{Extensions}
use netier.Includes.Lines.{
  append_last, order_include, new_include, named_include, check_include_line, section_after,
  with_state, check_language,
}
use netier.Includes.Lines.Distinct.{
  HasDistinct, ListsOnce, append_last-AreDistinct, list_after-HasDistinct,
}

Keeps : IncludeState × List Report → Type 0
Keeps r = ListsOnce r.0

check_next-list :
    (t : HeaderType) (s : IncludeState)
    → (check_next_include_order t s).0.include_list ≡ s.include_list
unfolding check_next_include_order move_to too_late
check_next-list t s = ground arith

module _ (names : Text → Text) (x : Extensions) (filename : Text) (c : CleansedLines) (n : ℕ)
    (s : IncludeState) where
  order_include-Keeps :
      (include : Text) (is_system : Bool)
      → find_header include s ≡ none
      → ListsOnce s
      → Keeps (order_include names x filename c n include is_system s)
  unfolding order_include ListsOnce HasDistinct Keeps find_header set_last_header
  order_include-Keeps include is_system e d =
      rw (check_next-list _ (record s { include_list = append_last (include, n) s.include_list }))
        (append_last-AreDistinct include n s.include_list e d)

  same-Keeps : (rs : List Report) → ListsOnce s → Keeps (s, rs)
  unfolding Keeps
  same-Keeps rs d = d

  if-Keeps :
      (b : Bool) (r q : IncludeState × List Report) → Keeps r → Keeps q → Keeps (if b then r else q)
  if-Keeps true r q h h' = h
  if-Keeps false r q h h' = h'

  package_or-Keeps :
      (rs : List Report) (q : IncludeState × List Report)
      → ListsOnce s
      → Keeps q
      → Keeps (elim rs [ r ∷ rs ↦ (s, r ∷ rs) | [] ↦ q ])
  package_or-Keeps [] q d h = h
  package_or-Keeps (r ∷ rs) q d h = same-Keeps (r ∷ rs) d

  new_include-Keeps :
      (include : Text) (is_system : Bool)
      → find_header include s ≡ none
      → ListsOnce s
      → Keeps (new_include names x filename c n include is_system s)
  unfolding new_include
  new_include-Keeps include is_system e d =
      package_or-Keeps _ _ d
        (if-Keeps _ _ _ (order_include-Keeps include is_system e d) (same-Keeps [] d))

  duplicate_or-Keeps :
      (o : Option ℕ) (f : ℕ → List Report) (q : IncludeState × List Report)
      → ListsOnce s
      → (o ≡ none → Keeps q)
      → Keeps (elim o [ some k ↦ (s, f k) | none ↦ q ])
  duplicate_or-Keeps none f q d h = h refl
  duplicate_or-Keeps (some k) f q d h = same-Keeps (f k) d

  named_include-Keeps :
      (m : Option Found) → ListsOnce s → Keeps (named_include names x filename c n m s)
  unfolding named_include
  named_include-Keeps none d = same-Keeps [] d
  named_include-Keeps (some m) d =
      let include = group_or_empty 2 m in
      duplicate_or-Keeps (find_header include s) _ _ d (λ e. new_include-Keeps include _ e d)

  check_include_line-Keeps : ListsOnce s → Keeps (check_include_line names x filename c n s)
  unfolding check_include_line Keeps
  check_include_line-Keeps d = named_include-Keeps (include_match (line_of c.lines n)) d

  section_after-ListsOnce :
      (m : Option Found) → ListsOnce s → ListsOnce (section_after names x filename m s)
  unfolding reset_section ListsOnce
  section_after-ListsOnce none d = d
  section_after-ListsOnce (some m) d = list_after-HasDistinct _ s.include_list d

  KeepsIf : Option (IncludeState × List Report) → Type 0
  KeepsIf o = (r : IncludeState × List Report) → o ≡ some r → Keeps r

  some-KeepsIf : (r : IncludeState × List Report) → Keeps r → KeepsIf (some r)
  unfolding KeepsIf
  some-KeepsIf q k r e = subst Keeps (some-injective _ _ e) k

  with_state-KeepsIf :
      (s' : IncludeState) (o : Option (List Report))
      → ListsOnce s'
      → KeepsIf (with_state names x filename s' o)
  unfolding KeepsIf Keeps
  with_state-KeepsIf s' none d r e = ground arith
  with_state-KeepsIf s' (some rs) d r e = subst Keeps (some-injective _ _ e) d

  include_or-KeepsIf :
      (m : Option Found) (q : Option (IncludeState × List Report))
      → ListsOnce s
      → KeepsIf q
      → KeepsIf (elim m [ some m' ↦ some (check_include_line names x filename c n s) | none ↦ q ])
  include_or-KeepsIf none q d h = h
  include_or-KeepsIf (some m) q d h = some-KeepsIf _ (check_include_line-Keeps d)

  if-KeepsIf :
      (b : Bool) (o q : Option (IncludeState × List Report))
      → KeepsIf o
      → KeepsIf q
      → KeepsIf (if b then o else q)
  if-KeepsIf true o q h h' = h
  if-KeepsIf false o q h h' = h'

  check_language-KeepsIf :
      (extension : Text) → ListsOnce s → KeepsIf (check_language names x filename extension c n s)
  unfolding check_language
  check_language-KeepsIf extension d =
      if-KeepsIf _ _ _ (some-KeepsIf _ (same-Keeps [] d))
        (include_or-KeepsIf _ _ d (with_state-KeepsIf _ _ (section_after-ListsOnce _ d)))

-- `CheckLanguage` keeps the invariant that no header is listed twice.
pub check_language-ListsOnce :
    (names : Text → Text) (x : Extensions) (filename extension : Text) (c : CleansedLines) (n : ℕ)
    (s next : IncludeState) (rs : List Report)
    → ListsOnce s
    → check_language names x filename extension c n s ≡ some (next, rs)
    → ListsOnce next
unfolding KeepsIf Keeps
check_language-ListsOnce names x filename extension c n s next rs d e =
    check_language-KeepsIf names x filename c n s extension d (next, rs) e
