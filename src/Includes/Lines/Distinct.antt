-- ===== src/Includes/Lines/Distinct.antt =====
-- Include lists in which no header is listed twice.
use netier.Base.{
  ℕ, ◌≡◌, refl, sym, ap, subst, ◌∙◌, Bool, true, false, none, List, [], ◌∷◌, ◌++◌, arith, Text,
  text_eq, elem, elem-append, text_eq_iff, append_assoc, append-nil, if◌then◌else◌,
}
use netier.IncludeState.{IncludeState, find_in, find_in_lists, clear_last, list_after}
use netier.Includes.Lines.{append_last}

abbrev names_in : List (Text × ℕ) → List Text
names_in [] = []
names_in ((h, n) ∷ hs) = h ∷ names_in hs

-- The headers that are listed
abbrev headers_in : List (List (Text × ℕ)) → List Text
headers_in [] = []
headers_in (hs ∷ lists) = names_in hs ++ headers_in lists

pub data AreDistinct : List Text → Type 0 where
  nil : AreDistinct []
  also : {x : Text} {xs : List Text} → elem x xs ≡ false → AreDistinct xs → AreDistinct (x ∷ xs)

unfoldable pub HasDistinct : List (List (Text × ℕ)) → Type 0
HasDistinct lists = AreDistinct (headers_in lists)

-- No header is listed twice.
unfoldable pub ListsOnce : IncludeState → Type 0
ListsOnce s = HasDistinct s.include_list

text_eq_sym : (a b : Text) → text_eq a b ≡ false → text_eq b a ≡ false
text_eq_sym a b h = ground (arith, text_eq_iff a b, text_eq_iff b a)

and_last :
    (xs : List Text) (x : Text) → elem x xs ≡ false → AreDistinct xs → AreDistinct (xs ++ (x ∷ []))
unfolding elem
and_last [] x e nil = also refl nil
and_last (y ∷ ys) x e (also h d) =
    let neither : (text_eq x y ≡ false) × (elem x ys ≡ false) = ground arith in
    also (ground (arith, elem-append y ys (x ∷ []), text_eq_sym x y neither.0))
      (and_last ys x neither.1 d)

of_first : (xs ys : List Text) → AreDistinct (xs ++ ys) → AreDistinct xs
of_first [] ys d = nil
of_first (x ∷ xs) ys (also h d) = also (ground (arith, elem-append x xs ys)) (of_first xs ys d)

find_in-elem :
    (h : Text) (hs : List (Text × ℕ)) → find_in h hs ≡ none → elem h (names_in hs) ≡ false
unfolding find_in elem
find_in-elem h [] e = refl
find_in-elem h ((x, n) ∷ hs) e = ground (arith, text_eq_sym x h, find_in-elem h hs)

find_in_lists-elem :
    (h : Text) (lists : List (List (Text × ℕ)))
    → find_in_lists h lists ≡ none
    → elem h (headers_in lists) ≡ false
unfolding find_in_lists elem
find_in_lists-elem h [] e = refl
find_in_lists-elem h (hs ∷ lists) e = ground (
  arith,
  elem-append h (names_in hs) (headers_in lists),
  find_in-elem h hs,
  find_in_lists-elem h lists,
)

names_in-append : (hs gs : List (Text × ℕ)) → names_in (hs ++ gs) ≡ names_in hs ++ names_in gs
names_in-append [] gs = refl
names_in-append ((h, n) ∷ hs) gs = ap (λ x. h ∷ x) (names_in-append hs gs)

append_last-headers :
    (h : Text) (n : ℕ) (gs : List (Text × ℕ)) (lists : List (List (Text × ℕ)))
    → headers_in (append_last (h, n) (gs ∷ lists)) ≡ headers_in (gs ∷ lists) ++ (h ∷ [])
unfolding append_last
append_last-headers h n gs [] = rw (
  names_in-append gs ((h, n) ∷ []),
  append-nil (names_in gs),
  append-nil (names_in gs ++ (h ∷ [])),
)
append_last-headers h n gs (hs ∷ lists) =
    ap (λ x. names_in gs ++ x) (append_last-headers h n hs lists)
    ∙ sym (append_assoc (names_in gs) (headers_in (hs ∷ lists)) (h ∷ []))

pub append_last-AreDistinct :
    (h : Text) (n : ℕ) (lists : List (List (Text × ℕ)))
    → find_in_lists h lists ≡ none
    → AreDistinct (headers_in lists)
    → AreDistinct (headers_in (append_last (h, n) lists))
unfolding append_last
append_last-AreDistinct h n [] e d = nil
append_last-AreDistinct h n (gs ∷ lists) e d =
    rw (append_last-headers h n gs lists)
      (and_last (headers_in (gs ∷ lists)) h (find_in_lists-elem h (gs ∷ lists) e) d)

clear_last-headers :
    (lists : List (List (Text × ℕ)))
    → (rest : List Text) × (headers_in lists ≡ headers_in (clear_last lists) ++ rest)
unfolding clear_last
clear_last-headers [] = ([], refl)
clear_last-headers (hs ∷ []) = (_, refl)
clear_last-headers (hs ∷ gs ∷ lists) =
    let (rest, e) = clear_last-headers (gs ∷ lists) in
    (
      rest,
      ap (λ x. names_in hs ++ x) e
          ∙ sym (append_assoc (names_in hs) (headers_in (clear_last (gs ∷ lists))) rest),
    )

headers_in-append :
    (lists : List (List (Text × ℕ))) → headers_in (lists ++ ([] ∷ [])) ≡ headers_in lists
headers_in-append [] = refl
headers_in-append (hs ∷ lists) = ap (λ x. names_in hs ++ x) (headers_in-append lists)

if-HasDistinct :
    (b : Bool) (k l : List (List (Text × ℕ)))
    → HasDistinct k
    → HasDistinct l
    → HasDistinct (if b then k else l)
if-HasDistinct true k l d d' = d
if-HasDistinct false k l d d' = d'

new_list-HasDistinct :
    (lists : List (List (Text × ℕ))) → HasDistinct lists → HasDistinct (lists ++ ([] ∷ []))
unfolding HasDistinct
new_list-HasDistinct lists d = rw (headers_in-append lists) d

clear_last-HasDistinct :
    (lists : List (List (Text × ℕ))) → HasDistinct lists → HasDistinct (clear_last lists)
unfolding HasDistinct
clear_last-HasDistinct lists d =
    let (rest, e) = clear_last-headers lists in
    of_first (headers_in (clear_last lists)) rest (subst AreDistinct e d)

pub list_after-HasDistinct :
    (directive : Text) (lists : List (List (Text × ℕ)))
    → HasDistinct lists
    → HasDistinct (list_after directive lists)
unfolding list_after
list_after-HasDistinct directive lists d =
    if-HasDistinct _ _ _ (new_list-HasDistinct lists d)
      (if-HasDistinct _ _ _ (clear_last-HasDistinct lists d) d)
