-- ===== src/Cleanse/Scan.antt =====
-- Lemmas on the scans over lines by number.
use netier.Base.{
  ℕ, zero, suc, ◌+◌, ◌-◌, ◌≤◌, ◌<◌, Bool, true, false, ◌&&◌, Option, none, some, List, [], ◌∷◌, ◌≡◌,
  refl, ◌⊎◌, inl, inr, arith, leb, ltb, if◌then◌else◌, Text, length, length-set, get_or, set, drop,
  Bool-cases, subst, sym, length-drop,
}
use netier.Cleanse.Comments.{first_line, blank_comment, clear_lines, or_length}

-- What `first_line` gives, by distance from its start.
abbrev pub Finds : (Text → Bool) → ℕ → List Text → Option ℕ → Type 0
Finds test i lines none = (k : ℕ) → k < length lines → test (get_or lines k []) ≡ false
Finds test i lines (some j) =
    (m : ℕ) × (j ≡ i + m)
    × (m < length lines)
    × (test (get_or lines m []) ≡ true)
    × ((k : ℕ) → k < m → test (get_or lines k []) ≡ false)

here :
    (test : Text → Bool) (line : Text) (lines : List Text) (n : ℕ)
    → test line ≡ false
    → ((k : ℕ) → k < n → test (get_or lines k []) ≡ false)
    → (k : ℕ) → k < suc n
    → test (get_or (line ∷ lines) k []) ≡ false
here test line lines n p h zero l = p
here test line lines n p h (suc k) l = h k (omega arith)

shift :
    (test : Text → Bool) (i : ℕ) (line : Text) (lines : List Text) (o : Option ℕ)
    → test line ≡ false
    → Finds test (i + 1) lines o
    → Finds test i (line ∷ lines) o
shift test i line lines none p h = here test line lines _ p h
shift test i line lines (some j) p (m, e, l, t, before) =
    (suc m, omega arith, omega arith, t, here test line lines m p before)

first_line-Finds :
    (test : Text → Bool) (i : ℕ) (lines : List Text) → Finds test i lines (first_line test i lines)
unfolding first_line
first_line-Finds test i [] = λ k h. absurd (omega arith)
first_line-Finds test i (line ∷ lines) = elim (Bool-cases (test line)) [
  | inl p ↦ rw p (0, omega arith, omega arith, p, λ k h. absurd (omega arith))
  | inr p ↦ rw p (shift test i line lines _ p (first_line-Finds test (i + 1) lines))
]

get_or-drop : (i k : ℕ) (lines : List Text) → get_or (drop i lines) k [] ≡ get_or lines (i + k) []
get_or-drop zero k lines = let e : 0 + k ≡ k = omega arith in rw e
get_or-drop (suc i) k [] = refl
get_or-drop (suc i) k (line ∷ lines) =
    let e : suc i + k ≡ suc (i + k) = omega arith in rw e (get_or-drop i k lines)

get_or-set :
    (lines : List Text) (i : ℕ) (v : Text) (j : ℕ)
    → get_or (set lines i v) j []
      ≡ (if netier.Base.◌==◌ i j && ltb j (length lines) then v else get_or lines j [])
get_or-set [] i v j = ground arith
get_or-set (x ∷ xs) zero v zero = ground arith
get_or-set (x ∷ xs) zero v (suc j) = ground arith
get_or-set (x ∷ xs) (suc i) v zero = ground arith
get_or-set (x ∷ xs) (suc i) v (suc j) = ground (arith, get_or-set xs i v j)

pub length-clear_lines :
    (n i : ℕ) (lines : List Text) → length (clear_lines n i lines) ≡ length lines
unfolding clear_lines
length-clear_lines zero i lines = refl
length-clear_lines (suc n) i lines = omega (
  arith,
  length-clear_lines n (i + 1) (set lines i blank_comment),
  length-set {0} lines i blank_comment,
)

pub get_or-clear_lines :
    (n i : ℕ) (lines : List Text) (j : ℕ)
    → get_or (clear_lines n i lines) j [] ≡ (
        if leb i j && ltb j (i + n) && ltb j (length lines)
        then blank_comment
        else get_or lines j [])
unfolding clear_lines
get_or-clear_lines zero i lines j = ground arith
get_or-clear_lines (suc n) i lines j = ground (
  arith,
  get_or-clear_lines n (i + 1) (set lines i blank_comment) j,
  get_or-set lines i blank_comment j,
  length-set {0} lines i blank_comment,
)

-- The same by line number: where the first line from `i` on that passes the test stands.
abbrev pub Located : (Text → Bool) → ℕ → List Text → Option ℕ → Type 0
Located test i lines none = (k : ℕ) → i ≤ k → k < length lines → test (get_or lines k []) ≡ false
Located test i lines (some j) =
    (i ≤ j)
    × (j < length lines)
    × (test (get_or lines j []) ≡ true)
    × ((k : ℕ) → i ≤ k → k < j → test (get_or lines k []) ≡ false)

at_distance :
    (test : Text → Bool) (i k : ℕ) (lines : List Text) {b : Bool}
    → i ≤ k
    → test (get_or (drop i lines) (k - i) []) ≡ b
    → test (get_or lines k []) ≡ b
at_distance test i k lines {b} l p =
    let e : i + (k - i) ≡ k = omega arith in
    let q = get_or-drop i (k - i) lines in
    subst (λ n. test (get_or lines n []) ≡ b) e (subst (λ t. test t ≡ b) q p)

to_lines :
    (test : Text → Bool) (i : ℕ) (lines : List Text) (o : Option ℕ)
    → Finds test i (drop i lines) o
    → Located test i lines o
to_lines test i lines none h =
    λ k l m. at_distance test i k lines l (h (k - i) (omega (arith, length-drop {0} i lines)))
to_lines test i lines (some j) (m, e, l, t, before) =
    let j' : j - i ≡ m = omega arith in
    (
      omega arith,
      omega (arith, length-drop {0} i lines),
      at_distance test i j lines (omega arith)
          (subst (λ n. test (get_or (drop i lines) n []) ≡ true) (sym j') t),
      λ k a b. at_distance test i k lines a (before (k - i) (omega arith)),
    )

pub first_line-Located :
    (test : Text → Bool) (i : ℕ) (lines : List Text)
    → Located test i lines (first_line test i (drop i lines))
first_line-Located test i lines = to_lines test i lines _ (first_line-Finds test i (drop i lines))

-- A scan that ends at the number of lines, or at a line that passes the test.
abbrev pub EndsAt : (Text → Bool) → ℕ → List Text → ℕ → Type 0
EndsAt test i lines j =
    ((j ≡ length lines) × ((k : ℕ) → i ≤ k → k < length lines → test (get_or lines k []) ≡ false))
    ⊎ ((i ≤ j)
        × (j < length lines)
        × (test (get_or lines j []) ≡ true)
        × ((k : ℕ) → i ≤ k → k < j → test (get_or lines k []) ≡ false))

scan_of :
    (test : Text → Bool) (i : ℕ) (lines : List Text) (o : Option ℕ)
    → Located test i lines o
    → EndsAt test i lines (or_length lines o)
scan_of test i lines none h = inl (refl, h)
scan_of test i lines (some j) h = inr h

pub scan-EndsAt :
    (test : Text → Bool) (i : ℕ) (lines : List Text)
    → EndsAt test i lines (or_length lines (first_line test i (drop i lines)))
scan-EndsAt test i lines = scan_of test i lines _ (first_line-Located test i lines)
