-- ===== src/LintState/Counts.antt =====
-- The error counters.
use netier.Base.{
  ℕ, ◌+◌, List, [], ◌∷◌, ◌≡◌, ◌≢◌, refl, arith, if◌then◌else◌, Text, text_eq, text_eq_iff, split_on,
}
use netier.LintState.{Counting, total, toplevel, detailed, first_piece, bump, count_in}

-- `errors_by_category.get(category, 0)`
abbrev pub count_for : Text → List (Text × ℕ) → ℕ
count_for category [] = 0
count_for category ((c, n) ∷ d) = if text_eq category c then n else count_for category d

abbrev pub sum_counts : List (Text × ℕ) → ℕ
sum_counts [] = 0
sum_counts ((c, n) ∷ d) = n + sum_counts d

sum_counts-bump : (c : Text) (d : List (Text × ℕ)) → sum_counts (bump c d) ≡ sum_counts d + 1
unfolding bump
sum_counts-bump c [] = omega arith
sum_counts-bump c ((e, n) ∷ d) = ground (arith, sum_counts-bump c d)

count_for-bump :
    (c e : Text) (d : List (Text × ℕ))
    → count_for c (bump e d) ≡ (if text_eq c e then count_for c d + 1 else count_for c d)
unfolding bump
count_for-bump c e [] = ground arith
count_for-bump c e ((f, n) ∷ d) =
    ground (arith, count_for-bump c e d, text_eq_iff c e, text_eq_iff e f, text_eq_iff c f)

-- The key under which a category is counted.
abbrev pub counted_as : Counting → Text → Text
counted_as toplevel category = first_piece (split_on b'/' category)
counted_as _ category = category

pub sum_counts-count_in :
    (k : Counting) (c : Text) (d : List (Text × ℕ))
    → k ≢ total
    → sum_counts (count_in k c d) ≡ sum_counts d + 1
unfolding count_in
sum_counts-count_in total c d h = absurd (h refl)
sum_counts-count_in toplevel c d h = sum_counts-bump _ d
sum_counts-count_in detailed c d h = sum_counts-bump c d

pub count_for-count_in :
    (k : Counting) (c e : Text) (d : List (Text × ℕ))
    → k ≢ total
    → count_for c (count_in k e d)
      ≡ (if text_eq c (counted_as k e) then count_for c d + 1 else count_for c d)
unfolding count_in
count_for-count_in total c e d h = absurd (h refl)
count_for-count_in toplevel c e d h = count_for-bump c _ d
count_for-count_in detailed c e d h = count_for-bump c e d
