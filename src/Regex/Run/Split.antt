-- ===== src/Regex/Run/Split.antt =====
-- Two groups of a match that stand one behind the other.
use netier.Base.{
  ℕ, ◌+◌, ◌-◌, ◌≤◌, true, false, ◌||◌, List, ◌≡◌, refl, ap, arith, length, length-take, ◌==◌,
}
use netier.Regex.Syntax.{Re, seq, group}
use netier.Regex.Run.{Place, runs, record_group}
use netier.Regex.Run.Progress.{
  All, nil, also, All-flat_map, All-map, All-imp, runs-Reaches, is_late, min_chars, text_of,
}
use netier.Regex.Run.Steady.{records, runs-IsSteady}

pub both : {P Q : Place → Type 0} {xs : List Place} → All P xs → All Q xs → All (λ s. P s × Q s) xs
both nil nil = nil
both (also p h) (also q h') = also (p, q) (both h h')

pub is_late-zero : (n : ℕ) (r : Re) → is_late n 0 r ≡ true
is_late-zero n (seq a b) = ground (arith, is_late-zero n a, is_late-zero n b)
is_late-zero n (netier.Regex.Syntax.alt a b) = ground (arith, is_late-zero n a, is_late-zero n b)
is_late-zero n (netier.Regex.Syntax.rep greedy lo hi r) = is_late-zero n r
is_late-zero n (group m r) = ground (arith, is_late-zero n r)
is_late-zero n _ = refl

-- The group `m`, recorded between two places
record_group-length :
    (m : ℕ) (s t : Place)
    → t.pos + length t.rest ≡ s.pos + length s.rest
    → length t.rest ≤ length s.rest
    → length (text_of m (record_group m s t).groups) + length t.rest ≡ length s.rest
unfolding record_group
record_group-length m s t e h = ground (arith, length-take (t.pos - s.pos) s.rest)

record_group-other :
    (m n : ℕ) (s t : Place)
    → (n == m) ≡ false
    → text_of n (record_group m s t).groups ≡ text_of n t.groups
unfolding record_group
record_group-other m n s t e = rw (e, text_of) refl

-- The pattern is `a`, the group `m` of `b`, and `c`, in which the group `n` begins behind `k`
-- characters.
pub record Split (m n k : ℕ) (a b c : Re) : Type 0 where
  pub m_only : (records m b || records m c) ≡ false
  pub n_only : (records n a || records n b || n == m) ≡ false
  pub late : is_late n k c ≡ true
  pub enough : k ≤ min_chars c

module _ (m n k : ℕ) (a b c : Re) (split : Split m n k a b c) where
  -- A place of the group's start, and one behind it
  AtStart : ℕ → Place → Type 0
  AtStart l t = (length t.rest + min_chars a ≤ l) × (length (text_of n t.groups) ≤ 0)

  IsBehind : ℕ → Place → Type 0
  IsBehind l t =
      (length (text_of m t.groups) + length t.rest + min_chars a ≤ l)
      × (length (text_of n t.groups) ≤ 0)

  AreApart : ℕ → Place → Type 0
  AreApart l t = length (text_of m t.groups) + length (text_of n t.groups) + k + min_chars a ≤ l

  runs-AtStart :
      (s : Place) → length (text_of n s.groups) ≤ 0 → All (AtStart (length s.rest)) (runs a s)
  unfolding AtStart
  runs-AtStart s g =
      All-imp (λ t ((x, y), (x', y')). (x, rw y' g))
        (both (runs-Reaches n (length s.rest) a 0 s (is_late-zero n a) (omega arith) (omega arith))
          (runs-IsSteady n a s (ground (arith, split.n_only))))

  runs-IsBehind : (l : ℕ) (s : Place) → AtStart l s → All (IsBehind l) (runs (group m b) s)
  unfolding AtStart IsBehind runs
  runs-IsBehind l s (x, g) =
      All-map (record_group m s)
        (λ t ((p, q), ((e, f), (e', f'))). (
          let h = record_group-length m s t e (omega arith) in omega arith,
          rw (record_group-other m n s t (ground (arith, split.n_only))) (rw f g),
        ))
        (both (runs-Reaches n (length s.rest) b 0 s (is_late-zero n b) (omega arith) (omega arith))
          (both (runs-IsSteady n b s (ground (arith, split.n_only)))
            (runs-IsSteady m b s (ground (arith, split.m_only)))))

  runs-AreApart : (l : ℕ) (s : Place) → IsBehind l s → All (AreApart l) (runs c s)
  unfolding IsBehind AreApart
  runs-AreApart l s (x, g) =
      All-imp (λ t ((p, q), (e, f)). omega (arith, ap length f, split.enough))
        (both (runs-Reaches n (length s.rest - k) c k s split.late (omega arith) (omega arith))
          (runs-IsSteady m c s (ground (arith, split.m_only))))

  pub runs-Split :
      (s : Place)
      → length (text_of n s.groups) ≤ 0
      → All
          (λ t.
            length (text_of m t.groups) + length (text_of n t.groups) + k + min_chars a
            ≤ length s.rest)
          (runs (seq a (seq (group m b) c)) s)
  unfolding runs AreApart
  runs-Split s g =
      All-flat_map _
        (λ t x.
          All-flat_map _ (λ u y. runs-AreApart (length s.rest) u y)
            (runs-IsBehind (length s.rest) t x))
        (runs-AtStart s g)
