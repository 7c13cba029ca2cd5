-- ===== src/FunctionState/Trigger.antt =====
-- When a long function is reported, and how loudly.
use native.Mathlib.Nat.{pow-suc, pow-le-pow_right}
use native.Mathlib.Decide.{dec_lt}
use netier.Base.{
  ℕ, zero, suc, ◌*◌, ◌^◌, ◌≤◌, ◌<◌, true, List, [], ◌∷◌, ◌≡◌, refl, ◌≢◌, ◌↔◌, ◌⊎◌, inl, inr, arith,
  leb, ltb, Text, ap, Bool-cases,
}
use netier.Suppress.{Report}
use netier.FunctionState.{FunctionState, base_trigger, log2_ratio, error_level, size_report, check}

doubled : (base n : ℕ) → base * 2 ^ suc n ≡ base * 2 * 2 ^ n
doubled base n = omega (arith, ap (λ (t : ℕ). base * t) (pow-suc 2 n))

-- The level of the logarithm: the ratio lies between two neighbouring powers of two.
pub log2_ratio_lem :
    (fuel lines base : ℕ)
    → base ≤ lines
    → lines < base * 2 ^ fuel
    → (base * 2 ^ log2_ratio fuel lines base ≤ lines)
      × (lines < base * 2 ^ suc (log2_ratio fuel lines base))
unfolding log2_ratio
log2_ratio_lem zero lines base h k = omega arith
log2_ratio_lem (suc fuel) lines base h k = elim (Bool-cases (leb (base * 2) lines)) [
  | inl more ↦
      let k' : lines < base * 2 * 2 ^ fuel = omega (arith, doubled base fuel) in
      let r = log2_ratio fuel lines (base * 2) in
      let ih = log2_ratio_lem fuel lines (base * 2) (ground arith) k' in
      rw (more, log2_ratio)
        (omega (arith, ih.0, doubled base r), omega (arith, ih.1, doubled base (suc r)))
  | inr less ↦ rw (less, log2_ratio) (omega arith, ground arith)
]

lt-pow : (n : ℕ) → n < 2 ^ n
lt-pow zero = omega arith
lt-pow (suc n) = omega (arith, lt-pow n, pow-suc 2 n)

base_trigger-cases : (f : Text) → (base_trigger f ≡ 250) ⊎ (base_trigger f ≡ 400)
unfolding base_trigger
base_trigger-cases f = ground arith

-- A report is made exactly when a body is open with more lines than the trigger of its name,
-- doubled for each verbosity level.
pub check-reports :
    (v linenum : ℕ) (s : FunctionState)
    → (check v linenum s ≢ [])
      ↔ ((s.in_a_function ≡ true) × (base_trigger s.current_function * 2 ^ v < s.lines_in_function))
unfolding check
check-reports v linenum s = ground arith

at_least_five : (base lines k : ℕ) → base * 2 ^ k ≤ lines → 5 ≤ k → base * 2 ^ 5 ≤ lines
at_least_five base lines k h m = grind (arith, pow-le-pow_right {n = 2} (omega arith) m)

-- The level of a report is the binary logarithm of how far the function is over the base, cut
-- off at 5.
pub error_level_lem :
    (lines base : ℕ)
    → 0 < base
    → base ≤ lines
    → (error_level lines base ≤ 5)
      × (base * 2 ^ error_level lines base ≤ lines)
      × ((error_level lines base ≡ 5) ⊎ (lines < base * 2 ^ suc (error_level lines base)))
unfolding error_level
error_level_lem lines base p h =
    let k = log2_ratio lines lines base in
    let enough : lines < base * 2 ^ lines = grind (arith, lt-pow lines) in
    let (low, high) = log2_ratio_lem lines lines base h enough in
    elim (Bool-cases (ltb 5 k)) [
      | inl big ↦ rw big (omega arith, at_least_five base lines k low (ground arith), inl refl)
      | inr small ↦ rw small (ground arith, low, inr high)
    ]

level-ge : (base lines v k : ℕ) → base * 2 ^ v < lines → lines < base * 2 ^ suc k → v ≤ k
level-ge base lines v k h m = elim (dec_lt k v) [
  | yes lt ↦ absurd (grind (arith, pow-le-pow_right {n = 2} (omega arith) lt))
  | no ge ↦ omega arith
]

over_base : (base v lines : ℕ) → base * 2 ^ v < lines → base ≤ lines
over_base base v lines h = grind (arith, lt-pow v)

error_level-bounds :
    (base lines v : ℕ)
    → 0 < base
    → base * 2 ^ v < lines
    → v ≤ 5
    → (v ≤ error_level lines base) × (error_level lines base ≤ 5)
error_level-bounds base lines v p h b =
    let (most, low, high) = error_level_lem lines base p (over_base base v lines h) in
    (
      (elim high [
        | inl five ↦ rw five b
        | inr below ↦ level-ge base lines v (error_level lines base) h below
      ]),
      most,
    )

base_trigger-pos : (f : Text) → 0 < base_trigger f
base_trigger-pos f = omega (arith, base_trigger-cases f)

-- The level holds of the confidence of the only report, if there is one.
abbrev pub Confidence : (ℕ → Type 0) → List Report → Type 0
Confidence P [] = Unit
Confidence P (r ∷ []) = P r.confidence
Confidence P (r ∷ q ∷ rs) = ⊥

-- At a verbosity level up to 5, the report of a long function always has a confidence between the
-- level and 5, so the level never hides what it made the trigger report.
pub check-confidence :
    (v linenum : ℕ) (s : FunctionState)
    → v ≤ 5
    → Confidence (λ confidence. (v ≤ confidence) × (confidence ≤ 5)) (check v linenum s)
unfolding check size_report
check-confidence v linenum s h = ground (
  arith,
  error_level-bounds (base_trigger s.current_function) s.lines_in_function v,
  base_trigger-pos s.current_function,
)
