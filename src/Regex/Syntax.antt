-- ===== src/Regex/Syntax.antt =====
-- The regular expressions of Python's `re` that the scripts use.
use netier.Base.{ℕ, Bool, Option}

pub data Re : Type 0 where
  empty : Re
  one : (ℕ → Bool) → Re
  seq : Re → Re → Re
  alt : Re → Re → Re
  -- greedy or not, at least, at most
  rep : Bool → ℕ → Option ℕ → Re → Re
  group : ℕ → Re → Re
  back : ℕ → Re
  bol : Re
  eol : Re
  boundary : Bool → Re
  -- wanted or not wanted
  look : Bool → Re → Re
