-- ===== src/Scoring/Float.antt =====
-- Python's `float`, which antt does not have: its operations, and the laws of its comparisons in
-- the absence of NaN. No law of its arithmetic is assumed, since floats round.
use saarctf_gameserver.Prelude.{ℕ, ◌≡◌, Bool, true, false, not, ◌||◌}

pub record Float : Type 1 where
  pub Real : Type 0
  pub of_ℕ : ℕ → Real
  pub add : Real → Real → Real
  pub sub : Real → Real → Real
  pub mul : Real → Real → Real
  pub div : Real → Real → Real
  pub half : Real
  -- `x ** 0.5`, `math.sqrt(x)` and `x ** 0.3`
  pub sqrt : Real → Real
  pub pow_03 : Real → Real
  pub lt : Real → Real → Bool
  pub eq : Real → Real → Bool

-- `a <= b`, where neither is NaN
abbrev pub le : (F : Float) → F.Real → F.Real → Type 0
le F a b = F.lt b a ≡ false

pub record IsOrdered (F : Float) : Type 0 where
  pub lt_irrefl : (a : F.Real) → F.lt a a ≡ false
  pub lt_asymm : (a b : F.Real) → F.lt a b ≡ true → F.lt b a ≡ false
  pub le_trans : (a b c : F.Real) → le F a b → le F b c → le F a c
  pub eq_lem : (a b : F.Real) → F.eq a b ≡ not (F.lt a b || F.lt b a)
