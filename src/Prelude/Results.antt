-- ===== src/Prelude/Results.antt =====
-- Results that may be missing, as `none` for an exception or an early end.
use mathlib.Core.Option.{Option, none, some}

-- It ends without an exception, with a result that the predicate holds of.
abbrev pub Returns {ℓ} : {A : Type ℓ} → (A → Type 0) → Option A → Type 0
Returns P none = ⊥
Returns P (some a) = P a

pub Returns-map {ℓ} :
    {A : Type ℓ} (P Q : A → Type 0) (o : Option A)
    → ((a : A) → P a → Q a)
    → Returns P o
    → Returns Q o
Returns-map P Q none f h = h
Returns-map P Q (some a) f h = f a h

-- If it ends without an exception, the predicate holds of the result.
abbrev pub IfReturns {ℓ} : {A : Type ℓ} → (A → Type 0) → Option A → Type 0
IfReturns P none = Unit
IfReturns P (some a) = P a

pub IfReturns-map {ℓ} :
    {A : Type ℓ} (P Q : A → Type 0) (o : Option A)
    → ((a : A) → P a → Q a)
    → IfReturns P o
    → IfReturns Q o
IfReturns-map P Q none f h = h
IfReturns-map P Q (some a) f h = f a h

pub Returns-IfReturns {ℓ} :
    {A : Type ℓ} (P Q : A → Type 0) (o : Option A) → Returns P o → IfReturns Q o → Returns Q o
Returns-IfReturns P Q none h k = h
Returns-IfReturns P Q (some a) h k = k
