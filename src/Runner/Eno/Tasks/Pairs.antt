-- ===== src/Runner/Eno/Tasks/Pairs.antt =====
-- When a check of a tick waits long enough for what it looks for.
use saarctf_gameserver.Prelude.{
  ◌≡◌, Bool, true, false, ◌&&◌, inl, inr, ◌⊎◌, List, [], ◌∷◌, ◌++◌, All, All-map, ℤ, ◌+ℤ◌, ◌≤ℤ◌,
}
use saarctf_gameserver.Runner.Eno.{
  CheckerMethod, put_flag, get_flag, put_noise, get_noise, CheckerTaskMessage, is_current,
}

abbrev pub Task : Type 0
Task = CheckerTaskMessage × ℤ

abbrev pub is_put : CheckerMethod → Bool
is_put put_flag = true
is_put put_noise = true
is_put _ = false

abbrev is_get : CheckerMethod → Bool
is_get get_flag = true
is_get get_noise = true
is_get _ = false

-- a task that looks for what was put in the same tick
abbrev pub is_check : CheckerTaskMessage → Bool
is_check msg = is_get msg.method && is_current msg

abbrev pub Any : {A : Type 0} → (A → Type 0) → List A → Type 0
Any P [] = ⊥
Any P (x ∷ xs) = P x ⊎ Any P xs

-- The second task puts what the first looks for, and starts long enough before it.
abbrev pub IsBefore : ℤ → Task → Task → Type 0
IsBefore wait (check, d) (put, d') =
    (is_put put.method ≡ true) × (put.task_chain_id ≡ check.task_chain_id) × (d' +ℤ wait ≤ℤ d)

abbrev pub IsExcused : ℤ → List Task → Task → Type 0
IsExcused wait tasks t = is_check t.0 ≡ true → Any (IsBefore wait t) tasks

abbrev pub IsPaired : ℤ → List Task → Type 0
IsPaired wait tasks = All (IsExcused wait tasks) tasks

All-append :
    {A : Type 0} (P : A → Type 0) (xs : List A) (y : A) → All P xs → P y → All P (xs ++ y ∷ [])
All-append P [] y h k = (k, tt)
All-append P (x ∷ xs) y h k = (h.0, All-append P xs y h.1 k)

pub Any-append :
    {A : Type 0} (P : A → Type 0) (xs : List A) (y : A) → Any P xs → Any P (xs ++ y ∷ [])
Any-append P [] y h = elim h [ ]
Any-append P (x ∷ xs) y (inl h) = inl h
Any-append P (x ∷ xs) y (inr h) = inr (Any-append P xs y h)

pub Any-last : {A : Type 0} (P : A → Type 0) (xs : List A) (y : A) → P y → Any P (xs ++ y ∷ [])
Any-last P [] y h = inl h
Any-last P (x ∷ xs) y h = inr (Any-last P xs y h)

pub append-IsPaired :
    (wait : ℤ) (tasks : List Task) (t : Task)
    → IsExcused wait (tasks ++ t ∷ []) t
    → IsPaired wait tasks
    → IsPaired wait (tasks ++ t ∷ [])
append-IsPaired wait tasks t h k =
    All-append (IsExcused wait (tasks ++ t ∷ [])) tasks t
      (All-map (IsExcused wait tasks) (IsExcused wait (tasks ++ t ∷ [])) tasks
        (λ x e c. Any-append (IsBefore wait x) tasks t (e c)) k)
      h
