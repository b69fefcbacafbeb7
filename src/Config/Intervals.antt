-- ===== src/Config/Intervals.antt =====
-- How the search moves one interval, and what the maximum of the starts and the minimum of the
-- ends say of all of them.
use saarctf_gameserver.Prelude.{
  ℕ, zero, suc, ◌*◌, ◌<◌, ◌≡◌, true, if_ind, List, [], ◌∷◌, All, All-map, arith, ℤ, pos, pos_part,
  ◌+ℤ◌, ◌-ℤ◌, ◌≤ℤ◌, ltb_ℤ, leb_ℤ, int_laws, leb→le, leb→lt, ltb→lt, ltb→le,
}
use saarctf_gameserver.Config.{
  Interval, end_of, max_ℤ, min_ℤ, max_start, min_end, raise_start, raise,
}

abbrev pub IsInterval : Interval → Type 0
IsInterval j = (0 < j.size) × (0 < j.count)

-- `s` lies before the end.
abbrev pub EndsAfter : ℤ → Interval → Type 0
EndsAfter s j = s +ℤ pos 1 ≤ℤ end_of j

abbrev pub StartsBy : ℤ → Interval → Type 0
StartsBy s j = j.start ≤ℤ s

abbrev pub moved : Interval → Interval
moved j = record j { start = j.start +ℤ pos (j.size * j.count) }

product_pos : (a b : ℕ) → 0 < a → 0 < b → 0 < a * b
product_pos a b h k = grind arith

-- What a raised interval has, for a property that a move keeps.
abbrev pub Raised {κ} : (Interval → Type κ) → ℤ → Interval → Type κ
Raised P s j = P j × EndsAfter s j × IsInterval j

module _ {κ} (P : Interval → Type κ) (s : ℤ)
    (keep : (j : Interval) → IsInterval j → leb_ℤ (end_of j) s ≡ true → P j → P (moved j)) where
  raise_start-Raised :
      (fuel : ℕ) (j : Interval)
      → IsInterval j
      → s ≤ℤ j.start +ℤ pos fuel
      → P j
      → Raised P s (raise_start (suc fuel) s j)
  unfolding raise_start
  raise_start-Raised zero j v enough p =
      if_ind (Raised P s) (leb_ℤ (end_of j) s) _ _
        (λ t. absurd (omega (int_laws, leb→le (end_of j) s t, v.0)))
        (λ t. (p, omega (int_laws, leb→lt (end_of j) s t), v))
  raise_start-Raised (suc fuel) j v enough p =
      if_ind (Raised P s) (leb_ℤ (end_of j) s) _ _
        (λ t.
          raise_start-Raised fuel (moved j) v (omega (int_laws, product_pos j.size j.count v.0 v.1))
            (keep j v t p))
        (λ t. (p, omega (int_laws, leb→lt (end_of j) s t), v))

  pub raise-Raised : (j : Interval) → IsInterval j → P j → Raised P s (raise s j)
  unfolding raise
  raise-Raised j v p = raise_start-Raised (pos_part (s -ℤ j.start)) j v (omega int_laws) p

split_min : (s a b : ℤ) → s +ℤ pos 1 ≤ℤ min_ℤ a b → (s +ℤ pos 1 ≤ℤ a) × (s +ℤ pos 1 ≤ℤ b)
split_min s a b =
    if_ind (λ e. s +ℤ pos 1 ≤ℤ e → (s +ℤ pos 1 ≤ℤ a) × (s +ℤ pos 1 ≤ℤ b)) (ltb_ℤ b a) _ _
      (λ t h. (omega (int_laws, ltb→lt b a t), h)) (λ t h. (h, omega (int_laws, ltb→le b a t)))

-- `s` lies before the least end exactly if it lies before every end.
pub min_end-EndsAfter :
    (s : ℤ) (i : Interval) (is : List Interval)
    → All (EndsAfter s) (i ∷ is)
    → s +ℤ pos 1 ≤ℤ min_end i is
unfolding min_end
min_end-EndsAfter s i [] h = h.0
min_end-EndsAfter s i (j ∷ js) h =
    if_ind (λ e. s +ℤ pos 1 ≤ℤ e) (ltb_ℤ (min_end j js) (end_of i)) _ _
      (λ _. min_end-EndsAfter s j js h.1) (λ _. h.0)

pub All-EndsAfter :
    (s : ℤ) (i : Interval) (is : List Interval)
    → s +ℤ pos 1 ≤ℤ min_end i is
    → All (EndsAfter s) (i ∷ is)
unfolding min_end
All-EndsAfter s i [] h = (h, tt)
All-EndsAfter s i (j ∷ js) h = (both.0, All-EndsAfter s j js both.1)
  where
    both : (s +ℤ pos 1 ≤ℤ end_of i) × (s +ℤ pos 1 ≤ℤ min_end j js)
    both = split_min s (end_of i) (min_end j js) h

below_max : (a b : ℤ) → (a ≤ℤ max_ℤ a b) × (b ≤ℤ max_ℤ a b)
below_max a b =
    if_ind (λ e. (a ≤ℤ e) × (b ≤ℤ e)) (ltb_ℤ a b) _ _
      (λ t. (omega (arith, ltb→lt a b t), omega arith))
      (λ t. (omega arith, omega (arith, ltb→le a b t)))

StartsBy-trans : (s t : ℤ) → s ≤ℤ t → (j : Interval) → StartsBy s j → StartsBy t j
StartsBy-trans s t h j k = omega arith

pub All-StartsBy : (i : Interval) (is : List Interval) → All (StartsBy (max_start i is)) (i ∷ is)
unfolding max_start
All-StartsBy i [] = (omega arith, tt)
All-StartsBy i (j ∷ js) =
    let (first, rest) = below_max i.start (max_start j js) in
    (
      first,
      All-map (StartsBy (max_start j js)) (StartsBy (max_start i (j ∷ js))) (j ∷ js)
          (StartsBy-trans _ _ rest) (All-StartsBy j js),
    )

-- The greatest start is one of the starts.
pub max_start-attains {κ} :
    (P : ℤ → Type κ) (i : Interval) (is : List Interval)
    → All (λ j. P j.start) (i ∷ is)
    → P (max_start i is)
unfolding max_start
max_start-attains P i [] h = h.0
max_start-attains P i (j ∷ js) h =
    if_ind P (ltb_ℤ i.start (max_start j js)) _ _ (λ _. max_start-attains P j js h.1) (λ _. h.0)
