-- ===== src/Config/Teams.antt =====
-- The team that the search finds for the address of a team.
use native.Mathlib.Nat.{div-mul-le_self, lt-div-mul-add, div-eq_of_lt-le, div-add-mod}
use saarctf_gameserver.Prelude.{
  ℕ, zero, suc, ◌+◌, ◌*◌, ◌/◌, ◌%◌, ◌≤◌, ◌<◌, ◌≡◌, refl, ◌∙◌, ap, ◌⊎◌, inl, inr, true, if_ind, List,
  [], ◌∷◌, All, All-map, All-zip, All-of_map, arith, ℤ, pos, pos_part, neg_part, ◌≤ℤ◌, ltb_ℤ, leb_ℤ,
  int_laws, leb→le, ltb→lt, subst,
}
use saarctf_gameserver.Config.{
  Interval, end_of, max_start, min_end, raise, Lookup, team, out_of_fuel, search,
}
use saarctf_gameserver.Config.Intervals.{
  IsInterval, EndsAfter, StartsBy, Raised, raise-Raised, All-EndsAfter, All-StartsBy,
  max_start-attains, moved,
}
use saarctf_gameserver.Config.Search.{raised, raised-All, raised-IsInterval}

-- The start has the number of the address of `t`, and lies at most at the number of `t` itself.
abbrev pub Meets : ℕ → Interval → Type 0
Meets t j =
    (q : ℕ) × (j.start ≡ pos (q * j.size)) × (q ≤ t / j.size) × (q % j.count ≡ t / j.size % j.count)

-- `r` and `t` have the same number in an address.
abbrev pub SameDigit : ℕ → ℕ → Interval → Type 0
SameDigit r t j = r / j.size % j.count ≡ t / j.size % j.count

congruent_step : (q n c : ℕ) → 0 < c → q < n → q % c ≡ n % c → q + c ≤ n
congruent_step q n c h k e = grind (arith, div-add-mod q c, div-add-mod n c)

before_digit : (q a t : ℕ) → 0 < a → q * a + a ≤ t → q < t / a
before_digit q a t h k = grind (arith, lt-div-mul-add {a = t} h)

digit_start : (q a t : ℕ) → q ≤ t / a → q * a ≤ t
digit_start q a t h = grind (arith, div-mul-le_self t a)

digit_eq : (q a r : ℕ) → q * a ≤ r → r < q * a + a → r / a ≡ q
digit_eq q a r h k = div-eq_of_lt-le a h (grind arith)

add-mod_self : (q c : ℕ) → (q + c) % c ≡ q % c
add-mod_self q c = grind arith

product_add : (q c a : ℕ) → q * a + a * c ≡ (q + c) * a
product_add q c a = grind arith

Meets-move :
    (t : ℕ) (s : ℤ) (j : Interval)
    → s ≤ℤ pos t
    → IsInterval j
    → leb_ℤ (end_of j) s ≡ true
    → Meets t j
    → Meets t (moved j)
Meets-move t s j below v behind (q, start, le, same) = (
  q + j.count,
  rw start (omega (int_laws, product_add q j.count j.size)),
  congruent_step q (t / j.size) j.count v.1 (before_digit q j.size t v.0 fits) same,
  add-mod_self q j.count ∙ same,
)
  where
    fits : q * j.size + j.size ≤ t
    fits = omega (int_laws, leb→le (end_of j) s behind, ap pos_part start, ap neg_part start)

-- Where the search stops, the result is one of the starts, and lies in every interval.
abbrev pub Found : ℕ → List Interval → Lookup → Type 0
Found t js r = (r ≡ out_of_fuel) ⊎ ((k : ℕ) × (r ≡ team (pos k)) × (k ≤ t) × All (SameDigit k t) js)

start_of_team :
    (t : ℕ) (i : Interval) (is : List Interval)
    → All (Meets t) (i ∷ is)
    → (k : ℕ) × (max_start i is ≡ pos k) × (k ≤ t)
start_of_team t i is m =
    max_start-attains (λ e. (k : ℕ) × (e ≡ pos k) × (k ≤ t)) i is
      (All-map (Meets t) (λ j. (k : ℕ) × (j.start ≡ pos k) × (k ≤ t)) (i ∷ is)
        (λ j (q, start, le, same). (q * j.size, start, digit_start q j.size t le)) m)

in_all :
    (t k : ℕ) (js : List Interval)
    → All (Meets t) js
    → All (StartsBy (pos k)) js
    → All (EndsAfter (pos k)) js
    → All (SameDigit k t) js
in_all t k [] m b e = tt
in_all t k (j ∷ js) ((q, start, le, same), m) (b, bs) (e, es) =
    (ap (λ n. n % j.count) (digit_eq q j.size k from_start to_end) ∙ same, in_all t k js m bs es)
  where
    from_start : q * j.size ≤ k
    from_start = omega (arith, ap pos_part start, ap neg_part start)

    to_end : k < q * j.size + j.size
    to_end = omega (int_laws, ap pos_part start, ap neg_part start)

kept :
    (s : ℤ) (j : Interval)
    → IsInterval j
    → ((raise s j).size ≡ j.size) × ((raise s j).count ≡ j.count)
kept s j v =
    (raise-Raised (λ k. (k.size ≡ j.size) × (k.count ≡ j.count)) s (λ _ _ _ h. h) j v
      (refl, refl)).0

SameDigit-raise :
    (k t : ℕ) (s : ℤ) (js : List Interval)
    → All IsInterval js
    → All (SameDigit k t) (raised s js)
    → All (SameDigit k t) js
SameDigit-raise k t s js v d =
    All-map (λ j. IsInterval j × SameDigit k t (raise s j)) (SameDigit k t) js
      (λ j (w, e). let (size, count) = kept s j w in ground (arith, size, count))
      (All-zip IsInterval (λ j. SameDigit k t (raise s j)) js v
        (All-of_map (SameDigit k t) (raise s) js d))

Found-raise :
    (k t : ℕ) (s : ℤ) (js : List Interval) (r : Lookup)
    → All IsInterval js
    → Found t (raised s js) r
    → Found t js r
Found-raise k t s js r v (inl e) = inl e
Found-raise k t s js r v (inr (n, e, le, d)) = inr (n, e, le, SameDigit-raise n t s js v d)

pub search-Found :
    (t fuel : ℕ) (i : Interval) (is : List Interval)
    → t < 0xFFFF
    → All IsInterval (i ∷ is)
    → All (Meets t) (i ∷ is)
    → Found t (i ∷ is) (search fuel i is)
unfolding search
search-Found t zero i is small v m = inl refl
search-Found t (suc fuel) i is small v m =
    let (k, start, le) = start_of_team t i is m in
    let s = max_start i is in
    if_ind (Found t (i ∷ is)) (leb_ℤ (pos 0xFFFF) s) _ _
      (λ b. absurd (omega (arith, leb→le (pos 0xFFFF) s b, ap pos_part start, ap neg_part start)))
      (λ _.
        if_ind (Found t (i ∷ is)) (ltb_ℤ s (min_end i is)) _ _
          (λ b. inr (
            k,
            ap team start,
            le,
            in_all t k (i ∷ is) m (subst (λ e. All (StartsBy e) (i ∷ is)) start (All-StartsBy i is))
                (All-EndsAfter (pos k) i is (
                  omega
                    (int_laws, ltb→lt s (min_end i is) b, ap pos_part start, ap neg_part start))),
          ))
          (λ _. Found-raise k t s (i ∷ is) _ v (
            search-Found t fuel (raise s i) (raised s is) small (raised-IsInterval s (i ∷ is) v) (
              All-map (Raised (Meets t) s) (Meets t) (raised s (i ∷ is)) (λ j r. r.0)
                (raised-All (Meets t) s
                  (λ j w b p.
                    Meets-move t s j (omega (arith, ap pos_part start, ap neg_part start)) w b p)
                  (i ∷ is) v m)))))
