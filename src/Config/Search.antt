-- ===== src/Config/Search.antt =====
-- The rounds of the search of `network_ip_to_id`.
use saarctf_gameserver.Prelude.{
  ℕ, zero, suc, ◌+◌, ◌≡◌, ◌≢◌, true, if_ind, List, ◌∷◌, map, All, All-map, All-of_map, All-to_map,
  All-zip, arith, ℤ, pos, neg_part, ◌+ℤ◌, ◌≤ℤ◌, ltb_ℤ, leb_ℤ, int_laws, leb→lt, ltb→le,
}
use mathlib.Core.Option.{some}
use saarctf_gameserver.Config.{
  Interval, end_of, max_start, min_end, raise, out_of_fuel, search, search_all,
}
use saarctf_gameserver.Config.Intervals.{
  IsInterval, EndsAfter, StartsBy, Raised, raise-Raised, min_end-EndsAfter, All-StartsBy,
  max_start-attains, moved,
}

abbrev pub raised : ℤ → List Interval → List Interval
raised s js = map (raise s) js

-- A property that moving keeps, in all intervals after a round.
module _ {κ} (P : Interval → Type κ) (s : ℤ)
    (keep : (j : Interval) → IsInterval j → leb_ℤ (end_of j) s ≡ true → P j → P (moved j)) where
  pub raised-All :
      (js : List Interval) → All IsInterval js → All P js → All (Raised P s) (raised s js)
  raised-All js v p = All-to_map (Raised P s) (raise s) js (
      All-map (λ j. IsInterval j × P j) (λ j. Raised P s (raise s j)) js
        (λ j (w, q). raise-Raised P s keep j w q) (All-zip IsInterval P js v p))

-- A round moves no start back.
later : (s : ℤ) (j : Interval) → IsInterval j → j.start ≤ℤ (raise s j).start
later s j v =
    (raise-Raised (λ k. j.start ≤ℤ k.start) s (λ k _ _ h. omega int_laws) j v (omega arith)).0

max_start-raise :
    (s : ℤ) (i : Interval) (is : List Interval)
    → All IsInterval (i ∷ is)
    → max_start i is ≤ℤ max_start (raise s i) (raised s is)
max_start-raise s i is v =
    let end : ℤ = max_start (raise s i) (raised s is) in
    max_start-attains (λ e. e ≤ℤ end) i is
      (All-map (λ j. IsInterval j × StartsBy end (raise s j)) (λ j. j.start ≤ℤ end) (i ∷ is)
        (λ j (w, h). (omega (arith, later s j w)))
        (All-zip IsInterval (λ j. StartsBy end (raise s j)) (i ∷ is) v
          (All-of_map (StartsBy end) (raise s) (i ∷ is) (All-StartsBy (raise s i) (raised s is)))))

ends_behind : (s : ℤ) (js : List Interval) → All IsInterval js → All (EndsAfter s) (raised s js)
ends_behind s js v =
    All-map (Raised (λ _. Unit {0}) s) (EndsAfter s) (raised s js) (λ j r. r.1)
      (raised-All (λ _. Unit {0}) s (λ _ _ _ _. tt) js v
        (All-map IsInterval (λ _. Unit {0}) js (λ _ _. tt) v))

pub raised-IsInterval :
    (s : ℤ) (js : List Interval) → All IsInterval js → All IsInterval (raised s js)
raised-IsInterval s js v =
    All-map (Raised IsInterval s) IsInterval (raised s js) (λ j r. r.2)
      (raised-All IsInterval s (λ _ w _ _. w) js v v)

-- With every end behind `m` and the greatest start not before it, a round of the search either
-- returns or makes the greatest start larger.
search-ends :
    (fuel : ℕ) (m : ℤ) (i : Interval) (is : List Interval)
    → All IsInterval (i ∷ is)
    → All (EndsAfter m) (i ∷ is)
    → m ≤ℤ max_start i is
    → pos 0xFFFF ≤ℤ m +ℤ pos fuel
    → search (suc fuel) i is ≢ out_of_fuel
unfolding search
search-ends zero m i is v ends above enough =
    let s = max_start i is in
    if_ind (λ r. r ≢ out_of_fuel) (leb_ℤ (pos 0xFFFF) s) _ _ (λ _ h. cc)
      (λ t. absurd (omega (int_laws, leb→lt (pos 0xFFFF) s t)))
search-ends (suc fuel) m i is v ends above enough =
    let s = max_start i is in
    if_ind (λ r. r ≢ out_of_fuel) (leb_ℤ (pos 0xFFFF) s) _ _ (λ _ h. cc)
      (λ _.
        if_ind (λ r. r ≢ out_of_fuel) (ltb_ℤ s (min_end i is)) _ _ (λ _ h. cc)
          (λ t.
            search-ends fuel s (raise s i) (raised s is) (raised-IsInterval s (i ∷ is) v)
              (ends_behind s (i ∷ is) v) (max_start-raise s i is v)
              (omega (int_laws, ltb→le s (min_end i is) t, min_end-EndsAfter m i is ends))))

pub search_all-ends :
    (i : Interval) (is : List Interval)
    → All IsInterval (i ∷ is)
    → search_all (some (i ∷ is)) ≢ out_of_fuel
unfolding search_all search
search_all-ends i is v =
    let s = max_start i is in
    if_ind (λ r. r ≢ out_of_fuel) (leb_ℤ (pos 0xFFFF) s) _ _ (λ _ h. cc)
      (λ _.
        if_ind (λ r. r ≢ out_of_fuel) (ltb_ℤ s (min_end i is)) _ _ (λ _ h. cc)
          (λ t.
            search-ends (0xFFFF + neg_part s) s (raise s i) (raised s is)
              (raised-IsInterval s (i ∷ is) v) (ends_behind s (i ∷ is) v) (max_start-raise s i is v)
              (omega int_laws)))
