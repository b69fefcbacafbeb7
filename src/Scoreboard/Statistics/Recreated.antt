-- ===== src/Scoreboard/Statistics/Recreated.antt =====
-- What `update_file` writes: the value of one tick, or a file from the whole table.
use saarctf_gameserver.Prelude.{
  ℕ, zero, suc, ◌+◌, ◌≤◌, ◌<◌, ◌≡◌, refl, sym, ◌∙◌, ap, Bool, true, false, not, ◌||◌, ltb, leb,
  ◌==◌, Option, none, some, if◌then◌else◌, if_ind, List, [], ◌∷◌, All, All-map, length, arith,
}
use saarctf_gameserver.Scoreboard.Statistics.{
  StatFile, same_names, put, put_all, all_reach, some_ends, empty_row, empty_rows, write, write_row,
  write_results, can_update, recreate, with_names, update_file, CountsRow, lookup, up_to,
  service_tick, service_all_ticks,
}

same_names_self : (ns : List ℕ) → same_names ns ns ≡ true
same_names_self [] = refl
same_names_self (n ∷ ns) = ground (arith, same_names_self ns)

module _ {V : Type 0} where
  -- All rows have the tick.
  abbrev Reach : ℕ → List (List V) → Type 0
  Reach tick rows = All (λ row. tick ≤ length row) rows

  reach_lem : (tick : ℕ) (rows : List (List V)) → Reach tick rows → all_reach tick rows ≡ true
  unfolding all_reach
  reach_lem tick [] h = refl
  reach_lem tick (row ∷ rows) (h, hs) = ground (arith, reach_lem tick rows hs)

  reach_of : (tick : ℕ) (rows : List (List V)) → all_reach tick rows ≡ true → Reach tick rows
  unfolding all_reach
  reach_of tick [] h = tt
  reach_of tick (row ∷ rows) h = (ground arith, reach_of tick rows (ground arith))

  reach_of_ends :
      (tick : ℕ) (rows : List (List V)) → some_ends tick rows ≡ false → Reach (tick + 1) rows
  unfolding some_ends
  reach_of_ends tick [] h = tt
  reach_of_ends tick (row ∷ rows) h = (ground arith, reach_of_ends tick rows (ground arith))

  length-put :
      (tick : ℕ) (v : V) (row : List V) → tick ≤ length row → tick + 1 ≤ length (put tick v row)
  unfolding put
  length-put zero v [] h = omega arith
  length-put (suc tick) v [] h = absurd (omega arith)
  length-put zero v (x ∷ xs) h = omega arith
  length-put (suc tick) v (x ∷ xs) h = omega (arith, length-put tick v xs)

  put_all-Reach :
      (tick : ℕ) (vs : List V) (rows : List (List V))
      → length vs ≡ length rows
      → Reach tick rows
      → Reach (tick + 1) (put_all tick vs rows) × (length (put_all tick vs rows) ≡ length rows)
  unfolding put_all
  put_all-Reach tick [] [] e h = (tt, refl)
  put_all-Reach tick [] (row ∷ rows) e h = absurd (omega arith)
  put_all-Reach tick (v ∷ vs) [] e h = absurd (omega arith)
  put_all-Reach tick (v ∷ vs) (row ∷ rows) e (h, hs) =
      let (r, l) = put_all-Reach tick vs rows (omega arith) hs in
      ((length-put tick v row h, r), omega (arith, l))

  length-write : (tick : ℕ) (v : V) (row : List V) → length (write tick v row) ≡ length row
  unfolding write
  length-write tick v [] = refl
  length-write zero v (x ∷ xs) = refl
  length-write (suc tick) v (x ∷ xs) = ap suc (length-write tick v xs)

  write_row-Reach :
      (n index tick : ℕ) (v : V) (rows : List (List V))
      → Reach n rows
      → Reach n (write_row index tick v rows) × (length (write_row index tick v rows) ≡ length rows)
  unfolding write_row
  write_row-Reach n index tick v [] h = (tt, refl)
  write_row-Reach n zero tick v (row ∷ rows) (h, hs) =
      ((omega (arith, length-write tick v row), hs), refl)
  write_row-Reach n (suc index) tick v (row ∷ rows) (h, hs) =
      let (r, l) = write_row-Reach n index tick v rows hs in ((h, r), ap suc l)

  write_results-Reach :
      (n : ℕ) (rs : List (ℕ × ℕ × V)) (rows : List (List V))
      → Reach n rows
      → Reach n (write_results rs rows) × (length (write_results rs rows) ≡ length rows)
  unfolding write_results
  write_results-Reach n [] rows h = (h, refl)
  write_results-Reach n ((tick, index, v) ∷ rs) rows h =
      let (r, l) = write_row-Reach n index tick v rows h in
      let (r', l') = write_results-Reach n rs (write_row index tick v rows) r in (r', l' ∙ l)

  length-empty_row : (e : V) (n : ℕ) → length (empty_row e n) ≡ n
  unfolding empty_row
  length-empty_row e zero = refl
  length-empty_row e (suc n) = ap suc (length-empty_row e n)

  empty_rows-Reach :
      (e : V) (n : ℕ) (names : List ℕ)
      → Reach n (empty_rows e n names) × (length (empty_rows e n names) ≡ length names)
  unfolding empty_rows
  empty_rows-Reach e n [] = (tt, refl)
  empty_rows-Reach e n (s ∷ ss) =
      let (r, l) = empty_rows-Reach e n ss in ((omega (arith, length-empty_row e n), r), ap suc l)

  -- a file to which the next tick can be added
  abbrev IsReady : List ℕ → ℕ → List (List V) → Type 0
  IsReady names tick rows = Reach tick rows × (length rows ≡ length names)

  updatable :
      (names : List ℕ) (tick : ℕ) (file : StatFile V)
      → same_names file.services names ≡ true
      → Reach tick file.rows
      → length file.rows ≡ length names
      → can_update names tick file ≡ true
  unfolding can_update
  updatable names tick file s r l = ground (arith, s, reach_lem tick file.rows r, l)

  parts :
      (names : List ℕ) (tick : ℕ) (f : StatFile V)
      → can_update names tick f ≡ true
      → (same_names f.services names ≡ true) × ((length f.rows ≡ length names) × Reach tick f.rows)
  unfolding can_update
  parts names tick f h = (ground arith, (ground arith, reach_of tick f.rows (ground arith)))

  base_rows-IsReady :
      (empty : V) (names : List ℕ) (tick : ℕ) (rows : List (List V))
      → IsReady names (tick + 1) (
          if not (length rows == length names) || some_ends tick rows
          then empty_rows empty (tick + 1) names
          else rows)
  base_rows-IsReady empty names tick rows =
      if_ind (IsReady names (tick + 1)) (not (length rows == length names) || some_ends tick rows) _
        _ (λ _. empty_rows-Reach empty (tick + 1) names)
        (λ t. (reach_of_ends tick rows (ground arith), ground arith))

  updated-can_update :
      (names : List ℕ) (tick : ℕ) (single : List V) (f : StatFile V)
      → length single ≡ length names
      → can_update names tick f ≡ true
      → can_update names (tick + 1) (record f { rows = put_all tick single f.rows }) ≡ true
  updated-can_update names tick single f e h =
      let (s, lr) = parts names tick f h in
      let (r, l) = put_all-Reach tick single f.rows (e ∙ sym lr.0) lr.1 in
      updatable names (tick + 1) _ s r (l ∙ lr.0)

  recreated-can_update :
      (empty : V) (names : List ℕ) (tick : ℕ) (all : List (ℕ × ℕ × V)) (f : StatFile V)
      → 0 < tick
      → can_update names (tick + 1) (recreate empty names tick all f) ≡ true
  unfolding recreate
  recreated-can_update empty names tick all f h =
      let (ready, l) = base_rows-IsReady empty names tick f.rows in
      let (r, l') = write_results-Reach (tick + 1) all _ ready in
      updatable names (tick + 1) _ names_now r (l' ∙ l)
    where
      names_now : same_names (if ltb 0 tick then names else f.services) names ≡ true
      names_now =
          if_ind (λ ns. same_names ns names ≡ true) (ltb 0 tick) names f.services
            (λ _. same_names_self names) (λ t. absurd (ground arith))

  -- After update_file for a tick above 0, with a value for each service, the file can be updated
  -- for the next tick without being recreated, whatever it was before: it has the names of the
  -- services, a row for each of them, and a value for every tick up to this one in each row.
  pub update_file-can_update :
      (empty : V) (names : List ℕ) (tick : ℕ) (single : List V) (all : List (ℕ × ℕ × V))
      (file : StatFile V)
      → 0 < tick
      → length single ≡ length names
      → can_update names (tick + 1) (update_file empty names tick single all file) ≡ true
  unfolding update_file
  update_file-can_update empty names tick single all file h e =
      let f = with_names names file in
      if_ind (λ (g : StatFile V). can_update {V = V} names (tick + 1) g ≡ true)
        (can_update names tick f) _ _ (updated-can_update names tick single f e)
        (λ _. recreated-can_update empty names tick all f h)

-- The rows have different keys.
abbrev pub IsUnique : List CountsRow → Type 0
IsUnique [] = Unit {0}
IsUnique (r ∷ rs) = (lookup r.tick r.team_id r.service_index rs ≡ none) × IsUnique rs

abbrev Found : List CountsRow → CountsRow → Type 0
Found all r = lookup r.tick r.team_id r.service_index all ≡ some (r.captured, r.stolen)

all-Found : (rs : List CountsRow) → IsUnique rs → All (Found rs) rs
unfolding lookup
all-Found [] u = tt
all-Found (r ∷ rs) (fresh, u) = (
  ground (arith, fresh),
  All-map (Found rs) (Found (r ∷ rs)) rs (λ q h. ground (arith, h)) (all-Found rs u),
)

up_to-none :
    (max_tick tick team service : ℕ) (rs : List CountsRow)
    → lookup tick team service rs ≡ none
    → lookup tick team service (up_to max_tick rs) ≡ none
unfolding lookup up_to
up_to-none max_tick tick team service [] h = refl
up_to-none max_tick tick team service (r ∷ rs) h =
    ground (arith, up_to-none max_tick tick team service rs)

up_to-IsUnique : (max_tick : ℕ) (rs : List CountsRow) → IsUnique rs → IsUnique (up_to max_tick rs)
unfolding up_to
up_to-IsUnique max_tick [] u = tt
up_to-IsUnique max_tick (r ∷ rs) (fresh, u) =
    let rest = up_to-IsUnique max_tick rs u in
    if_ind IsUnique (leb r.tick max_tick) _ _
      (λ _. (up_to-none max_tick r.tick r.team_id r.service_index rs fresh, rest)) (λ _. rest)

service_tick_zero :
    (freeze : Option ℕ) (frozen : Bool) (all : List CountsRow) (tick service : ℕ)
    (rs : List CountsRow)
    → All (Found all) rs
    → service_tick freeze frozen all tick service rs ≡ (0, 0)
unfolding service_tick
service_tick_zero freeze frozen all tick service [] h = refl
service_tick_zero freeze frozen all tick service (r ∷ rs) (h, hs) =
    ground (arith, h, service_tick_zero freeze frozen all tick service rs hs)

-- If no two rows of the table of points have the same tick, team and service, then recreating the
-- statistics of the services gives 0 attackers and 0 victims for every tick and service.
pub service_all_ticks_zero :
    (freeze : Option ℕ) (frozen : Bool) (max_tick : ℕ) (table : List CountsRow) (tick service : ℕ)
    → IsUnique table
    → service_all_ticks freeze frozen max_tick table tick service ≡ (0, 0)
unfolding service_all_ticks
service_all_ticks_zero freeze frozen max_tick table tick service u =
    let rows = up_to max_tick table in
    service_tick_zero freeze frozen rows tick service rows
      (all-Found rows (up_to-IsUnique max_tick table u))
