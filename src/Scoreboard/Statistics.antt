-- ===== src/Scoreboard/Statistics.antt =====
-- controlserver/scoring/scoreboard.py: the files of points for each team and of attackers for each
-- service, `update_file` of `StatisticJsonGenerator` and its two subclasses. Ticks are numbers: for
-- a tick below 0 `update_file` writes back what it has read.
pub mod Recreated
use saarctf_gameserver.Prelude.{
  ℕ, zero, suc, ◌+◌, ◌≤◌, ◌≡◌, Bool, true, false, not, ◌&&◌, ◌||◌, ltb, leb, ◌==◌, Option, none,
  some, if◌then◌else◌, List, [], ◌∷◌, ◌++◌, map, length, ℤ, pos,
}
use saarctf_gameserver.Scoring.Float.{Float}
use saarctf_gameserver.Scoreboard.{
  is_frozen, Service, TeamPointsLite, TickInformation, attackers, victims,
}

-- One row for each service, one value for each tick.
pub record StatFile (V : Type 0) : Type 0 where
  pub services : List ℕ
  pub rows : List (List V)

abbrev pub same_names : List ℕ → List ℕ → Bool
same_names [] [] = true
same_names [] (n ∷ ns) = false
same_names (m ∷ ms) [] = false
same_names (m ∷ ms) (n ∷ ns) = m == n && same_names ms ns

module _ {V : Type 0} where
  -- `row[tick] = value`, or `row.append(value)` if the row ends there
  unfoldable pub put : ℕ → V → List V → List V
  put tick v [] = v ∷ []
  put zero v (x ∷ xs) = v ∷ xs
  put (suc tick) v (x ∷ xs) = x ∷ put tick v xs

  unfoldable pub put_all : ℕ → List V → List (List V) → List (List V)
  unfolding put
  put_all tick [] rows = rows
  put_all tick (v ∷ vs) [] = []
  put_all tick (v ∷ vs) (row ∷ rows) = put tick v row ∷ put_all tick vs rows

  unfoldable pub all_reach : ℕ → List (List V) → Bool
  all_reach tick [] = true
  all_reach tick (row ∷ rows) = leb tick (length row) && all_reach tick rows

  -- `min(len(row) for row in rows) <= tick`, for rows that are not empty
  unfoldable pub some_ends : ℕ → List (List V) → Bool
  some_ends tick [] = false
  some_ends tick (row ∷ rows) = leb (length row) tick || some_ends tick rows

  unfoldable pub empty_row : V → ℕ → List V
  empty_row empty zero = []
  empty_row empty (suc n) = empty ∷ empty_row empty n

  unfoldable pub empty_rows : V → ℕ → List ℕ → List (List V)
  unfolding empty_row
  empty_rows empty n [] = []
  empty_rows empty n (s ∷ ss) = empty_row empty n ∷ empty_rows empty n ss

  -- `rows[index][tick] = result`, where the row has the tick
  unfoldable pub write : ℕ → V → List V → List V
  write tick v [] = []
  write zero v (x ∷ xs) = v ∷ xs
  write (suc tick) v (x ∷ xs) = x ∷ write tick v xs

  unfoldable pub write_row : ℕ → ℕ → V → List (List V) → List (List V)
  unfolding write
  write_row index tick v [] = []
  write_row zero tick v (row ∷ rows) = write tick v row ∷ rows
  write_row (suc index) tick v (row ∷ rows) = row ∷ write_row index tick v rows

  -- the results of `get_all_tick_info`: a tick, the index of a service, a value
  unfoldable pub write_results : List (ℕ × ℕ × V) → List (List V) → List (List V)
  unfolding write_row
  write_results [] rows = rows
  write_results ((tick, index, v) ∷ rs) rows = write_results rs (write_row index tick v rows)

  unfoldable pub can_update : List ℕ → ℕ → StatFile V → Bool
  unfolding all_reach
  can_update names tick file =
      same_names file.services names && length file.rows == length names && all_reach tick file.rows

  unfoldable pub recreate : V → List ℕ → ℕ → List (ℕ × ℕ × V) → StatFile V → StatFile V
  unfolding some_ends empty_rows write_results
  recreate empty names tick results file =
      let rows =
        if not (length file.rows == length names) || some_ends tick file.rows
        then empty_rows empty (tick + 1) names
        else file.rows in
      record {
        services = if ltb 0 tick then names else file.services;
        rows = write_results results rows;
      }

  abbrev with_names : List ℕ → StatFile V → StatFile V
  with_names names file = if length file.rows == 0 then record file { services = names } else file

  -- `update_file`, for a tick that is not negative
  unfoldable pub update_file : V → List ℕ → ℕ → List V → List (ℕ × ℕ × V) → StatFile V → StatFile V
  unfolding can_update put_all recreate
  update_file empty names tick single all file =
      let f = with_names names file in
      if can_update names tick f
      then record f { rows = put_all tick single f.rows }
      else recreate empty names tick all f

module _ (F : Float) where
  open F use {Real, add, of_ℕ}

  abbrev points : TeamPointsLite F → Real
  points p = add (add p.off_points p.def_points) p.sla_points

  -- `TeamStatisticJsonGenerator.get_single_tick_info`
  unfoldable pub team_single_tick :
      Option ℕ → Bool → ℕ → List Service → TickInformation F → TickInformation F → List Real
  team_single_tick freeze scoreboard_freeze team [] info previous = []
  team_single_tick freeze scoreboard_freeze team (s ∷ ss) info previous =
      points (
        if scoreboard_freeze && is_frozen freeze info.ticknumber true
        then previous.team_points team s.id
        else info.team_points team s.id)
      ∷ team_single_tick freeze scoreboard_freeze team ss info previous

  -- a row of the table of points, for one team
  pub record PointsRow : Type 0 where
    pub tick : ℕ
    pub service_index : ℕ
    pub off_points : Real
    pub def_points : Real
    pub sla_points : Real

  -- `TeamStatisticJsonGenerator.get_all_tick_info`: the results of its loop are not returned.
  unfoldable pub team_all_ticks : Option ℕ → Bool → ℕ → List PointsRow → List (ℕ × ℕ × Real)
  team_all_ticks freeze scoreboard_freeze max_tick [] = []
  team_all_ticks freeze scoreboard_freeze max_tick (p ∷ ps) =
      let rest = team_all_ticks freeze scoreboard_freeze max_tick ps in
      if leb p.tick max_tick
      then (p.tick, p.service_index, add (add p.off_points p.def_points) p.sla_points) ∷ rest
      else rest

-- The numbers of attackers and victims; `none` is a question mark.
pub record Stat : Type 0 where
  pub a : Option ℕ
  pub v : Option ℕ

-- `ServiceStatisticJsonGenerator.get_single_tick_info`
unfoldable pub service_single_tick :
    (F : Float) → Option ℕ → Bool → List Service → TickInformation F → TickInformation F → List Stat
service_single_tick F freeze scoreboard_freeze [] info previous = []
service_single_tick F freeze scoreboard_freeze (s ∷ ss) info previous =
    (if scoreboard_freeze && is_frozen freeze info.ticknumber true
      then record { a = none; v = none }
      else record {
        a = some (attackers F s.id info previous);
        v = some (victims F s.id info previous);
      })
    ∷ service_single_tick F freeze scoreboard_freeze ss info previous

-- a row of the table of points, with the counts of flags
pub record CountsRow : Type 0 where
  pub tick : ℕ
  pub team_id : ℕ
  pub service_index : ℕ
  pub captured : ℕ
  pub stolen : ℕ

-- `lookup`: the last row of a tick, a team and a service stays
unfoldable pub lookup : ℕ → ℕ → ℕ → List CountsRow → Option (ℕ × ℕ)
lookup tick team service [] = none
lookup tick team service (r ∷ rs) = elim (lookup tick team service rs) [
  | some c ↦ some c
  | none ↦
      if r.tick == tick && r.team_id == team && r.service_index == service
      then some (r.captured, r.stolen)
      else none
]

-- `.filter(0 <= TeamPoints.tick, TeamPoints.tick <= max_tick)`
unfoldable pub up_to : ℕ → List CountsRow → List CountsRow
up_to max_tick [] = []
up_to max_tick (r ∷ rs) =
    let rest = up_to max_tick rs in if leb r.tick max_tick then r ∷ rest else rest

-- The counts of a tick and a service after the loop: the comparison is with the same tick.
abbrev pub is_more : ℕ × ℕ → CountsRow → Bool × Bool
is_more (captured, stolen) r = (ltb captured r.captured, ltb stolen r.stolen)

abbrev count : Bool → ℕ
count true = 1
count false = 0

unfoldable pub service_tick : Option ℕ → Bool → List CountsRow → ℕ → ℕ → List CountsRow → ℕ × ℕ
unfolding lookup
service_tick freeze scoreboard_freeze all tick service [] = (0, 0)
service_tick freeze scoreboard_freeze all tick service (r ∷ rs) =
    let (a, v) = service_tick freeze scoreboard_freeze all tick service rs in
    let skips =
      not (r.tick == tick && r.service_index == service)
      || scoreboard_freeze && is_frozen freeze (pos r.tick) true in
    elim (lookup r.tick r.team_id r.service_index all) [
      | none ↦ (a, v)
      | some last ↦
          if skips then (a, v) else (count (is_more last r).0 + a, count (is_more last r).1 + v)
    ]

-- `ServiceStatisticJsonGenerator.get_all_tick_info`, for a tick and a service
unfoldable pub service_all_ticks : Option ℕ → Bool → ℕ → List CountsRow → ℕ → ℕ → ℕ × ℕ
unfolding service_tick up_to
service_all_ticks freeze scoreboard_freeze max_tick table tick service =
    let rows = up_to max_tick table in service_tick freeze scoreboard_freeze rows tick service rows
