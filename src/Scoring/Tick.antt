-- ===== src/Scoring/Tick.antt =====
-- controlserver/scoring/algorithms/algorithm.py: `ScoreTickAlgorithmBase`, the points of one tick.
-- A `KeyError` in the work on a flag ends that work and keeps what was done; `none` is any other
-- exception, which ends the calculation. Divisions by zero are not modelled.
pub mod Counts
pub mod Steps
pub mod Flags
pub mod Totals
pub mod Result
pub mod Availability
pub mod Sla
use saarctf_gameserver.Prelude.{
  ℕ, zero, suc, ◌+◌, ◌≡◌, Bool, true, false, not, ◌&&◌, ◌||◌, ◌==◌, max, Option, none, some,
  if◌then◌else◌, List, [], ◌∷◌, ◌++◌, length, map,
}
use saarctf_gameserver.Scoring.Float.{Float}
use saarctf_gameserver.Scoring.Points
use saarctf_gameserver.Scoring.Points.{
  Status, success, flagmissing, recovering, SubmittedFlag, was_seen, StolenFlag, Service,
  TeamPoints, contains, lookup, update, empty_points, Algorithm,
}

abbrev pub contains_id : List ℕ → ℕ → Bool
contains_id [] i = false
contains_id (j ∷ js) i = j == i || contains_id js i

-- `set.add`
abbrev pub add_id : ℕ → List ℕ → List ℕ
add_id i ids = if contains_id ids i then ids else i ∷ ids

abbrev pub is_active_status : Status → Bool
is_active_status success = true
is_active_status flagmissing = true
is_active_status recovering = true
is_active_status _ = false

-- `team_rank_in_tick.get((tick_issued - 1, team), n)`: no ranking is before tick 0.
abbrev pub rank_when_issued : (ℕ → ℕ → Option ℕ) → SubmittedFlag → ℕ → ℕ
rank_when_issued ranks f n = rank_before f.tick_issued
  where
    or_else : Option ℕ → ℕ
    or_else none = n
    or_else (some r) = r

    rank_before : ℕ → ℕ
    rank_before zero = n
    rank_before (suc t) = or_else (ranks t f.team_id)

module _ (F : Float) where
  open F use {Real, of_ℕ, add, sub, mul, div, sqrt, lt}

  -- `_new_results_for_tick`; the ids are keys of the database, and do not repeat
  unfoldable pub new_results_for_team : ℕ → ℕ → List (Service F) → List (TeamPoints F)
  new_results_for_team tick t [] = []
  new_results_for_team tick t (s ∷ ss) = empty_points F t s.id tick ∷ new_results_for_team tick t ss

  unfoldable pub new_results_for_tick : ℕ → List ℕ → List (Service F) → List (TeamPoints F)
  new_results_for_tick tick [] ss = []
  new_results_for_tick tick (t ∷ ts) ss =
      new_results_for_team tick t ss ++ new_results_for_tick tick ts ss

  module _ (A : Algorithm F) where
    -- `_calculate_sla`: the two loops
    unfoldable pub sla_deltas : ℕ → (ℕ → ℕ → Status) → List (TeamPoints F) → List (TeamPoints F)
    sla_deltas tick results [] = []
    sla_deltas tick results (p ∷ ps) =
        record p {
          sla_delta = mul (A.points_for_sla tick (results p.team_id p.service_id)) A.sla_factor;
        }
        ∷ sla_deltas tick results ps

    unfoldable pub active_team_ids : ℕ → (ℕ → ℕ → Status) → List (TeamPoints F) → List ℕ → List ℕ
    active_team_ids tick results [] ids = ids
    active_team_ids tick results (p ∷ ps) ids =
        let st = results p.team_id p.service_id in
        active_team_ids tick results ps (
          if lt (of_ℕ 0) (A.points_for_sla tick st) || is_active_status st
          then add_id p.team_id ids
          else ids)

    unfoldable pub num_active_teams : ℕ → (ℕ → ℕ → Status) → List (TeamPoints F) → ℕ
    num_active_teams tick results ps = max 1 (length (active_team_ids tick results ps []))

    unfoldable pub scale : Real → List (TeamPoints F) → List (TeamPoints F)
    scale factor [] = []
    scale factor (p ∷ ps) = record p { sla_delta = mul p.sla_delta factor } ∷ scale factor ps

    unfoldable pub calculate_sla : ℕ → (ℕ → ℕ → Status) → List (TeamPoints F) → List (TeamPoints F)
    calculate_sla tick results ps =
        scale (sqrt (of_ℕ (num_active_teams tick results ps))) (sla_deltas tick results ps)

    -- What the loop over the flags changes: the points, and the flags seen in this tick.
    pub record Board : Type 0 where
      pub points : List (TeamPoints F)
      pub seen : List SubmittedFlag

    -- `_flag_stolen_attacker`
    unfoldable pub flag_stolen_attacker :
        StolenFlag → Real → ℕ → List (TeamPoints F) → List (TeamPoints F)
    flag_stolen_attacker sf per_tick rank ps =
        update F sf.flag.submitted_by sf.flag.service_id
          (λ p. record p {
            flag_captured_count = p.flag_captured_count + 1;
            off_points = add p.off_points (mul (div (A.off_points sf rank) per_tick) A.off_factor);
          })
          ps

    -- `_flag_stolen_victim`, with the victim's SLA when the flag was issued
    unfoldable pub flag_stolen_victim :
        StolenFlag → Real → ℕ → Real → List (TeamPoints F) → List (TeamPoints F)
    flag_stolen_victim sf per_tick active sla ps =
        let damage = sub (A.def_points sf active sla) (A.def_points_previous sf active sla) in
        update F sf.flag.team_id sf.flag.service_id
          (λ p. record p {
            def_points = sub p.def_points (mul (div damage per_tick) A.def_factor);
            flag_stolen_count =
                if sf.num_previous_submissions == 0
                then p.flag_stolen_count + 1
                else p.flag_stolen_count;
          })
          ps

    abbrev pub add_off : Real → TeamPoints F → TeamPoints F
    add_off delta p = record p { off_points = add p.off_points delta }

    -- The loop of `_flag_stolen_previous_attackers`; a team without points, or a NULL, ends it by a
    -- `KeyError`.
    unfoldable pub correct : ℕ → Real → List (Option ℕ) → List (TeamPoints F) → List (TeamPoints F)
    correct s delta [] ps = ps
    correct s delta (none ∷ ts) ps = ps
    correct s delta (some t ∷ ts) ps =
        let rest = correct s delta ts (update F t s (add_off delta) ps) in
        if contains F t s ps then rest else ps

    unfoldable pub flag_stolen_previous_attackers : StolenFlag → Real → ℕ → Board → Option Board
    flag_stolen_previous_attackers sf per_tick rank b =
        let points = λ (old : Real).
          correct sf.flag.service_id
            (mul (div (sub (A.off_points sf rank) old) per_tick) A.off_factor)
            sf.previous_submitter_ids b.points in
        if sf.num_previous_submissions == 0
        then some b
        else if length sf.previous_submitter_ids == sf.num_previous_submissions
        then elim (A.off_points_previous sf rank) [
          | none ↦ some b
          | some old ↦ some (record b { points = points old })
        ]
        else none

    -- what the loop reads
    pub record Context : Type 0 where
      pub num_active : ℕ
      pub flags_per_tick : ℕ → Option Real
      pub victim_rank : SubmittedFlag → ℕ
      pub victim_sla : SubmittedFlag → List (TeamPoints F) → Real

    module _ (c : Context) where
      unfoldable pub steal_from_victim : StolenFlag → Real → Board → Option Board
      steal_from_victim sf per_tick b =
          let f = sf.flag in
          let sla = c.victim_sla f b.points in
          let b1 = record b { seen = f ∷ b.seen } in
          let b2 = record b1 {
            points = flag_stolen_victim sf per_tick c.num_active sla b.points;
          } in
          if contains F f.team_id f.service_id b.points
          then flag_stolen_previous_attackers sf per_tick (c.victim_rank f) b2
          else some b1

      unfoldable pub steal : StolenFlag → Real → Board → Option Board
      steal sf per_tick b =
          let f = sf.flag in
          let b1 = record b {
            points = flag_stolen_attacker sf per_tick (c.victim_rank f) b.points;
          } in
          if contains F f.submitted_by f.service_id b.points
          then (if was_seen b.seen f then some b1 else steal_from_victim sf per_tick b1)
          else some b

      -- the body of the loop, for a service that there is
      unfoldable pub process_flag : StolenFlag → Board → Option Board
      process_flag sf b = elim (c.flags_per_tick sf.flag.service_id) [
        | none ↦ some b
        | some per_tick ↦ steal sf per_tick b
      ]

      unfoldable pub process_flags : List StolenFlag → Board → Option Board
      process_flags [] b = some b
      process_flags (sf ∷ sfs) b = elim (process_flag sf b) [
        | none ↦ none
        | some b' ↦ process_flags sfs b'
      ]

    -- step 4: the points of the previous tick are added
    unfoldable pub add_last : TeamPoints F → TeamPoints F → TeamPoints F
    add_last lr p = record p {
      off_points = add p.off_points lr.off_points;
      def_points = add p.def_points lr.def_points;
      sla_points = add lr.sla_points p.sla_delta;
      flag_captured_count = p.flag_captured_count + lr.flag_captured_count;
      flag_stolen_count = p.flag_stolen_count + lr.flag_stolen_count;
    }

    unfoldable pub add_last_tick :
        List (TeamPoints F) → List (TeamPoints F) → Option (List (TeamPoints F))
    add_last_tick last [] = some []
    add_last_tick last (p ∷ ps) =
        let rest = add_last_tick last ps in
        elim (lookup F p.team_id p.service_id last) [
          | none ↦ none
          | some lr ↦ elim rest [ none ↦ none | some qs ↦ some (add_last lr p ∷ qs) ]
        ]

    unfoldable pub find_flags_per_tick : List (Service F) → ℕ → Option Real
    find_flags_per_tick [] i = none
    find_flags_per_tick (s ∷ ss) i =
        if s.id == i then some s.flags_per_tick else find_flags_per_tick ss i

    -- `sla_delta_for`: what earlier ticks stored, and the points of this tick
    unfoldable pub sla_when_issued :
        ℕ → (ℕ → ℕ → ℕ → Real) → SubmittedFlag → List (TeamPoints F) → Real
    sla_when_issued tick stored f ps =
        if f.tick_issued == tick
        then elim (lookup F f.team_id f.service_id ps) [ none ↦ of_ℕ 0 | some p ↦ p.sla_delta ]
        else stored f.service_id f.tick_issued f.team_id

    unfoldable pub calculate_scoring_for_tick :
        (tick : ℕ) (team_ids : List ℕ) (services : List (Service F))
        → (stored_sla : ℕ → ℕ → ℕ → Real) → (results : ℕ → ℕ → Status)
        → (last : List (TeamPoints F)) → (ranks : ℕ → ℕ → Option ℕ) → List StolenFlag
        → Option (List (TeamPoints F))
    calculate_scoring_for_tick tick team_ids services stored_sla results last ranks flags =
        let fresh = new_results_for_tick tick team_ids services in
        let points = calculate_sla tick results fresh in
        let c : Context = record {
          num_active = num_active_teams tick results fresh;
          flags_per_tick = find_flags_per_tick services;
          victim_rank = λ f. rank_when_issued ranks f (length team_ids);
          victim_sla = sla_when_issued tick stored_sla;
        } in
        elim (process_flags c flags (record { points = points; seen = [] })) [
          | none ↦ none
          | some b ↦ add_last_tick last b.points
        ]
