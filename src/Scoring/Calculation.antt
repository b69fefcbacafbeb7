-- ===== src/Scoring/Calculation.antt =====
-- controlserver/scoring/scoring.py: `ScoringCalculation`, the calculation of a tick on the database.
-- The tables are lists of their rows. An exception ends the session without a commit. The decorator
-- that tries a second time after an SQL error is left out.
pub mod Submissions
pub mod Stored
pub mod Captures
pub mod Marks
pub mod Ticks
mod Examples
use saarctf_gameserver.Prelude.{
  ℕ, zero, suc, ◌+◌, ◌-◌, ◌*◌, ◌≡◌, Bool, true, false, not, ◌&&◌, ◌||◌, ◌==◌, ltb, leb, Option,
  none, some, if◌then◌else◌, List, [], ◌∷◌, ◌++◌, length, map,
}
use saarctf_gameserver.Scoring.Float.{Float}
use saarctf_gameserver.Scoring.Points.{
  Status, revoked, SubmittedFlag, same_flag, StolenFlag, Service, TeamPoints, has_key, lookup,
  empty_points, Algorithm,
}
use saarctf_gameserver.Scoring.Ranking.{TeamRanking, order_by_points}
use saarctf_gameserver.Scoring.Tick.{
  add_id, contains_id, new_results_for_tick, calculate_scoring_for_tick,
}
use saarctf_gameserver.Scoring.FirstBlood.{Mark, record_first_bloods}

-- a submission of the same flag in a tick before this one, as far back as flags are valid
abbrev pub is_previous : ℕ → ℕ → SubmittedFlag → SubmittedFlag → Bool
is_previous valid tick f g =
    same_flag f g && (ltb g.tick_submitted tick && leb tick (g.tick_submitted + valid + 2))

abbrev pub is_current : ℕ → SubmittedFlag → SubmittedFlag → Bool
is_current tick f g = same_flag f g && g.tick_submitted == tick

-- `count(distinct(sf2.id))` and `count(distinct(sf3.id))`: the ids of rows are distinct
unfoldable pub count_previous : ℕ → ℕ → SubmittedFlag → List SubmittedFlag → ℕ
count_previous valid tick f [] = 0
count_previous valid tick f (g ∷ db) =
    let rest = count_previous valid tick f db in
    if is_previous valid tick f g then suc rest else rest

unfoldable pub count_current : ℕ → SubmittedFlag → List SubmittedFlag → ℕ
count_current tick f [] = 0
count_current tick f (g ∷ db) =
    let rest = count_current tick f db in if is_current tick f g then suc rest else rest

-- the distinct `sf2.submitted_by` of the rows that are joined
unfoldable pub previous_submitters : ℕ → ℕ → SubmittedFlag → List SubmittedFlag → List ℕ
previous_submitters valid tick f [] = []
previous_submitters valid tick f (g ∷ db) =
    let rest = previous_submitters valid tick f db in
    if is_previous valid tick f g then add_id g.submitted_by rest else rest

-- `array_agg`: without a row the outer join has one of NULLs.
unfoldable pub array_agg : List ℕ → List (Option ℕ)
array_agg [] = none ∷ []
array_agg (t ∷ ts) = map (λ i. some i) (t ∷ ts)

-- `order_by(sf1.ts, sf1.tick_submitted, sf1.id)`, for flags of one tick
abbrev pub is_earlier : SubmittedFlag → SubmittedFlag → Bool
is_earlier f g = ltb f.ts g.ts || (f.ts == g.ts && leb f.id g.id)

unfoldable pub insert_flag : SubmittedFlag → List SubmittedFlag → List SubmittedFlag
insert_flag f [] = f ∷ []
insert_flag f (g ∷ gs) = if is_earlier f g then f ∷ g ∷ gs else g ∷ insert_flag f gs

unfoldable pub flags_of_tick : ℕ → List SubmittedFlag → List SubmittedFlag
flags_of_tick tick [] = []
flags_of_tick tick (f ∷ db) =
    let rest = flags_of_tick tick db in
    if f.tick_submitted == tick then insert_flag f rest else rest

-- one entry of `_get_submitted_flags`
unfoldable pub to_stolen_flag : ℕ → ℕ → List SubmittedFlag → SubmittedFlag → StolenFlag
to_stolen_flag valid tick db f = record {
  flag = f;
  num_previous_submissions = count_previous valid tick f db;
  num_submissions = count_current tick f db;
  previous_submitter_ids = array_agg (previous_submitters valid tick f db);
}

unfoldable pub get_submitted_flags : ℕ → ℕ → List SubmittedFlag → List StolenFlag
get_submitted_flags valid tick db = map (to_stolen_flag valid tick db) (flags_of_tick tick db)

pub record CheckerResult : Type 0 where
  pub tick : ℕ
  pub team_id : ℕ
  pub service_id : ℕ
  pub status : Status

-- `_get_checker_results`: revoked, where there is no result
unfoldable pub get_checker_results : ℕ → List CheckerResult → ℕ → ℕ → Status
get_checker_results tick [] t s = revoked
get_checker_results tick (r ∷ rs) t s =
    if r.tick == tick && (r.team_id == t && r.service_id == s)
    then r.status
    else get_checker_results tick rs t s

-- the rank of a team after a tick, in the table
pub record Rank : Type 0 where
  pub tick : ℕ
  pub team_id : ℕ
  pub rank : ℕ

-- `_ranking_for_last_ticks`: the ticks from `tick - valid - 1` on
unfoldable pub ranking_for_last_ticks : ℕ → ℕ → List Rank → ℕ → ℕ → Option ℕ
ranking_for_last_ticks valid tick [] t i = none
ranking_for_last_ticks valid tick (r ∷ rs) t i =
    if r.tick == t && (r.team_id == i && (ltb t tick && leb tick (t + valid + 1)))
    then some r.rank
    else ranking_for_last_ticks valid tick rs t i

module _ (F : Float) where
  open F use {Real, of_ℕ, add}

  pub record Database : Type 0 where
    pub team_ids : List ℕ
    pub services : List (Service F)
    pub flags : List SubmittedFlag
    pub checker_results : List CheckerResult
    pub points : List (TeamPoints F)
    pub ranking : List Rank

  -- the rows of a tick, and the others
  unfoldable pub points_of_tick : ℕ → List (TeamPoints F) → List (TeamPoints F)
  points_of_tick tick [] = []
  points_of_tick tick (p ∷ ps) =
      let rest = points_of_tick tick ps in if p.tick == tick then p ∷ rest else rest

  unfoldable pub points_of_others : ℕ → List (TeamPoints F) → List (TeamPoints F)
  points_of_others tick [] = []
  points_of_others tick (p ∷ ps) =
      let rest = points_of_others tick ps in if p.tick == tick then rest else p ∷ rest

  -- `efficient_insert` writes the number of the tick
  unfoldable pub with_tick : ℕ → List (TeamPoints F) → List (TeamPoints F)
  with_tick tick [] = []
  with_tick tick (p ∷ ps) = record p { tick = tick } ∷ with_tick tick ps

  -- `_save_teampoints`
  unfoldable pub save_teampoints : ℕ → List (TeamPoints F) → Database → Database
  save_teampoints tick ps db = record db {
    points = points_of_others tick db.points ++ with_tick tick ps;
  }

  -- `_sla_delta_for`, and the default for a team without a row
  unfoldable pub sla_delta_for : List (TeamPoints F) → ℕ → ℕ → ℕ → Real
  sla_delta_for [] s tick t = of_ℕ 0
  sla_delta_for (p ∷ ps) s tick t =
      if p.service_id == s && (p.tick == tick && p.team_id == t)
      then p.sla_delta
      else sla_delta_for ps s tick t

  -- the points of tick 0
  unfoldable pub default_points : Database → List (TeamPoints F)
  default_points db = new_results_for_tick F 0 db.team_ids db.services

  -- The algorithm for the first blood, with its cache.
  pub record FirstBloodAlgorithm : Type 1 where
    pub Cache : Type 0
    pub reset_caches : Cache
    pub get_firstbloods :
        List SubmittedFlag → List SubmittedFlag → Cache → Option (List Mark × Cache)

  -- `flags_rounds_valid`, and the algorithm for the points that the factory builds
  module _ (fb : FirstBloodAlgorithm) (valid : ℕ)
      (algorithm : List ℕ → List (Service F) → List StolenFlag → Algorithm F) where
    -- the database as it is committed, the cache, and whether there was an exception
    pub record World : Type 0 where
      pub database : Database
      pub cache : fb.Cache
      pub failed : Bool

    unfoldable pub fail : World → World
    fail w = record w { cache = fb.reset_caches; failed = true }

    abbrev pub commit : ℕ → List (TeamPoints F) → List Mark → fb.Cache → World → World
    commit tick ps marks cache w = record w {
      database =
          save_teampoints tick ps
            (record w.database { flags = record_first_bloods marks w.database.flags });
      cache = cache;
    }

    -- the part under `try`, with the points of the tick before
    unfoldable pub compute : ℕ → List (TeamPoints F) → World → World
    compute tick last w =
        let db = w.database in
        let flags = get_submitted_flags valid tick db.flags in
        let points =
          calculate_scoring_for_tick F (algorithm db.team_ids db.services flags) tick db.team_ids
            db.services (sla_delta_for db.points) (get_checker_results tick db.checker_results) last
            (ranking_for_last_ticks valid tick db.ranking) flags in
        elim (fb.get_firstbloods db.flags (map (λ sf. sf.flag) flags) w.cache) [
          | none ↦ fail w
          | some (marks, cache) ↦ elim points [
            | none ↦ fail w
            | some ps ↦ commit tick ps marks cache w
          ]
        ]

    -- the rows of a tick, if there are enough of them
    abbrev pub is_complete : ℕ → Database → Bool
    is_complete tick db =
        leb (length db.team_ids * length db.services) (length (points_of_tick tick db.points))

    -- the results in the table, or those of tick 0
    unfoldable pub stored_results : ℕ → Database → List (TeamPoints F)
    stored_results zero db = default_points db
    stored_results (suc t) db = points_of_tick (suc t) db.points

    -- `_calculate_scoring_for_tick` for the tick after `t`, once the results of `t` are there
    unfoldable pub compute_after : ℕ → World → World
    compute_after t w = if w.failed then w else compute (suc t) (stored_results t w.database) w

    -- `_get_results_for_tick_lite` calculates a tick that is not complete, and for that the ticks
    -- before it; the results are then in the table.
    unfoldable pub get_results_for_tick : ℕ → World → World
    get_results_for_tick zero w = w
    get_results_for_tick (suc t) w =
        let before = get_results_for_tick t w in
        if is_complete (suc t) w.database then w else compute_after t before

    unfoldable pub calculate_after : ℕ → World → World
    calculate_after t w = compute_after t (get_results_for_tick t w)

  -- `calculate_ranking_per_tick`: the points of a team are the sum over its services
  unfoldable pub sum_points : ℕ → List (TeamPoints F) → Real → Real
  sum_points t [] sum = sum
  sum_points t (p ∷ ps) sum =
      sum_points t ps
        (if p.team_id == t then add sum (add (add p.off_points p.def_points) p.sla_points) else sum)

  unfoldable pub team_rankings : List ℕ → List (TeamPoints F) → List (TeamRanking F)
  team_rankings [] ps = []
  team_rankings (t ∷ ts) ps =
      record { team_id = t; points = sum_points t ps (of_ℕ 0); rank = 0 } ∷ team_rankings ts ps

  unfoldable pub ranks_of_others : ℕ → List Rank → List Rank
  ranks_of_others tick [] = []
  ranks_of_others tick (r ∷ rs) =
      let rest = ranks_of_others tick rs in if r.tick == tick then rest else r ∷ rest

  unfoldable pub calculate_ranking : ℕ → List (TeamPoints F) → Database → Database
  calculate_ranking tick results db = record db {
    ranking =
        ranks_of_others tick db.ranking
        ++ map (λ r. record { tick = tick; team_id = r.team_id; rank = r.rank })
            (order_by_points F (team_rankings db.team_ids results));
  }
