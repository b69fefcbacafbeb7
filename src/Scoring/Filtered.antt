-- ===== src/Scoring/Filtered.antt =====
-- controlserver/scoring/filtered_scoring.py: FilteredScoringCalculation, as if some teams did not
-- exist. What ScoringCalculation returns is an argument, and the set of the teams is a test. Teams
-- are their ids, and results a dictionary in a list.
pub mod Sorted
pub mod Gaps
mod Examples
use saarctf_gameserver.Prelude.{
  ℕ, suc, ◌+◌, ◌==◌, Bool, true, false, not, leb, Option, none, some, if◌then◌else◌, List, [], ◌∷◌,
  ℤ, sub_ℕ,
}
use saarctf_gameserver.Scoring.Float.{Float}
use saarctf_gameserver.Scoring.Ranking.{TeamRanking}

abbrev filter {ℓ} : {A : Type ℓ} → (A → Bool) → List A → List A
filter p [] = []
filter p (x ∷ xs) = if p x then x ∷ filter p xs else filter p xs

unfoldable pub get_considered_teams : (ℕ → Bool) → List ℕ → List ℕ
get_considered_teams excluded teams = filter (λ t. not (excluded t)) teams

unfoldable pub get_results_for_tick_lite :
    {V : Type 0} → (ℕ → Bool) → List ((ℕ × ℕ) × V) → List ((ℕ × ℕ) × V)
get_results_for_tick_lite excluded points = filter (λ p. not (excluded p.0.0)) points

module _ (F : Float) where
  open F use {Real, of_ℕ, lt, sub}

  -- A row that is returned. Its rank can be below 1 when teams are tied.
  pub record FilteredRanking : Type 0 where
    pub team_id : ℕ
    pub points : Real
    pub rank : ℤ

  -- `rankings.sort(key=lambda r: r.rank)`
  unfoldable pub insert : TeamRanking F → List (TeamRanking F) → List (TeamRanking F)
  insert r [] = r ∷ []
  insert r (q ∷ qs) = if leb r.rank q.rank then r ∷ q ∷ qs else q ∷ insert r qs

  unfoldable pub sort_by_rank : List (TeamRanking F) → List (TeamRanking F)
  unfolding insert
  sort_by_rank [] = []
  sort_by_rank (r ∷ rs) = insert r (sort_by_rank rs)

  -- the points of the first row of the NOP team
  unfoldable pub nop_points : ℕ → List (TeamRanking F) → Real
  nop_points nop [] = of_ℕ 0
  nop_points nop (r ∷ rs) = if r.team_id == nop then r.points else nop_points nop rs

  -- `max(0, ranking.points - point_offset)`
  unfoldable pub subtract : Real → Real → Real
  subtract points offset = let x = sub points offset in if lt (of_ℕ 0) x then x else of_ℕ 0

  module _ (excluded : ℕ → Bool) where
    abbrev pub with_rank : Real → ℤ → TeamRanking F → FilteredRanking
    with_rank offset rank r = record {
      team_id = r.team_id;
      points = subtract r.points offset;
      rank = rank;
    }

    -- the loop, with the number of rows that were left out
    unfoldable pub leave_out : Real → ℕ → List (TeamRanking F) → List FilteredRanking
    unfolding subtract
    leave_out offset removed [] = []
    leave_out offset removed (r ∷ rs) =
        if excluded r.team_id
        then leave_out offset (removed + 1) rs
        else with_rank offset (sub_ℕ r.rank removed) r ∷ leave_out offset removed rs

    unfoldable pub get_ranking_for_tick : Bool → ℕ → List (TeamRanking F) → List FilteredRanking
    unfolding sort_by_rank nop_points leave_out
    get_ranking_for_tick subtract_nop_points nop_team_id rankings =
        let rows = sort_by_rank rankings in
        let offset = if subtract_nop_points then nop_points nop_team_id rows else of_ℕ 0 in
        leave_out offset 0 rows
