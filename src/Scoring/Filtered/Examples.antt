-- ===== src/Scoring/Filtered/Examples.antt =====
-- Tests of the filtered ranking, and the theorem on it at a concrete input.
use saarctf_gameserver.Prelude.{
  ℕ, ◌≡◌, refl, Bool, true, false, ◌==◌, List, [], ◌∷◌, map, All, arith, pos, ◌+◌,
}
use saarctf_gameserver.Scoring.Samples.{numbers}
use saarctf_gameserver.Scoring.Ranking.{TeamRanking}
use saarctf_gameserver.Scoring.Filtered.{
  get_considered_teams, get_results_for_tick_lite, sort_by_rank, nop_points, with_rank,
  get_ranking_for_tick,
}
use saarctf_gameserver.Scoring.Filtered.Sorted.{smaller}
use saarctf_gameserver.Scoring.Filtered.Gaps.{IsApart, kept, get_ranking_for_tick-IsRanked}

abbrev row : ℕ → ℕ → ℕ → TeamRanking numbers
row team_id points rank = record { team_id = team_id; points = points; rank = rank }

abbrev rows : List (TeamRanking numbers)
rows = row 3 9 1 ∷ row 1 5 2 ∷ row 4 2 3 ∷ row 2 2 3 ∷ []

abbrev is_nop : ℕ → Bool
is_nop t = t == 1

ranking_test :
    get_ranking_for_tick numbers is_nop true 1 rows
    ≡ record { team_id = 3; points = 4; rank = pos 1 }
      ∷ record { team_id = 4; points = 0; rank = pos 2 }
      ∷ record { team_id = 2; points = 0; rank = pos 2 }
      ∷ []
unfolding get_ranking_for_tick
ranking_test = refl

teams_test : get_considered_teams is_nop (1 ∷ 2 ∷ 3 ∷ []) ≡ 2 ∷ 3 ∷ []
unfolding get_considered_teams
teams_test = refl

results_test :
    get_results_for_tick_lite {V = ℕ} is_nop (((1, 5), 7) ∷ ((2, 5), 8) ∷ []) ≡ ((2, 5), 8) ∷ []
unfolding get_results_for_tick_lite
results_test = refl

-- Before the first tick all teams are tied.
tie_test :
    get_ranking_for_tick numbers is_nop false 1 (row 1 0 1 ∷ row 2 0 1 ∷ [])
    ≡ record { team_id = 2; points = 0; rank = pos 0 } ∷ []
unfolding get_ranking_for_tick
tie_test = refl

-- A team that stays, and the NOP team, whose rank no other team has.
stays :
    (team_id points rank : ℕ)
    → is_nop team_id ≡ false
    → All (IsApart numbers is_nop (row team_id points rank)) rows
stays team_id points rank h = (no, (no, (no, (no, tt))))
  where
    no : {P : Type 0} → is_nop team_id ≡ true → P
    no e = absurd (ground (arith, h, e))

nop : All (IsApart numbers is_nop (row 1 5 2)) rows
nop = (
  (λ _ _ e. omega (arith, e)),
  ((λ _ f _. ground (arith, f)), ((λ _ _ e. omega (arith, e)), ((λ _ _ e. omega (arith, e)), tt))),
)

get_ranking_for_tick-IsRanked_example :
    get_ranking_for_tick numbers is_nop true 1 rows
    ≡ map
        (λ r.
          with_rank numbers is_nop
            (nop_points numbers 1 (sort_by_rank numbers rows))
            (pos (smaller numbers r.rank (kept numbers is_nop (sort_by_rank numbers rows)) + 1))
            r)
        (kept numbers is_nop (sort_by_rank numbers rows))
get_ranking_for_tick-IsRanked_example =
    get_ranking_for_tick-IsRanked numbers is_nop true 1 rows (refl, (refl, (refl, (refl, tt))))
      (stays 3 9 1 refl, (nop, (stays 4 2 3 refl, (stays 2 2 3 refl, tt))))
