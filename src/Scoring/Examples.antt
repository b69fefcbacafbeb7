-- ===== src/Scoring/Examples.antt =====
-- The theorems on the points and ranks of controlserver/scoring at concrete inputs.
use saarctf_gameserver.Prelude.{◌+◌, ◌≡◌, refl, none, some, List, [], ◌∷◌, arith, All, Returns, map}
use mathlib.Core.List.{Perm}
use saarctf_gameserver.Scoring.Points.{success, empty_points}
use saarctf_gameserver.Scoring.Ranking.{TeamRanking, order_by_points}
use saarctf_gameserver.Scoring.Ranking.Order.{better, IsSorted}
use saarctf_gameserver.Scoring.Ranking.Ranks.{entry, order_by_points-IsRanked}
use saarctf_gameserver.Scoring.Tick.{calculate_scoring_for_tick}
use saarctf_gameserver.Scoring.Tick.Counts.{captures, losses}
use saarctf_gameserver.Scoring.Tick.Result.{IsCounted, calculate_scoring_for_tick-IsCounted}
use saarctf_gameserver.Scoring.Tick.Availability.{total}
use saarctf_gameserver.Scoring.Tick.Sla.{sla_gain, calculate_scoring_for_tick-sla}
use saarctf_gameserver.Scoring.Algorithms.{
  saarctf_algorithm, happy_hour_algorithm, off_points, off_formula,
}
use saarctf_gameserver.Scoring.Samples.{
  numbers, numbers-IsOrdered, config, submission, stolen_flag, flags, services, team_ids,
  first_tick, program,
}

-- two teams with equal points, one with fewer, and one without any
abbrev teams : List (TeamRanking numbers)
teams =
    record { team_id = 1; points = 5; rank = 0 }
    ∷ record { team_id = 2; points = 0; rank = 0 }
    ∷ record { team_id = 3; points = 7; rank = 0 }
    ∷ record { team_id = 4; points = 7; rank = 0 }
    ∷ []

order_by_points-IsRanked_example :
    IsSorted numbers numbers-IsOrdered (order_by_points numbers teams)
    × Perm (map (entry numbers) (order_by_points numbers teams)) (map (entry numbers) teams)
    × All (λ r. r.rank ≡ better numbers r.points teams + 1) (order_by_points numbers teams)
order_by_points-IsRanked_example = order_by_points-IsRanked numbers numbers-IsOrdered teams

calculate_scoring_for_tick-IsCounted_example :
    Returns (IsCounted numbers team_ids services first_tick flags) (
      calculate_scoring_for_tick numbers
        (saarctf_algorithm numbers config)
        2
        team_ids
        services
        (λ s t i. 0)
        (λ t s. success)
        first_tick
        (λ t i. some 1)
        flags)
unfolding program
calculate_scoring_for_tick-IsCounted_example =
    calculate_scoring_for_tick-IsCounted numbers (saarctf_algorithm numbers config) 2 team_ids
      services (λ s t i. 0) (λ t s. success) first_tick (λ t i. some 1) flags
      (λ t s ht hs. ground (arith, ht, hs))
      (
        record { attacker = refl; victim = refl; service = refl; counted = refl },
        (
          record { attacker = refl; victim = refl; service = refl; counted = refl },
          (record { attacker = refl; victim = refl; service = refl; counted = refl }, tt),
        ),
      )

-- team 2 captured two flags, and team 1 lost one, that was submitted twice
counted_flags : (captures numbers 2 1 flags ≡ 2) × (losses numbers 1 1 [] flags ≡ 1)
unfolding program
counted_flags = (refl, refl)

-- A flag of tick 1 with one submission before and two now, stolen from the team on rank 1.
happy_hour_test :
    (happy_hour_algorithm numbers config).off_points_previous
      (stolen_flag (submission 2 3 1 0 3) 1 2 (some 2 ∷ []))
      1
    ≡ some (
        (happy_hour_algorithm numbers config).off_points
          (stolen_flag (submission 1 2 1 0 2) 0 1 (none ∷ []))
          1)
unfolding happy_hour_algorithm off_points off_formula
happy_hour_test = refl

calculate_scoring_for_tick-sla_example :
    Returns
      (λ ps.
        total numbers (saarctf_algorithm numbers config) 1 1 ps
        ≡ some (
            numbers.add (empty_points numbers 1 1 1).sla_points (
              sla_gain numbers
                (saarctf_algorithm numbers config)
                2
                team_ids
                services
                (λ s t i. 0)
                (λ t s. success)
                first_tick
                (λ t i. some 1)
                1
                1)))
      (calculate_scoring_for_tick numbers
        (saarctf_algorithm numbers config)
        2
        team_ids
        services
        (λ s t i. 0)
        (λ t s. success)
        first_tick
        (λ t i. some 1)
        flags)
unfolding program
calculate_scoring_for_tick-sla_example =
    calculate_scoring_for_tick-sla numbers (saarctf_algorithm numbers config) 2 team_ids services
      (λ s t i. 0) (λ t s. success) first_tick (λ t i. some 1) 1 1 (empty_points numbers 1 1 1)
      flags (λ t s ht hs. ground (arith, ht, hs))
      (
        record { attacker = refl; victim = refl; service = refl; counted = refl },
        (
          record { attacker = refl; victim = refl; service = refl; counted = refl },
          (record { attacker = refl; victim = refl; service = refl; counted = refl }, tt),
        ),
      )
      refl refl refl
