-- ===== src/Scoring/Calculation/Examples.antt =====
-- The theorems on the database of controlserver/scoring/scoring.py at concrete inputs.
use saarctf_gameserver.Prelude.{◌+◌, ◌≡◌, refl, false, some, List, [], arith, All}
use saarctf_gameserver.Scoring.Tick.{
  sla_deltas, active_team_ids, num_active_teams, scale, calculate_sla, flag_stolen_attacker,
  flag_stolen_victim, correct, flag_stolen_previous_attackers, steal_from_victim, steal,
  process_flag, process_flags, add_last, add_last_tick, find_flags_per_tick, sla_when_issued,
  calculate_scoring_for_tick,
}
use saarctf_gameserver.Scoring.Tick.Counts.{captured}
use saarctf_gameserver.Scoring.Algorithms.{
  sla_points, off_formula, off_points, off_points_previous, def_formula, def_points,
  def_points_previous, saarctf_algorithm,
}
use saarctf_gameserver.Scoring.Calculation.{
  compute_after, stored_results, default_points, get_submitted_flags, FirstBloodAlgorithm, World,
  compute, fail, flags_of_tick, insert_flag, to_stolen_flag, count_previous, count_current,
  previous_submitters, array_agg, get_checker_results, ranking_for_last_ticks, sla_delta_for,
  points_of_tick, points_of_others, with_tick, save_teampoints,
}
use saarctf_gameserver.Scoring.Calculation.Ticks.{
  submissions_up_to, calculate_ticks, calculate_ticks-captures,
}
use saarctf_gameserver.Scoring.Calculation.Captures.{submissions, compute-captures}
use saarctf_gameserver.Scoring.Calculation.Submissions.{IsStolen, get_submitted_flags-IsStolen}
use saarctf_gameserver.Scoring.Calculation.Stored.{points, IsStored, compute-IsStored}
use saarctf_gameserver.Scoring.FirstBlood.{record_first_blood, record_first_bloods}
use saarctf_gameserver.Scoring.FirstBlood.Default
use saarctf_gameserver.Scoring.FirstBlood.Default.{Entry, in_cache, new_cache, recomputed}
use saarctf_gameserver.Scoring.Samples.{
  numbers, config, services, team_ids, first_tick, program, submitted, two_payloads,
}

get_submitted_flags-IsStolen_example : All (IsStolen 10 2) (get_submitted_flags 10 2 submitted)
get_submitted_flags-IsStolen_example =
    get_submitted_flags-IsStolen 10 2 submitted (refl, (refl, (refl, tt)))

abbrev default_algorithm : FirstBloodAlgorithm numbers
default_algorithm = record {
  Cache = List Entry;
  reset_caches = [];
  get_firstbloods = λ db fs cache.
      some (Default.get_firstbloods two_payloads db fs cache, new_cache two_payloads db fs cache);
}

abbrev world : World numbers default_algorithm 10 (λ ts ss fs. saarctf_algorithm numbers config)
world = record {
  database = record {
    team_ids = team_ids;
    services = services;
    flags = submitted;
    checker_results = [];
    points = first_tick;
    ranking = [];
  };
  cache = [];
  failed = false;
}

compute-IsStored_example :
    IsStored numbers default_algorithm 10
      (λ ts ss fs. saarctf_algorithm numbers config)
      2
      first_tick
      world
      (points numbers default_algorithm 10
        (λ ts ss fs. saarctf_algorithm numbers config)
        2
        first_tick
        world)
      (compute numbers default_algorithm 10
        (λ ts ss fs. saarctf_algorithm numbers config)
        2
        first_tick
        world)
compute-IsStored_example =
    compute-IsStored numbers default_algorithm 10 (λ ts ss fs. saarctf_algorithm numbers config) 2
      first_tick world refl

calculation : Unit {0}
unfolding program compute fail get_submitted_flags flags_of_tick insert_flag to_stolen_flag
    count_previous count_current previous_submitters array_agg get_checker_results
    ranking_for_last_ticks sla_delta_for points_of_tick points_of_others with_tick save_teampoints
    record_first_bloods record_first_blood saarctf_algorithm sla_points off_formula off_points
    off_points_previous def_formula def_points def_points_previous sla_deltas active_team_ids
    num_active_teams scale calculate_sla flag_stolen_attacker flag_stolen_victim correct
    flag_stolen_previous_attackers steal_from_victim steal process_flag process_flags add_last
    add_last_tick find_flags_per_tick sla_when_issued calculate_scoring_for_tick Default.in_cache
    Default.is_marked Default.is_first_blood Default.is_new_first Default.next Default.judge
    Default.judged Default.get_firstbloods Default.new_cache
calculation = tt

abbrev calculated :
    World numbers default_algorithm 10 (λ ts ss fs. saarctf_algorithm numbers config)
calculated =
    compute numbers default_algorithm 10 (λ ts ss fs. saarctf_algorithm numbers config) 2 first_tick
      world

compute-captures_example :
    captured numbers 2 1 (points_of_tick numbers 2 calculated.database.points)
    ≡ captured numbers 2 1 first_tick + submissions 2 1 2 submitted
unfolding calculation
compute-captures_example =
    compute-captures numbers default_algorithm 10 (λ ts ss fs. saarctf_algorithm numbers config) 2
      first_tick world refl (refl, (refl, (refl, tt)))
      (
        record { attacker = refl; victim = refl; service = refl },
        (
          record { attacker = refl; victim = refl; service = refl },
          (record { attacker = refl; victim = refl; service = refl }, tt),
        ),
      )
      (λ t s ht hs. ground (arith, ht, hs)) refl 2 1 refl refl

calculate_ticks-captures_example :
    captured numbers 2 1 (
      stored_results numbers default_algorithm 10
        (λ ts ss fs. saarctf_algorithm numbers config)
        2
        (calculate_ticks numbers default_algorithm 10
          (λ ts ss fs. saarctf_algorithm numbers config)
          2
          world).database)
    ≡ submissions_up_to 2 1 2 submitted
unfolding calculation calculate_ticks compute_after stored_results default_points
calculate_ticks-captures_example =
    calculate_ticks-captures numbers default_algorithm 10
      (λ ts ss fs. saarctf_algorithm numbers config) world (refl, (refl, (refl, tt)))
      (
        record { attacker = refl; victim = refl; service = refl },
        (
          record { attacker = refl; victim = refl; service = refl },
          (record { attacker = refl; victim = refl; service = refl }, tt),
        ),
      )
      2 refl refl 2 1 refl refl

-- team 2 submitted two flags
two_flags : submissions_up_to 2 1 2 submitted ≡ 2
unfolding calculation submissions_up_to submissions
two_flags = refl
