-- ===== src/Scoring/Samples.antt =====
-- Test data for controlserver/scoring: numbers as points, three teams, a service, and submitted flags.
use saarctf_gameserver.Prelude.{
  ℕ, ◌+◌, ◌-◌, ◌*◌, ◌==◌, ltb, Option, none, some, List, [], ◌∷◌, if◌then◌else◌, arith,
}
use saarctf_gameserver.Scoring.Float.{Float, IsOrdered}
use saarctf_gameserver.Scoring.Points.{
  contains, lookup, update, was_seen, SubmittedFlag, StolenFlag, Service, TeamPoints, empty_points,
}
use saarctf_gameserver.Scoring.Tick.{new_results_for_team, new_results_for_tick}
use saarctf_gameserver.Scoring.Tick.Counts.{captured, stolen, captures, losses}
use saarctf_gameserver.Scoring.Tick.Totals.{contains_service}
use saarctf_gameserver.Scoring.Algorithms.{ScoringConfig}

abbrev pub numbers : Float
numbers = record {
  Real = ℕ;
  of_ℕ = λ n. n;
  add = λ a b. a + b;
  sub = λ a b. a - b;
  mul = λ a b. a * b;
  div = λ a b. a;
  half = 0;
  sqrt = λ a. a;
  pow_03 = λ a. a;
  lt = ltb;
  eq = λ a b. a == b;
}

abbrev pub config : ScoringConfig numbers
config = record { off_factor = 1; def_factor = 1; sla_factor = 1; happy_hour_tick = some 2 }

pub numbers-IsOrdered : IsOrdered numbers
numbers-IsOrdered = record {
  lt_irrefl = λ a. ground arith;
  lt_asymm = λ a b h. ground (arith, h);
  le_trans = λ a b c h k. ground (arith, h, k);
  eq_lem = λ a b. ground arith;
}

-- a flag that team `a` submitted, of team `v` and service 1 with payload `p`, in tick `t`
abbrev pub submission : ℕ → ℕ → ℕ → ℕ → ℕ → SubmittedFlag
submission id a v p t = record {
  id = id;
  service_id = 1;
  team_id = v;
  submitted_by = a;
  payload = p;
  tick_issued = 1;
  tick_submitted = t;
  ts = id;
  is_firstblood = 0;
}

abbrev pub stolen_flag : SubmittedFlag → ℕ → ℕ → List (Option ℕ) → StolenFlag
stolen_flag f before now teams = record {
  flag = f;
  num_previous_submissions = before;
  num_submissions = now;
  previous_submitter_ids = teams;
}

-- In tick 2, two teams submit the same new flag, and one a flag that was stolen before.
abbrev pub flags : List StolenFlag
flags =
    stolen_flag (submission 1 2 1 0 2) 0 2 (none ∷ [])
    ∷ stolen_flag (submission 2 3 1 0 2) 0 2 (none ∷ [])
    ∷ stolen_flag (submission 3 2 3 1 2) 1 1 (some 1 ∷ [])
    ∷ []

abbrev pub services : List (Service numbers)
services = record { id = 1; num_payloads = 2; flags_per_tick = 1 } ∷ []

abbrev pub team_ids : List ℕ
team_ids = 1 ∷ 2 ∷ 3 ∷ []

abbrev pub first_tick : List (TeamPoints numbers)
first_tick =
    empty_points numbers 1 1 1 ∷ empty_points numbers 2 1 1 ∷ empty_points numbers 3 1 1 ∷ []

unfoldable pub program : Unit {0}
unfolding contains lookup update was_seen new_results_for_team new_results_for_tick contains_service
    captured stolen captures losses
program = tt

abbrev pub submitted : List SubmittedFlag
submitted = submission 1 2 1 0 2 ∷ submission 2 3 1 0 2 ∷ submission 3 2 3 1 2 ∷ []

abbrev pub two_payloads : ℕ → Option ℕ
two_payloads s = if s == 1 then some 2 else none
