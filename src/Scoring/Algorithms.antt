-- ===== src/Scoring/Algorithms.antt =====
-- controlserver/scoring/algorithms/saarctf.py and playground.py: the formulas of the points. The
-- configuration gives the factors and the tick where a happy hour starts.
use saarctf_gameserver.Prelude.{
  ℕ, ◌+◌, ◌&&◌, ◌==◌, ltb, Option, none, some, if◌then◌else◌, List, [], ◌∷◌, length,
}
use saarctf_gameserver.Scoring.Float.{Float}
use saarctf_gameserver.Scoring.Points.{Status, success, recovering, StolenFlag, Algorithm}
use saarctf_gameserver.Scoring.Tick.{add_id}

-- `_compute_attacking_teams_count`: the submitters of flags of a service and payload in this tick
unfoldable pub attacking_teams : ℕ → ℕ → List StolenFlag → List ℕ
attacking_teams s payload [] = []
attacking_teams s payload (sf ∷ sfs) =
    let rest = attacking_teams s payload sfs in
    if sf.flag.service_id == s && sf.flag.payload == payload
    then add_id sf.flag.submitted_by rest
    else rest

module _ (F : Float) where
  open F use {Real, of_ℕ, add, mul, div, half, sqrt, pow_03}

  pub record ScoringConfig : Type 0 where
    pub off_factor : Real
    pub def_factor : Real
    pub sla_factor : Real
    pub happy_hour_tick : Option ℕ

  -- `SlaSaarCtfDefault`
  unfoldable pub sla_points : Status → Real
  sla_points success = of_ℕ 1
  sla_points recovering = half
  sla_points _ = of_ℕ 0

  -- `1.0 + (1.0 / n) ** 0.5 + (1.0 / victim_rank) ** 0.5`
  unfoldable pub off_formula : ℕ → ℕ → Real
  off_formula n rank =
      add (add (of_ℕ 1) (sqrt (div (of_ℕ 1) (of_ℕ n)))) (sqrt (div (of_ℕ 1) (of_ℕ rank)))

  -- `FlagPointsSaarCtfDefault`
  unfoldable pub off_points : StolenFlag → ℕ → Real
  off_points sf rank = off_formula (sf.num_previous_submissions + sf.num_submissions) rank

  unfoldable pub off_points_previous : StolenFlag → ℕ → Option Real
  off_points_previous sf rank = some (off_formula sf.num_previous_submissions rank)

  -- `DefensiveSaarCtfDefault`
  unfoldable pub def_formula : ℕ → ℕ → Real → Real
  def_formula n active sla = mul (pow_03 (div (of_ℕ n) (of_ℕ active))) sla

  unfoldable pub def_points : StolenFlag → ℕ → Real → Real
  def_points sf active sla =
      def_formula (sf.num_previous_submissions + sf.num_submissions) active sla

  unfoldable pub def_points_previous : StolenFlag → ℕ → Real → Real
  def_points_previous sf active sla = def_formula sf.num_previous_submissions active sla

  -- `factor`; the default tick is 0xffffff
  unfoldable pub factor : ScoringConfig → ℕ → Real
  factor config tick = elim config.happy_hour_tick [
    | none ↦ if ltb tick 16777215 then of_ℕ 1 else of_ℕ 2
    | some h ↦ if ltb tick h then of_ℕ 1 else of_ℕ 2
  ]

  unfoldable pub saarctf_algorithm : ScoringConfig → Algorithm F
  saarctf_algorithm config = record {
    off_factor = config.off_factor;
    def_factor = config.def_factor;
    sla_factor = config.sla_factor;
    off_points = off_points;
    off_points_previous = off_points_previous;
    def_points = def_points;
    def_points_previous = def_points_previous;
    points_for_sla = λ tick. sla_points;
  }

  -- `SaarctfScoreAlgorithmWithHappyHour`
  unfoldable pub happy_hour_algorithm : ScoringConfig → Algorithm F
  happy_hour_algorithm config = record (saarctf_algorithm config) {
    off_points = λ sf rank. mul (off_points sf rank) (factor config sf.flag.tick_issued);
    off_points_previous = λ sf rank.
        some
          (mul (off_formula sf.num_previous_submissions rank) (factor config sf.flag.tick_issued));
  }

  -- `PlaygroundScoreAlgorithm`, for the flags of a tick
  unfoldable pub playground_algorithm : ScoringConfig → List StolenFlag → Algorithm F
  playground_algorithm config flags = record (saarctf_algorithm config) {
    off_points =
        λ sf. off_formula (length (attacking_teams sf.flag.service_id sf.flag.payload flags));
    off_points_previous = λ sf rank. none;
  }
