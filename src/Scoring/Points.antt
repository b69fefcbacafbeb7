-- ===== src/Scoring/Points.antt =====
-- The records of the scoring (controlserver/models.py, controlserver/scoring/algorithms): points of
-- a team for a service, submitted flags, results of the checker scripts, and `FlagSet`.
use saarctf_gameserver.Prelude.{
  ℕ, Bool, false, ◌&&◌, ◌||◌, ◌==◌, Option, none, some, if◌then◌else◌, List, [], ◌∷◌,
}
use saarctf_gameserver.Scoring.Float.{Float}

pub data Status : Type 0 where
  success flagmissing mumble offline recovering timeout revoked crashed pending : Status

pub record SubmittedFlag : Type 0 where
  pub id : ℕ
  pub service_id : ℕ
  pub team_id : ℕ
  pub submitted_by : ℕ
  pub payload : ℕ
  pub tick_issued : ℕ
  pub tick_submitted : ℕ
  pub ts : ℕ
  pub is_firstblood : ℕ

-- the key of `FlagSet`: who submitted the flag does not matter
abbrev pub same_flag : SubmittedFlag → SubmittedFlag → Bool
same_flag f g =
    f.service_id == g.service_id
    && (f.team_id == g.team_id && (f.tick_issued == g.tick_issued && f.payload == g.payload))

-- `FlagSet.is_new` is the negation, and adds the flag.
unfoldable pub was_seen : List SubmittedFlag → SubmittedFlag → Bool
was_seen [] f = false
was_seen (g ∷ gs) f = same_flag g f || was_seen gs f

pub record StolenFlag : Type 0 where
  pub flag : SubmittedFlag
  pub num_previous_submissions : ℕ
  pub num_submissions : ℕ
  pub previous_submitter_ids : List (Option ℕ)

module _ (F : Float) where
  open F use {Real, of_ℕ}

  pub record Service : Type 0 where
    pub id : ℕ
    pub num_payloads : ℕ
    pub flags_per_tick : Real

  -- `TeamPointsLite`
  pub record TeamPoints : Type 0 where
    pub team_id : ℕ
    pub service_id : ℕ
    pub tick : ℕ
    pub flag_captured_count : ℕ
    pub flag_stolen_count : ℕ
    pub off_points : Real
    pub def_points : Real
    pub sla_points : Real
    pub sla_delta : Real

  -- Results are kept in a `dict` from (team, service) to points: here the list of its values.
  abbrev pub has_key : ℕ → ℕ → TeamPoints → Bool
  has_key t s p = p.team_id == t && p.service_id == s

  unfoldable pub contains : ℕ → ℕ → List TeamPoints → Bool
  contains t s [] = false
  contains t s (p ∷ ps) = has_key t s p || contains t s ps

  unfoldable pub lookup : ℕ → ℕ → List TeamPoints → Option TeamPoints
  lookup t s [] = none
  lookup t s (p ∷ ps) = if has_key t s p then some p else lookup t s ps

  unfoldable pub update : ℕ → ℕ → (TeamPoints → TeamPoints) → List TeamPoints → List TeamPoints
  update t s f [] = []
  update t s f (p ∷ ps) = (if has_key t s p then f p else p) ∷ update t s f ps

  abbrev pub empty_points : ℕ → ℕ → ℕ → TeamPoints
  empty_points t s tick = record {
    team_id = t;
    service_id = s;
    tick = tick;
    flag_captured_count = 0;
    flag_stolen_count = 0;
    off_points = of_ℕ 0;
    def_points = of_ℕ 0;
    sla_points = of_ℕ 0;
    sla_delta = of_ℕ 0;
  }

  -- the interfaces of an algorithm, and the factors of the configuration
  pub record Algorithm : Type 0 where
    pub off_factor : Real
    pub def_factor : Real
    pub sla_factor : Real
    pub off_points : StolenFlag → ℕ → Real
    pub off_points_previous : StolenFlag → ℕ → Option Real
    pub def_points : StolenFlag → ℕ → Real → Real
    pub def_points_previous : StolenFlag → ℕ → Real → Real
    pub points_for_sla : ℕ → Status → Real
