-- ===== src/Scoring/Tick/Steps.antt =====
-- The work on one flag of a tick (controlserver/scoring/algorithms/algorithm.py): what it counts.
use saarctf_gameserver.Prelude.{
  ℕ, ◌+◌, ◌≡◌, refl, true, false, ◌||◌, ◌==◌, Option, none, some, if◌then◌else◌, if_ind, List, ◌∷◌,
  length, arith, ◌∙◌, Returns, Returns-map,
}
use saarctf_gameserver.Scoring.Float.{Float}
use saarctf_gameserver.Scoring.Points.{was_seen, StolenFlag, TeamPoints, contains, Algorithm}
use saarctf_gameserver.Scoring.Tick.{
  Board, Context, flag_stolen_attacker, flag_stolen_victim, correct, flag_stolen_previous_attackers,
  steal_from_victim, steal, process_flag,
}
use saarctf_gameserver.Scoring.Tick.Counts.{
  captured, stolen, is_capture, is_loss, captured-attacker, captured-victim, stolen-attacker,
  stolen-victim, captured-correct, stolen-correct, contains-correct, contains-attacker,
  contains-victim,
}

module _ (F : Float) (A : Algorithm F) (c : Context F A) where
  -- Attacker and owner have points for the service, and the number of previous submitters is right.
  pub record IsSound (ps : List (TeamPoints F)) (sf : StolenFlag) : Type 0 where
    pub service : (r : F.Real) × (c.flags_per_tick sf.flag.service_id ≡ some r)
    pub attacker : contains F sf.flag.submitted_by sf.flag.service_id ps ≡ true
    pub victim : contains F sf.flag.team_id sf.flag.service_id ps ≡ true
    pub counted :
        (sf.num_previous_submissions == 0
          || length sf.previous_submitter_ids == sf.num_previous_submissions)
        ≡ true

  -- what the previous attackers' correction leaves alone
  record Same (b b' : Board F A) : Type 0 where
    keys : (t s : ℕ) → contains F t s b'.points ≡ contains F t s b.points
    captures_same : (t s : ℕ) → captured F t s b'.points ≡ captured F t s b.points
    losses_same : (t s : ℕ) → stolen F t s b'.points ≡ stolen F t s b.points
    seen_same : b'.seen ≡ b.seen

  previous_attackers-Same :
      (sf : StolenFlag) (r : F.Real) (k : ℕ) (b : Board F A)
      → (sf.num_previous_submissions == 0
          || length sf.previous_submitter_ids == sf.num_previous_submissions)
        ≡ true
      → Returns (Same b) (flag_stolen_previous_attackers F A sf r k b)
  unfolding flag_stolen_previous_attackers
  previous_attackers-Same sf r k b h =
      if_ind (Returns (Same b)) (sf.num_previous_submissions == 0) (some b) _ (λ _. same)
        λ some_before.
          if_ind (Returns (Same b))
            (length sf.previous_submitter_ids == sf.num_previous_submissions) _ none
            (λ _. corrected (A.off_points_previous sf k)) (λ bad. ground arith)
    where
      same : Same b b
      same = record {
        keys = λ t s. refl;
        captures_same = λ t s. refl;
        losses_same = λ t s. refl;
        seen_same = refl;
      }

      new : F.Real → List (TeamPoints F)
      new old =
          correct F A sf.flag.service_id
            (F.mul (F.div (F.sub (A.off_points sf k) old) r) A.off_factor) sf.previous_submitter_ids
            b.points

      corrected :
          (o : Option F.Real)
          → Returns
              (Same b)
              (elim o [ none ↦ some b | some old ↦ some (record b { points = new old }) ])
      corrected none = same
      corrected (some old) = record {
        keys = λ t s. contains-correct F A t s _ _ sf.previous_submitter_ids b.points;
        captures_same = λ t s. captured-correct F A t s _ _ sf.previous_submitter_ids b.points;
        losses_same = λ t s. stolen-correct F A t s _ _ sf.previous_submitter_ids b.points;
        seen_same = refl;
      }

  -- one flag, counted for its attacker, and for its owner when it was not seen in this tick
  pub record Step (sf : StolenFlag) (b b' : Board F A) : Type 0 where
    pub keys : (t s : ℕ) → contains F t s b'.points ≡ contains F t s b.points
    pub captures_step :
        (t s : ℕ)
        → contains F t s b.points ≡ true
        → captured F t s b'.points
          ≡ (if is_capture F t s sf then captured F t s b.points + 1 else captured F t s b.points)
    pub losses_step :
        (t s : ℕ)
        → contains F t s b.points ≡ true
        → stolen F t s b'.points ≡ (
            if was_seen b.seen sf.flag
            then stolen F t s b.points
            else if is_loss F t s sf
            then stolen F t s b.points + 1
            else stolen F t s b.points)
    pub seen_step : b'.seen ≡ (if was_seen b.seen sf.flag then b.seen else sf.flag ∷ b.seen)

  module _ (sf : StolenFlag) (r : F.Real) (b : Board F A) where
    abbrev attacked : List (TeamPoints F)
    attacked = flag_stolen_attacker F A sf r (c.victim_rank sf.flag) b.points

    -- a flag seen before in this tick is counted for its attacker alone
    again-Step : was_seen b.seen sf.flag ≡ true → Step sf b (record b { points = attacked })
    again-Step seen = record {
      keys = λ t s. contains-attacker F A t s sf r _ b.points;
      captures_step = λ t s h. captured-attacker F A t s sf r _ b.points h;
      losses_step = λ t s h.
          ground (arith, seen, stolen-attacker F A t s sf r (c.victim_rank sf.flag) b.points);
      seen_step = ground (arith, seen);
    }

    -- a new flag is counted for both
    first-Step :
        (v : F.Real) (b' : Board F A)
        → was_seen b.seen sf.flag ≡ false
        → Same
            (record b {
              points = flag_stolen_victim F A sf r c.num_active v attacked;
              seen = sf.flag ∷ b.seen;
            })
            b'
        → Step sf b b'
    first-Step v b' new h = record {
      keys = λ t s.
          h.keys t s
          ∙ contains-victim F A t s sf r _ v attacked
          ∙ contains-attacker F A t s sf r _ b.points;
      captures_step = λ t s k.
          h.captures_same t s
          ∙ captured-victim F A t s sf r _ v attacked
          ∙ captured-attacker F A t s sf r _ b.points k;
      losses_step = λ t s k. ground (
        arith,
        new,
        h.losses_same t s,
        stolen-victim F A t s sf r c.num_active v attacked
            (contains-attacker F A t s sf r _ b.points ∙ k),
        stolen-attacker F A t s sf r (c.victim_rank sf.flag) b.points,
      );
      seen_step = ground (arith, new, h.seen_same);
    }

    victim-Step :
        IsSound b.points sf
        → was_seen b.seen sf.flag ≡ false
        → Returns (Step sf b) (steal_from_victim F A c sf r (record b { points = attacked }))
    unfolding steal_from_victim
    victim-Step h new =
        if_ind (Returns (Step sf b)) (contains F sf.flag.team_id sf.flag.service_id attacked) _ _
          (λ _.
            Returns-map _ (Step sf b) _ (λ b'. first-Step _ b' new)
              (previous_attackers-Same sf r _ _ h.counted))
          (λ no. ground (
            arith,
            no,
            h.victim,
            contains-attacker F A sf.flag.team_id sf.flag.service_id sf r (c.victim_rank sf.flag)
                b.points,
          ))

    steal-Step : IsSound b.points sf → Returns (Step sf b) (steal F A c sf r b)
    unfolding steal
    steal-Step h =
        if_ind (Returns (Step sf b)) (contains F sf.flag.submitted_by sf.flag.service_id b.points) _
          (some b)
          (λ _.
            if_ind (Returns (Step sf b)) (was_seen b.seen sf.flag) _ _ again-Step (victim-Step h))
          (λ no. ground (arith, no, h.attacker))

  pub process_flag-Step :
      (sf : StolenFlag) (b : Board F A)
      → IsSound b.points sf
      → Returns (Step sf b) (process_flag F A c sf b)
  unfolding process_flag
  process_flag-Step sf b h = at_service (c.flags_per_tick sf.flag.service_id) h.service
    where
      at_service :
          (o : Option F.Real)
          → (r : F.Real) × (o ≡ some r)
          → Returns (Step sf b) (elim o [ none ↦ some b | some r ↦ steal F A c sf r b ])
      at_service none (r, e) = ground arith
      at_service (some r) e = steal-Step sf r b h
