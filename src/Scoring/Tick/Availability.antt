-- ===== src/Scoring/Tick/Availability.antt =====
-- The points for availability (SLA) in controlserver/scoring/algorithms/algorithm.py: `_calculate_sla`,
-- and the flags.
use saarctf_gameserver.Prelude.{
  ℕ, ◌≡◌, refl, ◌==◌, Option, none, some, if◌then◌else◌, if_ind, List, [], ◌∷◌, length, arith,
  IfReturns, ◌∙◌,
}
use saarctf_gameserver.Scoring.Float.{Float}
use saarctf_gameserver.Scoring.Points.{
  was_seen, StolenFlag, TeamPoints, has_key, contains, update, Algorithm,
}
use saarctf_gameserver.Scoring.Tick.{
  Board, flag_stolen_attacker, flag_stolen_victim, add_off, correct, flag_stolen_previous_attackers,
  Context, steal_from_victim, steal, process_flag, process_flags,
}

module _ (F : Float) (A : Algorithm F) where
  open F use {Real, of_ℕ, add, mul, sqrt}

  module _ (t s : ℕ) where
    -- the points for availability of a team and a service, in the tick and in total
    unfoldable pub delta : List (TeamPoints F) → Option Real
    delta [] = none
    delta (p ∷ ps) = if has_key F t s p then some p.sla_delta else delta ps

    unfoldable pub total : List (TeamPoints F) → Option Real
    total [] = none
    total (p ∷ ps) = if has_key F t s p then some p.sla_points else total ps

    delta-attacker :
        (sf : StolenFlag) (r : Real) (k : ℕ) (ps : List (TeamPoints F))
        → delta (flag_stolen_attacker F A sf r k ps) ≡ delta ps
    unfolding flag_stolen_attacker delta update
    delta-attacker sf r k [] = refl
    delta-attacker sf r k (p ∷ ps) = ground (arith, delta-attacker sf r k ps)

    delta-victim :
        (sf : StolenFlag) (r : Real) (k : ℕ) (v : Real) (ps : List (TeamPoints F))
        → delta (flag_stolen_victim F A sf r k v ps) ≡ delta ps
    unfolding flag_stolen_victim delta update
    delta-victim sf r k v [] = refl
    delta-victim sf r k v (p ∷ ps) = ground (arith, delta-victim sf r k v ps)

    delta-add_off :
        (t' s' : ℕ) (d : Real) (ps : List (TeamPoints F))
        → delta (update F t' s' (add_off F A d) ps) ≡ delta ps
    unfolding delta update
    delta-add_off t' s' d [] = refl
    delta-add_off t' s' d (p ∷ ps) = ground (arith, delta-add_off t' s' d ps)

    delta-correct :
        (s' : ℕ) (d : Real) (ts : List (Option ℕ)) (ps : List (TeamPoints F))
        → delta (correct F A s' d ts ps) ≡ delta ps
    unfolding correct
    delta-correct s' d [] ps = refl
    delta-correct s' d (none ∷ ts) ps = refl
    delta-correct s' d (some t' ∷ ts) ps =
        ground (
          arith,
          delta-correct s' d ts (update F t' s' (add_off F A d) ps),
          delta-add_off t' s' d ps,
        )

    -- a board with the same points for availability
    abbrev pub Keeps : List (TeamPoints F) → Board F A → Type 0
    Keeps ps b = delta b.points ≡ delta ps

    previous_attackers-Keeps :
        (sf : StolenFlag) (r : Real) (k : ℕ) (b : Board F A) (ps : List (TeamPoints F))
        → Keeps ps b
        → IfReturns (Keeps ps) (flag_stolen_previous_attackers F A sf r k b)
    unfolding flag_stolen_previous_attackers
    previous_attackers-Keeps sf r k b ps h =
        if_ind (IfReturns (Keeps ps)) (sf.num_previous_submissions == 0) (some b) _ (λ _. h)
          λ _.
            if_ind (IfReturns (Keeps ps))
              (length sf.previous_submitter_ids == sf.num_previous_submissions) _ none
              (λ _. corrected (A.off_points_previous sf k)) (λ _. tt)
      where
        corrected :
            (o : Option Real)
            → IfReturns (Keeps ps) (elim o [
              | none ↦ some b
              | some old ↦ some (record b {
                points =
                    correct F A sf.flag.service_id
                      (F.mul (F.div (F.sub (A.off_points sf k) old) r) A.off_factor)
                      sf.previous_submitter_ids
                      b.points;
              })
            ])
        corrected none = h
        corrected (some old) = delta-correct _ _ sf.previous_submitter_ids b.points ∙ h

    module _ (c : Context F A) where
      victim-Keeps :
          (sf : StolenFlag) (r : Real) (b : Board F A) (ps : List (TeamPoints F))
          → Keeps ps b
          → IfReturns (Keeps ps) (steal_from_victim F A c sf r b)
      unfolding steal_from_victim
      victim-Keeps sf r b ps h =
          if_ind (IfReturns (Keeps ps)) (contains F sf.flag.team_id sf.flag.service_id b.points) _ _
            (λ _. previous_attackers-Keeps sf r _ _ ps (delta-victim sf r _ _ b.points ∙ h))
            (λ _. h)

      steal-Keeps :
          (sf : StolenFlag) (r : Real) (b : Board F A) (ps : List (TeamPoints F))
          → Keeps ps b
          → IfReturns (Keeps ps) (steal F A c sf r b)
      unfolding steal
      steal-Keeps sf r b ps h =
          let after = delta-attacker sf r (c.victim_rank sf.flag) b.points ∙ h in
          if_ind (IfReturns (Keeps ps))
            (contains F sf.flag.submitted_by sf.flag.service_id b.points) _ (some b)
            (λ _.
              if_ind (IfReturns (Keeps ps)) (was_seen b.seen sf.flag) (some _) _ (λ _. after)
                (λ _. victim-Keeps sf r _ ps after))
            (λ _. h)

      process_flag-Keeps :
          (sf : StolenFlag) (b : Board F A) (ps : List (TeamPoints F))
          → Keeps ps b
          → IfReturns (Keeps ps) (process_flag F A c sf b)
      unfolding process_flag
      process_flag-Keeps sf b ps h = at_service (c.flags_per_tick sf.flag.service_id)
        where
          at_service :
              (o : Option Real)
              → IfReturns (Keeps ps) (elim o [ none ↦ some b | some r ↦ steal F A c sf r b ])
          at_service none = h
          at_service (some r) = steal-Keeps sf r b ps h

      Keeps-after :
          (sfs : List StolenFlag) (o : Option (Board F A)) (ps : List (TeamPoints F))
          → IfReturns (Keeps ps) o
          → ((b : Board F A) → Keeps ps b → IfReturns (Keeps ps) (process_flags F A c sfs b))
          → IfReturns (Keeps ps) (elim o [ none ↦ none | some b ↦ process_flags F A c sfs b ])
      Keeps-after sfs none ps h f = tt
      Keeps-after sfs (some b) ps h f = f b h

      pub process_flags-Keeps :
          (sfs : List StolenFlag) (b : Board F A) (ps : List (TeamPoints F))
          → Keeps ps b
          → IfReturns (Keeps ps) (process_flags F A c sfs b)
      unfolding process_flags
      process_flags-Keeps [] b ps h = h
      process_flags-Keeps (sf ∷ sfs) b ps h =
          Keeps-after sfs (process_flag F A c sf b) ps (process_flag-Keeps sf b ps h)
            λ b'. process_flags-Keeps sfs b' ps
