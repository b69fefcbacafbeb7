-- ===== src/Scoring/Tick/Result.antt =====
-- `calculate_scoring_for_tick` (controlserver/scoring/algorithms/algorithm.py) as a whole.
use saarctf_gameserver.Prelude.{
  ℕ, ◌+◌, ◌≡◌, refl, sym, true, ◌&&◌, ◌||◌, ◌==◌, Option, none, some, List, [], ◌∷◌, length, All,
  arith, if_ind, Returns, Returns-map, and_true, ◌∙◌,
}
use saarctf_gameserver.Scoring.Float.{Float}
use saarctf_gameserver.Scoring.Points.{Status, StolenFlag, Service, TeamPoints, contains, Algorithm}
use saarctf_gameserver.Scoring.Tick.{
  contains_id, rank_when_issued, new_results_for_tick, calculate_sla, num_active_teams, Board,
  Context, process_flags, add_last_tick, find_flags_per_tick, sla_when_issued,
  calculate_scoring_for_tick,
}
use saarctf_gameserver.Scoring.Tick.Counts.{captured, stolen, captures, losses}
use saarctf_gameserver.Scoring.Tick.Steps.{IsSound}
use saarctf_gameserver.Scoring.Tick.Flags.{Counted, process_flags-Counted}
use saarctf_gameserver.Scoring.Tick.Totals.{
  contains_service, contains-new_tick, new_tick-IsFresh, calculate_sla-Untouched, IsSum, HasKeysOf,
  add_last_tick-IsSum,
}

module _ (F : Float) where
  -- A submission by a team of the game, of a flag of a team and a service of the game, whose
  -- number of previous submitters is right.
  pub record IsValid (team_ids : List ℕ) (services : List (Service F)) (sf : StolenFlag)
      : Type 0 where
    pub attacker : contains_id team_ids sf.flag.submitted_by ≡ true
    pub victim : contains_id team_ids sf.flag.team_id ≡ true
    pub service : contains_service F services sf.flag.service_id ≡ true
    pub counted :
        (sf.num_previous_submissions == 0
          || length sf.previous_submitter_ids == sf.num_previous_submissions)
        ≡ true

  -- the counters of a tick, given those of the previous one
  pub record IsCounted (team_ids : List ℕ) (services : List (Service F))
      (last : List (TeamPoints F)) (flags : List StolenFlag) (ps : List (TeamPoints F))
      : Type 0 where
    pub captures_counted :
        (t s : ℕ)
        → contains_id team_ids t ≡ true
        → contains_service F services s ≡ true
        → captured F t s ps ≡ captured F t s last + captures F t s flags
    pub losses_counted :
        (t s : ℕ)
        → contains_id team_ids t ≡ true
        → contains_service F services s ≡ true
        → stolen F t s ps ≡ stolen F t s last + losses F t s [] flags
    pub complete :
        (t s : ℕ)
        → contains_id team_ids t ≡ true
        → contains_service F services s ≡ true
        → contains F t s ps ≡ true

  module _ (A : Algorithm F) (tick : ℕ) (team_ids : List ℕ) (services : List (Service F))
      (stored_sla : ℕ → ℕ → ℕ → F.Real) (results : ℕ → ℕ → Status) (last : List (TeamPoints F))
      (ranks : ℕ → ℕ → Option ℕ) where
    find-contains_service :
        (ss : List (Service F)) (s : ℕ)
        → contains_service F ss s ≡ true
        → (r : F.Real) × (find_flags_per_tick F A ss s ≡ some r)
    unfolding contains_service find_flags_per_tick
    find-contains_service [] s h = ground arith
    find-contains_service (x ∷ xs) s h =
        if_ind (λ o. (r : F.Real) × (o ≡ some r)) (x.id == s) (some x.flags_per_tick)
          (find_flags_per_tick F A xs s) (λ _. (x.flags_per_tick, refl))
          (λ no. find-contains_service xs s (ground (arith, no, h)))

    abbrev fresh : List (TeamPoints F)
    fresh = new_results_for_tick F tick team_ids services

    abbrev context : Context F A
    context = record {
      num_active = num_active_teams F A tick results fresh;
      flags_per_tick = find_flags_per_tick F A services;
      victim_rank = λ f. rank_when_issued ranks f (length team_ids);
      victim_sla = sla_when_issued F A tick stored_sla;
    }

    abbrev start : Board F A
    start = record { points = calculate_sla F A tick results fresh; seen = [] }

    contains-start :
        (t s : ℕ)
        → contains F t s start.points ≡ (contains_id team_ids t && contains_service F services s)
    contains-start t s = ground (
      arith,
      calculate_sla-Untouched F t s A tick results fresh,
      contains-new_tick F t s tick team_ids services,
    )

    IsValid-IsSound :
        (sfs : List StolenFlag)
        → All (IsValid team_ids services) sfs
        → All (IsSound F A context start.points) sfs
    IsValid-IsSound [] h = h
    IsValid-IsSound (sf ∷ sfs) (h, hs) = (
      record {
        service = find-contains_service services sf.flag.service_id h.service;
        attacker =
            ground (
              arith,
              contains-start sf.flag.submitted_by sf.flag.service_id,
              h.attacker,
              h.service,
            );
        victim =
            ground (arith, contains-start sf.flag.team_id sf.flag.service_id, h.victim, h.service);
        counted = h.counted;
      },
      IsValid-IsSound sfs hs,
    )

    Counted-IsSum :
        (flags : List StolenFlag) (b : Board F A) (ps : List (TeamPoints F))
        → Counted F A context flags start b
        → IsSum F A last b.points ps
        → IsCounted team_ids services last flags ps
    Counted-IsSum flags b ps h k = record {
      captures_counted = λ t s ht hs. ground (
        arith,
        contains-start t s,
        ht,
        hs,
        h.keys_kept t s,
        h.captures_counted t s,
        k t s,
        calculate_sla-Untouched F t s A tick results fresh,
        new_tick-IsFresh F t s tick team_ids services,
      );
      losses_counted = λ t s ht hs. ground (
        arith,
        contains-start t s,
        ht,
        hs,
        h.keys_kept t s,
        h.losses_counted t s,
        k t s,
        calculate_sla-Untouched F t s A tick results fresh,
        new_tick-IsFresh F t s tick team_ids services,
      );
      complete = λ t s ht hs. ground (arith, contains-start t s, ht, hs, h.keys_kept t s, k t s);
    }

    summed :
        (flags : List StolenFlag) (o : Option (Board F A))
        → HasKeysOf F A last start.points
        → Returns (Counted F A context flags start) o
        → Returns
            (IsCounted team_ids services last flags)
            (elim o [ none ↦ none | some b ↦ add_last_tick F A last b.points ])
    summed flags none has e = e
    summed flags (some b) has e =
        Returns-map _ (IsCounted team_ids services last flags) _ (λ ps. Counted-IsSum flags b ps e)
          (add_last_tick-IsSum F A last b.points
            λ t s k. has t s (ground (arith, e.keys_kept t s, k)))

    -- If there are points of the previous tick for every team and service, and every flag is valid
    -- (its attacker and its owner are teams of the game, its service is one of the game, and it
    -- has no previous submissions or as many previous submitters are listed as there were), then
    -- the calculation for a tick ends without an exception and has an entry for every team and
    -- service. For every team and service the captured flags are then those of the previous tick
    -- and one for each submission of the team for the service, and the stolen flags are those of
    -- the previous tick and one for each different flag of the team and the service that has no
    -- previous submissions when it is first in the list.
    pub calculate_scoring_for_tick-IsCounted :
        (flags : List StolenFlag)
        → ((t s : ℕ)
            → contains_id team_ids t ≡ true
            → contains_service F services s ≡ true
            → contains F t s last ≡ true)
        → All (IsValid team_ids services) flags
        → Returns (IsCounted team_ids services last flags) (
            calculate_scoring_for_tick F A tick team_ids services stored_sla results last ranks
              flags)
    unfolding calculate_scoring_for_tick
    calculate_scoring_for_tick-IsCounted flags has valid =
        summed flags (process_flags F A context flags start)
          (λ t s k.
            let (ht, hs) =
              and_true (contains_id team_ids t) (contains_service F services s)
                (sym (contains-start t s) ∙ k) in
            has t s ht hs)
          (process_flags-Counted F A context flags start (IsValid-IsSound flags valid))
