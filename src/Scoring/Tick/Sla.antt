-- ===== src/Scoring/Tick/Sla.antt =====
-- What a team gets for availability in a tick (controlserver/scoring/algorithms/algorithm.py).
use saarctf_gameserver.Prelude.{
  ℕ, ◌≡◌, refl, ap, true, Option, none, some, List, [], ◌∷◌, length, arith, IfReturns,
  IfReturns-map, Returns, Returns-IfReturns, All, ◌∙◌,
}
use saarctf_gameserver.Scoring.Float.{Float}
use saarctf_gameserver.Scoring.Points.{
  Status, StolenFlag, Service, TeamPoints, contains, lookup, Algorithm,
}
use saarctf_gameserver.Scoring.Tick.{
  contains_id, rank_when_issued, new_results_for_tick, sla_deltas, num_active_teams, scale,
  calculate_sla, Board, add_last, add_last_tick, find_flags_per_tick, sla_when_issued,
  calculate_scoring_for_tick,
}
use saarctf_gameserver.Scoring.Tick.Totals.{contains_service, contains-new_tick}
use saarctf_gameserver.Scoring.Tick.Result.{
  IsValid, IsCounted, calculate_scoring_for_tick-IsCounted,
}
use saarctf_gameserver.Scoring.Tick.Availability.{delta, total, Keeps, process_flags-Keeps}

abbrev map_option {ℓ κ} : {A : Type ℓ} {B : Type κ} → (A → B) → Option A → Option B
map_option f none = none
map_option f (some a) = some (f a)

module _ (F : Float) (A : Algorithm F) where
  open F use {Real, of_ℕ, add, mul, sqrt}

  module _ (t s : ℕ) where
    delta-scale :
        (r : Real) (ps : List (TeamPoints F))
        → delta F A t s (scale F A r ps) ≡ map_option (λ d. mul d r) (delta F A t s ps)
    unfolding scale delta
    delta-scale r [] = refl
    delta-scale r (p ∷ ps) = ground (arith, delta-scale r ps)

    delta-sla_deltas :
        (tick : ℕ) (results : ℕ → ℕ → Status) (ps : List (TeamPoints F))
        → contains F t s ps ≡ true
        → delta F A t s (sla_deltas F A tick results ps)
          ≡ some (mul (A.points_for_sla tick (results t s)) A.sla_factor)
    unfolding sla_deltas delta contains
    delta-sla_deltas tick results [] h = ground (arith, h)
    delta-sla_deltas tick results (p ∷ ps) h = ground (arith, h, delta-sla_deltas tick results ps)

    module _ (last : List (TeamPoints F)) (lr : TeamPoints F)
        (e : lookup F t s last ≡ some lr) where
      -- the points of the tick before are added
      abbrev IsTotal : List (TeamPoints F) → List (TeamPoints F) → Type 0
      IsTotal ps qs = total F A t s qs ≡ map_option (λ d. add lr.sla_points d) (delta F A t s ps)

      cons-IsTotal :
          (p : TeamPoints F) (ps : List (TeamPoints F)) (o : Option (TeamPoints F))
          (rest : Option (List (TeamPoints F)))
          → lookup F p.team_id p.service_id last ≡ o
          → IfReturns (IsTotal ps) rest
          → IfReturns (IsTotal (p ∷ ps)) (elim o [
            | none ↦ none
            | some l ↦ elim rest [ none ↦ none | some qs ↦ some (add_last F A l p ∷ qs) ]
          ])
      unfolding total delta add_last
      cons-IsTotal p ps none rest h k = tt
      cons-IsTotal p ps (some l) none h k = tt
      cons-IsTotal p ps (some l) (some qs) h k = ground (arith, e, h, k)

      add_last_tick-IsTotal :
          (ps : List (TeamPoints F)) → IfReturns (IsTotal ps) (add_last_tick F A last ps)
      unfolding add_last_tick total delta
      add_last_tick-IsTotal [] = refl
      add_last_tick-IsTotal (p ∷ ps) =
          cons-IsTotal p ps (lookup F p.team_id p.service_id last) (add_last_tick F A last ps) refl
            (add_last_tick-IsTotal ps)

  module _ (tick : ℕ) (team_ids : List ℕ) (services : List (Service F))
      (stored_sla : ℕ → ℕ → ℕ → Real) (results : ℕ → ℕ → Status) (last : List (TeamPoints F))
      (ranks : ℕ → ℕ → Option ℕ) (t s : ℕ) where
    abbrev pub fresh : List (TeamPoints F)
    fresh = new_results_for_tick F tick team_ids services

    -- what a team gets for the availability of a service
    abbrev pub sla_gain : Real
    sla_gain =
        mul (mul (A.points_for_sla tick (results t s)) A.sla_factor)
          (sqrt (of_ℕ (num_active_teams F A tick results fresh)))

    delta-calculate_sla :
        contains_id team_ids t ≡ true
        → contains_service F services s ≡ true
        → delta F A t s (calculate_sla F A tick results fresh) ≡ some sla_gain
    unfolding calculate_sla
    delta-calculate_sla ht hs = ground (
      arith,
      delta-scale t s (sqrt (of_ℕ (num_active_teams F A tick results fresh)))
          (sla_deltas F A tick results fresh),
      delta-sla_deltas t s tick results fresh
          (contains-new_tick F t s tick team_ids services ∙ ground (arith, ht, hs)),
    )

    added :
        (lr : TeamPoints F)
        → lookup F t s last ≡ some lr
        → delta F A t s (calculate_sla F A tick results fresh) ≡ some sla_gain
        → (o : Option (Board F A))
        → IfReturns (Keeps F A t s (calculate_sla F A tick results fresh)) o
        → IfReturns
            (λ ps. total F A t s ps ≡ some (add lr.sla_points sla_gain))
            (elim o [ none ↦ none | some b ↦ add_last_tick F A last b.points ])
    added lr e d none h = tt
    added lr e d (some b) h =
        IfReturns-map (IsTotal t s last lr e b.points) _ (add_last_tick F A last b.points)
          (λ qs k. k ∙ ap (map_option (λ x. add lr.sla_points x)) (h ∙ d))
          (add_last_tick-IsTotal t s last lr e b.points)

    if_calculated :
        (lr : TeamPoints F) (flags : List StolenFlag)
        → contains_id team_ids t ≡ true
        → contains_service F services s ≡ true
        → lookup F t s last ≡ some lr
        → IfReturns
            (λ ps. total F A t s ps ≡ some (add lr.sla_points sla_gain))
            (calculate_scoring_for_tick F A tick team_ids services stored_sla results last ranks
              flags)
    unfolding calculate_scoring_for_tick
    if_calculated lr flags ht hs e = added lr e (delta-calculate_sla ht hs) _ (
        process_flags-Keeps F A t s
          (record {
            num_active = num_active_teams F A tick results fresh;
            flags_per_tick = find_flags_per_tick F A services;
            victim_rank = λ f. rank_when_issued ranks f (length team_ids);
            victim_sla = sla_when_issued F A tick stored_sla;
          })
          flags (record { points = calculate_sla F A tick results fresh; seen = [] })
          (calculate_sla F A tick results fresh) refl)

    -- If there are points of the previous tick for every team and service and every flag is valid
    -- (its attacker and its owner are teams of the game, its service is one of the game, and it
    -- has no previous submissions or as many previous submitters are listed as there were), then
    -- the calculation for a tick ends without an exception, and the points for availability of a
    -- team of the game for a service of the game are those of the previous tick plus the points
    -- for the result of its checker script, times the factor of the configuration, times the
    -- square root of the number of active teams. The flags of the tick do not change them.
    pub calculate_scoring_for_tick-sla :
        (lr : TeamPoints F) (flags : List StolenFlag)
        → ((t' s' : ℕ)
            → contains_id team_ids t' ≡ true
            → contains_service F services s' ≡ true
            → contains F t' s' last ≡ true)
        → All (IsValid F team_ids services) flags
        → contains_id team_ids t ≡ true
        → contains_service F services s ≡ true
        → lookup F t s last ≡ some lr
        → Returns
            (λ ps. total F A t s ps ≡ some (add lr.sla_points sla_gain))
            (calculate_scoring_for_tick F A tick team_ids services stored_sla results last ranks
              flags)
    calculate_scoring_for_tick-sla lr flags has valid ht hs e =
        Returns-IfReturns (IsCounted F team_ids services last flags) _ _
          (calculate_scoring_for_tick-IsCounted F A tick team_ids services stored_sla results last
            ranks flags has valid)
          (if_calculated lr flags ht hs e)
