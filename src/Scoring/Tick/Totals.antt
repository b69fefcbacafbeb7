-- ===== src/Scoring/Tick/Totals.antt =====
-- Steps 1 and 4 of `calculate_scoring_for_tick` (controlserver/scoring/algorithms/algorithm.py) and
-- the counters.
use saarctf_gameserver.Prelude.{
  ℕ, ◌+◌, ◌≡◌, refl, sym, Bool, true, false, ◌&&◌, ◌||◌, ◌==◌, Option, none, some, List, [], ◌∷◌,
  ◌++◌, arith, if_ind, Returns, subst,
}
use saarctf_gameserver.Scoring.Float.{Float}
use saarctf_gameserver.Scoring.Points.{
  Status, Service, TeamPoints, has_key, contains, lookup, Algorithm,
}
use saarctf_gameserver.Scoring.Tick.{
  contains_id, new_results_for_team, new_results_for_tick, sla_deltas, scale, calculate_sla,
  num_active_teams, add_last, add_last_tick,
}
use saarctf_gameserver.Scoring.Tick.Counts.{captured, stolen}

module _ (F : Float) where
  unfoldable pub contains_service : List (Service F) → ℕ → Bool
  contains_service [] s = false
  contains_service (x ∷ xs) s = x.id == s || contains_service xs s

  module _ (t s : ℕ) where
    contains-append :
        (ps qs : List (TeamPoints F))
        → contains F t s (ps ++ qs) ≡ (contains F t s ps || contains F t s qs)
    unfolding contains
    contains-append [] qs = refl
    contains-append (p ∷ ps) qs = ground (arith, contains-append ps qs)

    contains-new_team :
        (tick t' : ℕ) (ss : List (Service F))
        → contains F t s (new_results_for_team F tick t' ss) ≡ (t' == t && contains_service ss s)
    unfolding contains new_results_for_team contains_service
    contains-new_team tick t' [] = ground arith
    contains-new_team tick t' (x ∷ xs) = ground (arith, contains-new_team tick t' xs)

    pub contains-new_tick :
        (tick : ℕ) (ts : List ℕ) (ss : List (Service F))
        → contains F t s (new_results_for_tick F tick ts ss)
          ≡ (contains_id ts t && contains_service ss s)
    unfolding contains new_results_for_tick
    contains-new_tick tick [] ss = refl
    contains-new_tick tick (t' ∷ ts) ss = ground (
      arith,
      contains-append (new_results_for_team F tick t' ss) (new_results_for_tick F tick ts ss),
      contains-new_team tick t' ss,
      contains-new_tick tick ts ss,
    )

    -- no counter has been increased
    abbrev pub IsFresh : List (TeamPoints F) → Type 0
    IsFresh ps = (captured F t s ps ≡ 0) × (stolen F t s ps ≡ 0)

    new_team-IsFresh :
        (tick t' : ℕ) (ss : List (Service F)) (qs : List (TeamPoints F))
        → IsFresh qs
        → IsFresh (new_results_for_team F tick t' ss ++ qs)
    unfolding captured stolen new_results_for_team
    new_team-IsFresh tick t' [] qs h = h
    new_team-IsFresh tick t' (x ∷ xs) qs h = ground (arith, new_team-IsFresh tick t' xs qs h)

    pub new_tick-IsFresh :
        (tick : ℕ) (ts : List ℕ) (ss : List (Service F))
        → IsFresh (new_results_for_tick F tick ts ss)
    unfolding captured stolen new_results_for_tick
    new_tick-IsFresh tick [] ss = (refl, refl)
    new_tick-IsFresh tick (t' ∷ ts) ss =
        new_team-IsFresh tick t' ss (new_results_for_tick F tick ts ss)
          (new_tick-IsFresh tick ts ss)

    module _ (A : Algorithm F) where
      -- the points for availability leave the keys and the counters alone
      abbrev pub Untouched : List (TeamPoints F) → List (TeamPoints F) → Type 0
      Untouched ps qs =
          (contains F t s qs ≡ contains F t s ps)
          × ((captured F t s qs ≡ captured F t s ps) × (stolen F t s qs ≡ stolen F t s ps))

      scale-Untouched : (r : F.Real) (ps : List (TeamPoints F)) → Untouched ps (scale F A r ps)
      unfolding scale contains captured stolen
      scale-Untouched r [] = (refl, (refl, refl))
      scale-Untouched r (p ∷ ps) = ground (arith, scale-Untouched r ps)

      sla_deltas-Untouched :
          (tick : ℕ) (results : ℕ → ℕ → Status) (ps : List (TeamPoints F))
          → Untouched ps (sla_deltas F A tick results ps)
      unfolding sla_deltas contains captured stolen
      sla_deltas-Untouched tick results [] = (refl, (refl, refl))
      sla_deltas-Untouched tick results (p ∷ ps) =
          ground (arith, sla_deltas-Untouched tick results ps)

      pub calculate_sla-Untouched :
          (tick : ℕ) (results : ℕ → ℕ → Status) (ps : List (TeamPoints F))
          → Untouched ps (calculate_sla F A tick results ps)
      unfolding calculate_sla
      calculate_sla-Untouched tick results ps = ground (
        arith,
        scale-Untouched (F.sqrt (F.of_ℕ (num_active_teams F A tick results ps)))
            (sla_deltas F A tick results ps),
        sla_deltas-Untouched tick results ps,
      )

    lookup-counters :
        (ps : List (TeamPoints F)) (p : TeamPoints F)
        → lookup F t s ps ≡ some p
        → (captured F t s ps ≡ p.flag_captured_count) × (stolen F t s ps ≡ p.flag_stolen_count)
    unfolding lookup captured stolen
    lookup-counters [] p h = ground arith
    lookup-counters (q ∷ qs) p h = ground (arith, lookup-counters qs p)

  contains-lookup :
      (t s : ℕ) (ps : List (TeamPoints F))
      → contains F t s ps ≡ true
      → (p : TeamPoints F) × (lookup F t s ps ≡ some p)
  unfolding lookup contains
  contains-lookup t s [] h = ground arith
  contains-lookup t s (q ∷ qs) h =
      if_ind (λ o. (p : TeamPoints F) × (o ≡ some p)) (has_key F t s q) (some q) (lookup F t s qs)
        (λ _. (q, refl)) (λ no. contains-lookup t s qs (ground (arith, no, h)))

  module _ (A : Algorithm F) (last : List (TeamPoints F)) where
    -- the counters of the previous tick are added, and no entry is lost
    abbrev pub IsSum : List (TeamPoints F) → List (TeamPoints F) → Type 0
    IsSum ps qs =
        (t s : ℕ)
        → contains F t s ps ≡ true
        → (captured F t s qs ≡ captured F t s ps + captured F t s last)
          × ((stolen F t s qs ≡ stolen F t s ps + stolen F t s last) × (contains F t s qs ≡ true))

    last_counters :
        (p lr : TeamPoints F) (t s : ℕ)
        → lookup F p.team_id p.service_id last ≡ some lr
        → has_key F t s p ≡ true
        → (captured F t s last ≡ lr.flag_captured_count)
          × (stolen F t s last ≡ lr.flag_stolen_count)
    last_counters p lr t s e k = lookup-counters t s last lr (ground (arith, e, k))

    cons-IsSum :
        (p lr : TeamPoints F) (ps qs : List (TeamPoints F))
        → lookup F p.team_id p.service_id last ≡ some lr
        → IsSum ps qs
        → IsSum (p ∷ ps) (add_last F A lr p ∷ qs)
    unfolding captured stolen contains add_last
    cons-IsSum p lr ps qs e h t s k = ground (arith, last_counters p lr t s e, h t s, k)

    looked_up :
        (p lr : TeamPoints F) (ps : List (TeamPoints F)) (o : Option (List (TeamPoints F)))
        → lookup F p.team_id p.service_id last ≡ some lr
        → Returns (IsSum ps) o
        → Returns
            (IsSum (p ∷ ps))
            (elim o [ none ↦ none | some qs ↦ some (add_last F A lr p ∷ qs) ])
    looked_up p lr ps none e h = h
    looked_up p lr ps (some qs) e h = cons-IsSum p lr ps qs e h

    abbrev pub HasKeysOf : List (TeamPoints F) → Type 0
    HasKeysOf ps = (t s : ℕ) → contains F t s ps ≡ true → contains F t s last ≡ true

    pub add_last_tick-IsSum :
        (ps : List (TeamPoints F)) → HasKeysOf ps → Returns (IsSum ps) (add_last_tick F A last ps)
    unfolding add_last_tick contains
    add_last_tick-IsSum [] h = λ t s k. ground arith
    add_last_tick-IsSum (p ∷ ps) h =
        let (lr, e) =
          contains-lookup p.team_id p.service_id last (h p.team_id p.service_id (ground arith)) in
        let rest = add_last_tick-IsSum ps (λ t s k. h t s (ground (arith, k))) in
        subst
          (λ o. Returns (IsSum (p ∷ ps)) (elim o [
            | none ↦ none
            | some lr ↦ elim (add_last_tick F A last ps) [
              | none ↦ none
              | some qs ↦ some (add_last F A lr p ∷ qs)
            ]
          ]))
          (sym e) (looked_up p lr ps (add_last_tick F A last ps) e rest)
