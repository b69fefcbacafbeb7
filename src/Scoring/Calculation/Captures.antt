-- ===== src/Scoring/Calculation/Captures.antt =====
-- From the table of submitted flags to the table of points: what a calculated tick of
-- controlserver/scoring/scoring.py counts.
use saarctf_gameserver.Prelude.{
  ℕ, ◌+◌, ◌≡◌, refl, Bool, true, false, ◌&&◌, ◌==◌, if◌then◌else◌, List, [], ◌∷◌, All, Returns,
  arith, map, if_ind, ◌∙◌, subst, ap,
}
use saarctf_gameserver.Scoring.Float.{Float}
use saarctf_gameserver.Scoring.Points.{
  SubmittedFlag, StolenFlag, Service, TeamPoints, contains, Algorithm,
}
use saarctf_gameserver.Scoring.Tick.{contains_id}
use saarctf_gameserver.Scoring.Tick.Counts.{captured, captures}
use saarctf_gameserver.Scoring.Tick.Totals.{contains_service}
use saarctf_gameserver.Scoring.Tick.Result.{
  IsValid, IsCounted, calculate_scoring_for_tick-IsCounted,
}
use saarctf_gameserver.Scoring.Calculation.{
  previous_submitters, is_earlier, insert_flag, flags_of_tick, to_stolen_flag, get_submitted_flags,
  get_checker_results, ranking_for_last_ticks, Database, points_of_tick, with_tick, sla_delta_for,
  FirstBloodAlgorithm, World, compute,
}
use saarctf_gameserver.Scoring.Calculation.Submissions.{
  IsUnique, length-previous_submitters, length-array_agg,
}
use saarctf_gameserver.Scoring.Calculation.Stored.{points, compute-IsStored}

-- the submissions of a team for a service in a tick
abbrev pub is_submission : ℕ → ℕ → SubmittedFlag → Bool
is_submission t s f = f.submitted_by == t && f.service_id == s

unfoldable pub submissions : ℕ → ℕ → ℕ → List SubmittedFlag → ℕ
submissions t s tick [] = 0
submissions t s tick (f ∷ fs) =
    let n = submissions t s tick fs in
    if f.tick_submitted == tick && is_submission t s f then n + 1 else n

count_all : ℕ → ℕ → List SubmittedFlag → ℕ
count_all t s [] = 0
count_all t s (f ∷ fs) = let n = count_all t s fs in if is_submission t s f then n + 1 else n

module _ (t s : ℕ) where
  count_all-insert :
      (f : SubmittedFlag) (fs : List SubmittedFlag)
      → count_all t s (insert_flag f fs) ≡ count_all t s (f ∷ fs)
  unfolding count_all insert_flag
  count_all-insert f [] = refl
  count_all-insert f (g ∷ gs) = ground (arith, count_all-insert f gs)

  count_all-flags_of_tick :
      (tick : ℕ) (fs : List SubmittedFlag)
      → count_all t s (flags_of_tick tick fs) ≡ submissions t s tick fs
  unfolding count_all flags_of_tick submissions
  count_all-flags_of_tick tick [] = refl
  count_all-flags_of_tick tick (f ∷ fs) =
      ground (arith, count_all-flags_of_tick tick fs, count_all-insert f (flags_of_tick tick fs))

module _ (F : Float) where
  module _ (t s : ℕ) where
    captures-map :
        (valid tick : ℕ) (db fs : List SubmittedFlag)
        → captures F t s (map (to_stolen_flag valid tick db) fs) ≡ count_all t s fs
    unfolding captures count_all to_stolen_flag
    captures-map valid tick db [] = refl
    captures-map valid tick db (f ∷ fs) = ground (arith, captures-map valid tick db fs)

    captures-get_submitted_flags :
        (valid tick : ℕ) (db : List SubmittedFlag)
        → captures F t s (get_submitted_flags valid tick db) ≡ submissions t s tick db
    unfolding get_submitted_flags
    captures-get_submitted_flags valid tick db =
        captures-map valid tick db (flags_of_tick tick db) ∙ count_all-flags_of_tick t s tick db

    captured-with_tick :
        (tick : ℕ) (ps : List (TeamPoints F))
        → captured F t s (with_tick F tick ps) ≡ captured F t s ps
    unfolding captured with_tick
    captured-with_tick tick [] = refl
    captured-with_tick tick (p ∷ ps) = ground (arith, captured-with_tick tick ps)

  contains-with_tick :
      (t s tick : ℕ) (ps : List (TeamPoints F))
      → contains F t s (with_tick F tick ps) ≡ contains F t s ps
  unfolding contains with_tick
  contains-with_tick t s tick [] = refl
  contains-with_tick t s tick (p ∷ ps) = ground (arith, contains-with_tick t s tick ps)

  -- a submission by a team of the game, of a flag of a team and a service of the game
  pub record IsPlayed (db : Database F) (f : SubmittedFlag) : Type 0 where
    pub attacker : contains_id db.team_ids f.submitted_by ≡ true
    pub victim : contains_id db.team_ids f.team_id ≡ true
    pub service : contains_service F db.services f.service_id ≡ true

  insert_flag-IsPlayed :
      (db : Database F) (f : SubmittedFlag) (fs : List SubmittedFlag)
      → IsPlayed db f
      → All (IsPlayed db) fs
      → All (IsPlayed db) (insert_flag f fs)
  unfolding insert_flag
  insert_flag-IsPlayed db f [] h hs = (h, hs)
  insert_flag-IsPlayed db f (g ∷ gs) h (k, ks) =
      if_ind (All (IsPlayed db)) (is_earlier f g) (f ∷ g ∷ gs) (g ∷ insert_flag f gs)
        (λ _. (h, (k, ks))) (λ _. (k, insert_flag-IsPlayed db f gs h ks))

  flags_of_tick-IsPlayed :
      (db : Database F) (tick : ℕ) (fs : List SubmittedFlag)
      → All (IsPlayed db) fs
      → All (IsPlayed db) (flags_of_tick tick fs)
  unfolding flags_of_tick
  flags_of_tick-IsPlayed db tick [] h = h
  flags_of_tick-IsPlayed db tick (f ∷ fs) (h, hs) =
      let rest = flags_of_tick-IsPlayed db tick fs hs in
      if_ind (All (IsPlayed db)) (f.tick_submitted == tick) _ (flags_of_tick tick fs)
        (λ _. insert_flag-IsPlayed db f (flags_of_tick tick fs) h rest) (λ _. rest)

  map-IsValid :
      (db : Database F) (valid tick : ℕ) (fs : List SubmittedFlag)
      → IsUnique db.flags
      → All (IsPlayed db) fs
      → All (IsValid F db.team_ids db.services) (map (to_stolen_flag valid tick db.flags) fs)
  unfolding to_stolen_flag
  map-IsValid db valid tick [] u h = tt
  map-IsValid db valid tick (f ∷ fs) u (h, hs) = (
    record {
      attacker = h.attacker;
      victim = h.victim;
      service = h.service;
      counted =
          length-array_agg valid tick _ (previous_submitters valid tick f db.flags)
            (length-previous_submitters valid tick f db.flags u);
    },
    map-IsValid db valid tick fs u hs,
  )

  module _ (fb : FirstBloodAlgorithm F) (valid : ℕ)
      (algorithm : List ℕ → List (Service F) → List StolenFlag → Algorithm F) (tick : ℕ)
      (last : List (TeamPoints F)) (w : World F fb valid algorithm) where
    abbrev stolen_flags : List StolenFlag
    stolen_flags = get_submitted_flags valid tick w.database.flags

    points-IsCounted :
        IsUnique w.database.flags
        → All (IsPlayed w.database) w.database.flags
        → ((t s : ℕ)
            → contains_id w.database.team_ids t ≡ true
            → contains_service F w.database.services s ≡ true
            → contains F t s last ≡ true)
        → Returns
            (IsCounted F w.database.team_ids w.database.services last stolen_flags)
            (points F fb valid algorithm tick last w)
    unfolding get_submitted_flags
    points-IsCounted u h k =
        let db = w.database in
        calculate_scoring_for_tick-IsCounted F (algorithm db.team_ids db.services stolen_flags) tick
          db.team_ids db.services (sla_delta_for F db.points)
          (get_checker_results tick db.checker_results) last
          (ranking_for_last_ticks valid tick db.ranking) stolen_flags k
          (map-IsValid db valid tick (flags_of_tick tick db.flags) u
            (flags_of_tick-IsPlayed db tick db.flags h))

    -- the points that are stored, counted
    compute-IsCounted :
        w.failed ≡ false
        → IsUnique w.database.flags
        → All (IsPlayed w.database) w.database.flags
        → ((t s : ℕ)
            → contains_id w.database.team_ids t ≡ true
            → contains_service F w.database.services s ≡ true
            → contains F t s last ≡ true)
        → (compute F fb valid algorithm tick last w).failed ≡ false
        → (ps : List (TeamPoints F)) × (IsCounted F w.database.team_ids w.database.services last
              stolen_flags ps
            × (points_of_tick F tick (compute F fb valid algorithm tick last w).database.points
                ≡ with_tick F tick ps))
    compute-IsCounted e u h k ok =
        let (ps, (computed, saved)) =
          (compute-IsStored F fb valid algorithm tick last w e).stored ok in
        (
          ps,
          (
            subst (Returns (IsCounted F w.database.team_ids w.database.services last stolen_flags))
                computed (points-IsCounted u h k),
            saved,
          ),
        )

    -- The calculation of a tick counts the table of submitted flags: if nothing has failed, no
    -- team submitted a flag twice, all submissions are by teams of the game and of flags of teams
    -- and services of the game, the points of the tick before have an entry for every team and
    -- service, and the calculation does not fail, then in the table of points the captured flags
    -- of every team of the game for every service of the game are those of the tick before and one
    -- for each row of the table of flags with this team, service and tick of submission.
    pub compute-captures :
        w.failed ≡ false
        → IsUnique w.database.flags
        → All (IsPlayed w.database) w.database.flags
        → ((t s : ℕ)
            → contains_id w.database.team_ids t ≡ true
            → contains_service F w.database.services s ≡ true
            → contains F t s last ≡ true)
        → (compute F fb valid algorithm tick last w).failed ≡ false
        → (t s : ℕ) → contains_id w.database.team_ids t ≡ true
        → contains_service F w.database.services s ≡ true
        → captured F t s
            (points_of_tick F tick (compute F fb valid algorithm tick last w).database.points)
          ≡ captured F t s last + submissions t s tick w.database.flags
    compute-captures e u h k ok t s ht hs =
        let (ps, (counted, saved)) = compute-IsCounted e u h k ok in
        ap (captured F t s) saved
        ∙ captured-with_tick t s tick ps
        ∙ counted.captures_counted t s ht hs
        ∙ ap (λ n. captured F t s last + n)
            (captures-get_submitted_flags t s valid tick w.database.flags)

    pub compute_complete :
        w.failed ≡ false
        → IsUnique w.database.flags
        → All (IsPlayed w.database) w.database.flags
        → ((t s : ℕ)
            → contains_id w.database.team_ids t ≡ true
            → contains_service F w.database.services s ≡ true
            → contains F t s last ≡ true)
        → (compute F fb valid algorithm tick last w).failed ≡ false
        → (t s : ℕ) → contains_id w.database.team_ids t ≡ true
        → contains_service F w.database.services s ≡ true
        → contains F t s
            (points_of_tick F tick (compute F fb valid algorithm tick last w).database.points)
          ≡ true
    compute_complete e u h k ok t s ht hs =
        let (ps, (counted, saved)) = compute-IsCounted e u h k ok in
        ap (contains F t s) saved ∙ contains-with_tick t s tick ps ∙ counted.complete t s ht hs
