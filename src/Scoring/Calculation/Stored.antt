-- ===== src/Scoring/Calculation/Stored.antt =====
-- What a calculation of controlserver/scoring/scoring.py leaves in the table of points.
use saarctf_gameserver.Prelude.{
  ℕ, ◌≡◌, refl, true, false, ◌==◌, Option, none, some, List, [], ◌∷◌, ◌++◌, append-nil, arith,
}
use saarctf_gameserver.Scoring.Float.{Float}
use saarctf_gameserver.Scoring.Points.{StolenFlag, Service, TeamPoints, Algorithm}
use saarctf_gameserver.Scoring.Tick.{calculate_scoring_for_tick}
use saarctf_gameserver.Scoring.FirstBlood.{Mark}
use saarctf_gameserver.Scoring.Calculation.{
  get_submitted_flags, get_checker_results, ranking_for_last_ticks, Database, points_of_tick,
  points_of_others, with_tick, save_teampoints, sla_delta_for, FirstBloodAlgorithm, World, fail,
  commit, compute,
}

module _ (F : Float) where
  points_of_tick-append :
      (t : ℕ) (ps qs : List (TeamPoints F))
      → points_of_tick F t (ps ++ qs) ≡ points_of_tick F t ps ++ points_of_tick F t qs
  unfolding points_of_tick
  points_of_tick-append t [] qs = refl
  points_of_tick-append t (p ∷ ps) qs = ground (arith, points_of_tick-append t ps qs)

  points_of_tick-others :
      (t : ℕ) (ps : List (TeamPoints F)) → points_of_tick F t (points_of_others F t ps) ≡ []
  unfolding points_of_tick points_of_others
  points_of_tick-others t [] = refl
  points_of_tick-others t (p ∷ ps) = ground (arith, points_of_tick-others t ps)

  other_tick-others :
      (t t' : ℕ) (ps : List (TeamPoints F))
      → (t == t') ≡ false
      → points_of_tick F t' (points_of_others F t ps) ≡ points_of_tick F t' ps
  unfolding points_of_tick points_of_others
  other_tick-others t t' [] h = refl
  other_tick-others t t' (p ∷ ps) h = ground (arith, h, other_tick-others t t' ps h)

  points_of_tick-with_tick :
      (t : ℕ) (ps : List (TeamPoints F)) → points_of_tick F t (with_tick F t ps) ≡ with_tick F t ps
  unfolding points_of_tick with_tick
  points_of_tick-with_tick t [] = refl
  points_of_tick-with_tick t (p ∷ ps) = ground (arith, points_of_tick-with_tick t ps)

  other_tick-with_tick :
      (t t' : ℕ) (ps : List (TeamPoints F))
      → (t == t') ≡ false
      → points_of_tick F t' (with_tick F t ps) ≡ []
  unfolding points_of_tick with_tick
  other_tick-with_tick t t' [] h = refl
  other_tick-with_tick t t' (p ∷ ps) h = ground (arith, h, other_tick-with_tick t t' ps h)

  save_teampoints-tick :
      (t : ℕ) (ps : List (TeamPoints F)) (db : Database F)
      → points_of_tick F t (save_teampoints F t ps db).points ≡ with_tick F t ps
  unfolding save_teampoints
  save_teampoints-tick t ps db =
      rw (points_of_tick-append, points_of_tick-others, points_of_tick-with_tick) refl

  save_teampoints-others :
      (t t' : ℕ) (ps : List (TeamPoints F)) (db : Database F)
      → (t == t') ≡ false
      → points_of_tick F t' (save_teampoints F t ps db).points ≡ points_of_tick F t' db.points
  unfolding save_teampoints
  save_teampoints-others t t' ps db h =
      rw
        (
          points_of_tick-append,
          other_tick-others t t' db.points h,
          other_tick-with_tick t t' ps h,
          append-nil,
        )
        refl

  module _ (fb : FirstBloodAlgorithm F) (valid : ℕ)
      (algorithm : List ℕ → List (Service F) → List StolenFlag → Algorithm F) (tick : ℕ)
      (last : List (TeamPoints F)) (w : World F fb valid algorithm) where
    -- the points that the algorithm computes for the tick
    abbrev pub points : Option (List (TeamPoints F))
    points =
        let db = w.database in
        let flags = get_submitted_flags valid tick db.flags in
        calculate_scoring_for_tick F (algorithm db.team_ids db.services flags) tick db.team_ids
          db.services (sla_delta_for F db.points) (get_checker_results tick db.checker_results) last
          (ranking_for_last_ticks valid tick db.ranking) flags

    -- the world afterwards, where the algorithm returns `o`
    pub record IsStored (o : Option (List (TeamPoints F))) (w' : World F fb valid algorithm)
        : Type 0 where
      pub rolled_back : w'.failed ≡ true → (w'.database ≡ w.database) × (w'.cache ≡ fb.reset_caches)
      pub stored :
          w'.failed ≡ false
          → (ps : List (TeamPoints F)) × ((o ≡ some ps)
              × (points_of_tick F tick w'.database.points ≡ with_tick F tick ps))
      pub others_kept :
          (t : ℕ)
          → (tick == t) ≡ false
          → points_of_tick F t w'.database.points ≡ points_of_tick F t w.database.points

    fail-IsStored : (o : Option (List (TeamPoints F))) → IsStored o (fail F fb valid algorithm w)
    unfolding fail
    fail-IsStored o = record {
      rolled_back = λ h. (refl, refl);
      stored = λ h. ground (arith, h);
      others_kept = λ t h. refl;
    }

    commit-IsStored :
        (ps : List (TeamPoints F)) (marks : List Mark) (cache : fb.Cache)
        → w.failed ≡ false
        → IsStored (some ps) (commit F fb valid algorithm tick ps marks cache w)
    commit-IsStored ps marks cache e = record {
      rolled_back = λ h. ground (arith, e, h);
      stored = λ h. (ps, (refl, save_teampoints-tick tick ps _));
      others_kept = λ t h. save_teampoints-others tick t ps _ h;
    }

    judged-IsStored :
        (o : Option (List (TeamPoints F))) (r : Option (List Mark × fb.Cache))
        → w.failed ≡ false
        → IsStored o (elim r [
          | none ↦ fail F fb valid algorithm w
          | some (marks, cache) ↦ elim o [
            | none ↦ fail F fb valid algorithm w
            | some ps ↦ commit F fb valid algorithm tick ps marks cache w
          ]
        ])
    judged-IsStored o none e = fail-IsStored o
    judged-IsStored none (some (marks, cache)) e = fail-IsStored none
    judged-IsStored (some ps) (some (marks, cache)) e = commit-IsStored ps marks cache e

    -- The calculation of a tick, where nothing has failed before it, is all or nothing. If it
    -- fails, the database is as before, and the cache of the first blood is reset. If not, the
    -- table has for this tick the points that the algorithm computes from the database, and no
    -- others. The points of other ticks stay in either case.
    pub compute-IsStored :
        w.failed ≡ false → IsStored points (compute F fb valid algorithm tick last w)
    unfolding compute
    compute-IsStored e = judged-IsStored points _ e
