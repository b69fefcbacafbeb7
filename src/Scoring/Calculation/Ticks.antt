-- ===== src/Scoring/Calculation/Ticks.antt =====
-- Tick after tick of controlserver/scoring/scoring.py: what the table of points counts in the end.
use saarctf_gameserver.Prelude.{
  ℕ, zero, suc, ◌+◌, ◌≡◌, refl, sym, ap, true, false, Option, none, some, if_ind, List, [], ◌∷◌,
  All, arith, ◌∙◌,
}
use saarctf_gameserver.Scoring.Float.{Float}
use saarctf_gameserver.Scoring.Points.{
  SubmittedFlag, StolenFlag, Service, TeamPoints, contains, Algorithm,
}
use saarctf_gameserver.Scoring.Tick.{contains_id}
use saarctf_gameserver.Scoring.Tick.Counts.{captured}
use saarctf_gameserver.Scoring.Tick.Totals.{contains_service, contains-new_tick, new_tick-IsFresh}
use saarctf_gameserver.Scoring.FirstBlood.{Mark}
use saarctf_gameserver.Scoring.Calculation.{
  Database, default_points, FirstBloodAlgorithm, World, fail, commit, compute, stored_results,
  compute_after, save_teampoints,
}
use saarctf_gameserver.Scoring.Calculation.Submissions.{IsUnique}
use saarctf_gameserver.Scoring.Calculation.Captures.{
  submissions, IsPlayed, compute-captures, compute_complete,
}
use saarctf_gameserver.Scoring.Calculation.Marks.{
  submissions-record_first_bloods, IsUnique-record_first_bloods, IsPlayed-record_first_bloods,
}

-- the submissions of a team for a service in the ticks up to this one
unfoldable pub submissions_up_to : ℕ → ℕ → ℕ → List SubmittedFlag → ℕ
submissions_up_to t s zero fs = 0
submissions_up_to t s (suc n) fs = submissions_up_to t s n fs + submissions t s (suc n) fs

module _ (F : Float) (fb : FirstBloodAlgorithm F) (valid : ℕ)
    (algorithm : List ℕ → List (Service F) → List StolenFlag → Algorithm F) where
  abbrev W : Type 0
  W = World F fb valid algorithm

  -- the ticks are calculated in order, each after the results of the one before are there
  unfoldable pub calculate_ticks : ℕ → W → W
  calculate_ticks zero w = w
  calculate_ticks (suc n) w = compute_after F fb valid algorithm n (calculate_ticks n w)

  -- what a calculation leaves alone, if it does not fail
  record Preserves (w w' : W) : Type 0 where
    teams : w'.database.team_ids ≡ w.database.team_ids
    services : w'.database.services ≡ w.database.services
    unique : IsUnique w.database.flags → IsUnique w'.database.flags
    played :
        All (IsPlayed F w.database) w.database.flags
        → All (IsPlayed F w'.database) w'.database.flags
    same : (t s n : ℕ) → submissions t s n w'.database.flags ≡ submissions t s n w.database.flags

  All-IsPlayed :
      (db db' : Database F) (fs : List SubmittedFlag)
      → db'.team_ids ≡ db.team_ids
      → db'.services ≡ db.services
      → All (IsPlayed F db) fs
      → All (IsPlayed F db') fs
  All-IsPlayed db db' [] a b h = h
  All-IsPlayed db db' (f ∷ fs) a b (h, hs) = (
    record {
      attacker = ap (λ ts. contains_id ts f.submitted_by) a ∙ h.attacker;
      victim = ap (λ ts. contains_id ts f.team_id) a ∙ h.victim;
      service = ap (λ ss. contains_service F ss f.service_id) b ∙ h.service;
    },
    All-IsPlayed db db' fs a b hs,
  )

  commit-Preserves :
      (n : ℕ) (ps : List (TeamPoints F)) (marks : List Mark) (cache : fb.Cache) (w : W)
      → Preserves w (commit F fb valid algorithm n ps marks cache w)
  unfolding save_teampoints
  commit-Preserves n ps marks cache w = record {
    teams = refl;
    services = refl;
    unique = λ h. IsUnique-record_first_bloods marks w.database.flags h;
    played = λ h.
        All-IsPlayed w.database _ _ refl refl
          (IsPlayed-record_first_bloods F w.database marks w.database.flags h);
    same = λ t s k. submissions-record_first_bloods t s k marks w.database.flags;
  }

  judged-Preserves :
      (n : ℕ) (w : W) (o : Option (List (TeamPoints F))) (r : Option (List Mark × fb.Cache))
      → let w' : W = elim r [
        | none ↦ fail F fb valid algorithm w
        | some (marks, cache) ↦ elim o [
          | none ↦ fail F fb valid algorithm w
          | some ps ↦ commit F fb valid algorithm n ps marks cache w
        ]
      ] in
        w'.failed ≡ false → Preserves w w'
  unfolding fail
  judged-Preserves n w o none h = ground (arith, h)
  judged-Preserves n w none (some (marks, cache)) h = ground (arith, h)
  judged-Preserves n w (some ps) (some (marks, cache)) h = commit-Preserves n ps marks cache w

  compute-Preserves :
      (n : ℕ) (last : List (TeamPoints F)) (w : W)
      → (compute F fb valid algorithm n last w).failed ≡ false
      → Preserves w (compute F fb valid algorithm n last w)
  unfolding compute
  compute-Preserves n last w h = judged-Preserves n w _ _ h

  Preserves-trans : (w w' w'' : W) → Preserves w w' → Preserves w' w'' → Preserves w w''
  Preserves-trans w w' w'' h k = record {
    teams = k.teams ∙ h.teams;
    services = k.services ∙ h.services;
    unique = λ u. k.unique (h.unique u);
    played = λ p. k.played (h.played p);
    same = λ t s n. k.same t s n ∙ h.same t s n;
  }

  module _ (w0 : W) (unique : IsUnique w0.database.flags)
      (played : All (IsPlayed F w0.database) w0.database.flags) where
    -- after tick `n`
    record IsCountedUpTo (n : ℕ) (w : W) : Type 0 where
      preserves : Preserves w0 w
      all_there :
          (t s : ℕ)
          → contains_id w.database.team_ids t ≡ true
          → contains_service F w.database.services s ≡ true
          → contains F t s (stored_results F fb valid algorithm n w.database) ≡ true
      counts :
          (t s : ℕ)
          → contains_id w.database.team_ids t ≡ true
          → contains_service F w.database.services s ≡ true
          → captured F t s (stored_results F fb valid algorithm n w.database)
            ≡ submissions_up_to t s n w0.database.flags

    start-IsCountedUpTo : IsCountedUpTo 0 w0
    unfolding stored_results default_points submissions_up_to
    start-IsCountedUpTo = record {
      preserves = record {
        teams = refl;
        services = refl;
        unique = λ h. h;
        played = λ h. h;
        same = λ t s n. refl;
      };
      all_there = λ t s ht hs.
          contains-new_tick F t s 0 w0.database.team_ids w0.database.services
          ∙ ground (arith, ht, hs);
      counts = λ t s ht hs. (new_tick-IsFresh F t s 0 w0.database.team_ids w0.database.services).0;
    }

    module _ (n : ℕ) (w : W) (h : IsCountedUpTo n w) (e : w.failed ≡ false) where
      abbrev last : List (TeamPoints F)
      last = stored_results F fb valid algorithm n w.database

      abbrev next : W
      next = compute F fb valid algorithm (suc n) last w

      next-IsCountedUpTo : next.failed ≡ false → IsCountedUpTo (suc n) next
      unfolding stored_results submissions_up_to
      next-IsCountedUpTo ok =
          let k = compute-Preserves (suc n) last w ok in
          let u = h.preserves.unique unique in
          let p = h.preserves.played played in
          let of_team : (t : ℕ)
              → contains_id next.database.team_ids t ≡ true
              → contains_id w.database.team_ids t ≡ true =
            λ t ht. ap (λ ts. contains_id ts t) (sym k.teams) ∙ ht in
          let of_service : (s : ℕ)
              → contains_service F next.database.services s ≡ true
              → contains_service F w.database.services s ≡ true =
            λ s hs. ap (λ ss. contains_service F ss s) (sym k.services) ∙ hs in
          record {
            preserves = Preserves-trans w0 w next h.preserves k;
            all_there = λ t s ht hs.
                compute_complete F fb valid algorithm (suc n) last w e u p h.all_there ok t s
                  (of_team t ht) (of_service s hs);
            counts = λ t s ht hs. omega (
              arith,
              compute-captures F fb valid algorithm (suc n) last w e u p h.all_there ok t s
                  (of_team t ht) (of_service s hs),
              h.counts t s (of_team t ht) (of_service s hs),
              h.preserves.same t s (suc n),
            );
          }

    ticks-IsCountedUpTo :
        (n : ℕ)
        → w0.failed ≡ false
        → (calculate_ticks n w0).failed ≡ false
        → IsCountedUpTo n (calculate_ticks n w0)
    unfolding calculate_ticks compute_after
    ticks-IsCountedUpTo zero e = λ ok. start-IsCountedUpTo
    ticks-IsCountedUpTo (suc n) e =
        if_ind (λ w'. w'.failed ≡ false → IsCountedUpTo (suc n) w') (calculate_ticks n w0).failed
          (calculate_ticks n w0) _ (λ yes ok. ground (arith, yes, ok))
          (λ no. next-IsCountedUpTo n (calculate_ticks n w0) (ticks-IsCountedUpTo n e no) no)

    -- If no team submitted a flag twice, all submissions are by teams of the game and of flags of
    -- teams and services of the game, and the ticks from 1 to n are calculated in order without a
    -- failure, then the captured flags of every team of the game for every service of the game, in
    -- the results of tick n, are the rows of the table of flags with this team and service and a
    -- tick of submission from 1 to n.
    pub calculate_ticks-captures :
        (n : ℕ)
        → w0.failed ≡ false
        → (calculate_ticks n w0).failed ≡ false
        → (t s : ℕ) → contains_id w0.database.team_ids t ≡ true
        → contains_service F w0.database.services s ≡ true
        → captured F t s (stored_results F fb valid algorithm n (calculate_ticks n w0).database)
          ≡ submissions_up_to t s n w0.database.flags
    calculate_ticks-captures n e ok t s ht hs =
        let h = ticks-IsCountedUpTo n e ok in
        h.counts t s (ap (λ ts. contains_id ts t) h.preserves.teams ∙ ht)
          (ap (λ ss. contains_service F ss s) h.preserves.services ∙ hs)
