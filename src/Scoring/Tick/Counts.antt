-- ===== src/Scoring/Tick/Counts.antt =====
-- What `calculate_scoring_for_tick` (controlserver/scoring/algorithms/algorithm.py) counts: the
-- flags that a team submitted, and the flags that were stolen from it.
use saarctf_gameserver.Prelude.{
  Option, none, some, ℕ, ◌+◌, ◌≡◌, refl, Bool, true, ◌&&◌, ◌==◌, if◌then◌else◌, List, [], ◌∷◌,
  arith,
}
use saarctf_gameserver.Scoring.Float.{Float}
use saarctf_gameserver.Scoring.Points.{
  SubmittedFlag, was_seen, StolenFlag, TeamPoints, has_key, contains, update, Algorithm,
}
use saarctf_gameserver.Scoring.Tick.{flag_stolen_attacker, flag_stolen_victim, add_off, correct}

module _ (F : Float) where
  module _ (t s : ℕ) where
    -- the counters of a team for a service
    unfoldable pub captured : List (TeamPoints F) → ℕ
    captured [] = 0
    captured (p ∷ ps) = if has_key F t s p then p.flag_captured_count else captured ps

    unfoldable pub stolen : List (TeamPoints F) → ℕ
    stolen [] = 0
    stolen (p ∷ ps) = if has_key F t s p then p.flag_stolen_count else stolen ps

    abbrev pub is_capture : StolenFlag → Bool
    is_capture sf = sf.flag.submitted_by == t && sf.flag.service_id == s

    -- the submissions of the team for the service
    unfoldable pub captures : List StolenFlag → ℕ
    captures [] = 0
    captures (sf ∷ sfs) = let n = captures sfs in if is_capture sf then n + 1 else n

    abbrev pub is_loss : StolenFlag → Bool
    is_loss sf =
        sf.flag.team_id == t && (sf.flag.service_id == s && sf.num_previous_submissions == 0)

    -- the flags of the team, each counted once, that were not stolen in an earlier tick
    unfoldable pub losses : List SubmittedFlag → List StolenFlag → ℕ
    losses seen [] = 0
    losses seen (sf ∷ sfs) =
        let again = losses seen sfs in
        let n = losses (sf.flag ∷ seen) sfs in
        if was_seen seen sf.flag then again else if is_loss sf then n + 1 else n

  abbrev KeepsKey : (TeamPoints F → TeamPoints F) → Type 0
  KeepsKey f = (p : TeamPoints F) → ((f p).team_id ≡ p.team_id) × ((f p).service_id ≡ p.service_id)

  contains-update :
      (t s t' s' : ℕ) (f : TeamPoints F → TeamPoints F) (ps : List (TeamPoints F))
      → KeepsKey f
      → contains F t s (update F t' s' f ps) ≡ contains F t s ps
  unfolding contains update
  contains-update t s t' s' f [] k = refl
  contains-update t s t' s' f (p ∷ ps) k = ground (arith, k p, contains-update t s t' s' f ps k)

  module _ (A : Algorithm F) (t s : ℕ) where
    pub captured-attacker :
        (sf : StolenFlag) (r : F.Real) (k : ℕ) (ps : List (TeamPoints F))
        → contains F t s ps ≡ true
        → captured t s (flag_stolen_attacker F A sf r k ps)
          ≡ (if is_capture t s sf then captured t s ps + 1 else captured t s ps)
    unfolding flag_stolen_attacker captured contains update
    captured-attacker sf r k [] h = ground arith
    captured-attacker sf r k (p ∷ ps) h = ground (arith, captured-attacker sf r k ps)

    pub captured-victim :
        (sf : StolenFlag) (r : F.Real) (k : ℕ) (v : F.Real) (ps : List (TeamPoints F))
        → captured t s (flag_stolen_victim F A sf r k v ps) ≡ captured t s ps
    unfolding flag_stolen_victim captured update
    captured-victim sf r k v [] = refl
    captured-victim sf r k v (p ∷ ps) = ground (arith, captured-victim sf r k v ps)

    pub stolen-attacker :
        (sf : StolenFlag) (r : F.Real) (k : ℕ) (ps : List (TeamPoints F))
        → stolen t s (flag_stolen_attacker F A sf r k ps) ≡ stolen t s ps
    unfolding flag_stolen_attacker stolen update
    stolen-attacker sf r k [] = refl
    stolen-attacker sf r k (p ∷ ps) = ground (arith, stolen-attacker sf r k ps)

    pub stolen-victim :
        (sf : StolenFlag) (r : F.Real) (k : ℕ) (v : F.Real) (ps : List (TeamPoints F))
        → contains F t s ps ≡ true
        → stolen t s (flag_stolen_victim F A sf r k v ps)
          ≡ (if is_loss t s sf then stolen t s ps + 1 else stolen t s ps)
    unfolding flag_stolen_victim stolen contains update
    stolen-victim sf r k v [] h = ground arith
    stolen-victim sf r k v (p ∷ ps) h = ground (arith, stolen-victim sf r k v ps)

    captured-add_off :
        (t' s' : ℕ) (d : F.Real) (ps : List (TeamPoints F))
        → captured t s (update F t' s' (add_off F A d) ps) ≡ captured t s ps
    unfolding captured update
    captured-add_off t' s' d [] = refl
    captured-add_off t' s' d (p ∷ ps) = ground (arith, captured-add_off t' s' d ps)

    pub captured-correct :
        (s' : ℕ) (d : F.Real) (ts : List (Option ℕ)) (ps : List (TeamPoints F))
        → captured t s (correct F A s' d ts ps) ≡ captured t s ps
    unfolding correct
    captured-correct s' d [] ps = refl
    captured-correct s' d (none ∷ ts) ps = refl
    captured-correct s' d (some t' ∷ ts) ps = ground (
      arith,
      captured-correct s' d ts (update F t' s' (add_off F A d) ps),
      captured-add_off t' s' d ps,
    )

    stolen-add_off :
        (t' s' : ℕ) (d : F.Real) (ps : List (TeamPoints F))
        → stolen t s (update F t' s' (add_off F A d) ps) ≡ stolen t s ps
    unfolding stolen update
    stolen-add_off t' s' d [] = refl
    stolen-add_off t' s' d (p ∷ ps) = ground (arith, stolen-add_off t' s' d ps)

    pub stolen-correct :
        (s' : ℕ) (d : F.Real) (ts : List (Option ℕ)) (ps : List (TeamPoints F))
        → stolen t s (correct F A s' d ts ps) ≡ stolen t s ps
    unfolding correct
    stolen-correct s' d [] ps = refl
    stolen-correct s' d (none ∷ ts) ps = refl
    stolen-correct s' d (some t' ∷ ts) ps = ground (
      arith,
      stolen-correct s' d ts (update F t' s' (add_off F A d) ps),
      stolen-add_off t' s' d ps,
    )

    pub contains-correct :
        (s' : ℕ) (d : F.Real) (ts : List (Option ℕ)) (ps : List (TeamPoints F))
        → contains F t s (correct F A s' d ts ps) ≡ contains F t s ps
    unfolding correct
    contains-correct s' d [] ps = refl
    contains-correct s' d (none ∷ ts) ps = refl
    contains-correct s' d (some t' ∷ ts) ps = ground (
      arith,
      contains-correct s' d ts (update F t' s' (add_off F A d) ps),
      contains-update t s t' s' (add_off F A d) ps (λ p. (refl, refl)),
    )

    pub contains-attacker :
        (sf : StolenFlag) (r : F.Real) (k : ℕ) (ps : List (TeamPoints F))
        → contains F t s (flag_stolen_attacker F A sf r k ps) ≡ contains F t s ps
    unfolding flag_stolen_attacker
    contains-attacker sf r k ps = contains-update t s _ _ _ ps (λ p. (refl, refl))

    pub contains-victim :
        (sf : StolenFlag) (r : F.Real) (k : ℕ) (v : F.Real) (ps : List (TeamPoints F))
        → contains F t s (flag_stolen_victim F A sf r k v ps) ≡ contains F t s ps
    unfolding flag_stolen_victim
    contains-victim sf r k v ps = contains-update t s _ _ _ ps (λ p. (refl, refl))
