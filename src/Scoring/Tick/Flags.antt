-- ===== src/Scoring/Tick/Flags.antt =====
-- The loop over the flags of a tick (controlserver/scoring/algorithms/algorithm.py): what it counts.
use saarctf_gameserver.Prelude.{
  ℕ, ◌+◌, ◌≡◌, refl, true, Option, none, some, List, [], ◌∷◌, All, arith, ◌∙◌, Returns, Returns-map,
}
use saarctf_gameserver.Scoring.Float.{Float}
use saarctf_gameserver.Scoring.Points.{StolenFlag, TeamPoints, contains, Algorithm}
use saarctf_gameserver.Scoring.Tick.{Board, Context, process_flag, process_flags}
use saarctf_gameserver.Scoring.Tick.Counts.{captured, stolen, captures, losses}
use saarctf_gameserver.Scoring.Tick.Steps.{IsSound, Step, process_flag-Step}

module _ (F : Float) (A : Algorithm F) (c : Context F A) where
  Step-IsSound :
      (ps qs : List (TeamPoints F)) (sf : StolenFlag)
      → ((t s : ℕ) → contains F t s qs ≡ contains F t s ps)
      → IsSound F A c ps sf
      → IsSound F A c qs sf
  Step-IsSound ps qs sf keys h = record {
    service = h.service;
    attacker = keys _ _ ∙ h.attacker;
    victim = keys _ _ ∙ h.victim;
    counted = h.counted;
  }

  Step-All-IsSound :
      (ps qs : List (TeamPoints F)) (sfs : List StolenFlag)
      → ((t s : ℕ) → contains F t s qs ≡ contains F t s ps)
      → All (IsSound F A c ps) sfs
      → All (IsSound F A c qs) sfs
  Step-All-IsSound ps qs [] keys h = h
  Step-All-IsSound ps qs (sf ∷ sfs) keys (h, hs) =
      (Step-IsSound ps qs sf keys h, Step-All-IsSound ps qs sfs keys hs)

  -- the counters after a loop over some flags
  pub record Counted (sfs : List StolenFlag) (b b' : Board F A) : Type 0 where
    pub keys_kept : (t s : ℕ) → contains F t s b'.points ≡ contains F t s b.points
    pub captures_counted :
        (t s : ℕ)
        → contains F t s b.points ≡ true
        → captured F t s b'.points ≡ captured F t s b.points + captures F t s sfs
    pub losses_counted :
        (t s : ℕ)
        → contains F t s b.points ≡ true
        → stolen F t s b'.points ≡ stolen F t s b.points + losses F t s b.seen sfs

  Counted-nil : (b : Board F A) → Counted [] b b
  unfolding captures losses
  Counted-nil b = record {
    keys_kept = λ t s. refl;
    captures_counted = λ t s h. ground arith;
    losses_counted = λ t s h. ground arith;
  }

  Counted-cons :
      (sf : StolenFlag) (sfs : List StolenFlag) (b b1 b' : Board F A)
      → Step F A c sf b b1
      → Counted sfs b1 b'
      → Counted (sf ∷ sfs) b b'
  unfolding captures losses
  Counted-cons sf sfs b b1 b' h k = record {
    keys_kept = λ t s. k.keys_kept t s ∙ h.keys t s;
    captures_counted =
        λ t s e. ground (arith, k.captures_counted t s (h.keys t s ∙ e), h.captures_step t s e);
    losses_counted = λ t s e.
        ground (arith, k.losses_counted t s (h.keys t s ∙ e), h.losses_step t s e, h.seen_step);
  }

  Counted-after :
      (sf : StolenFlag) (sfs : List StolenFlag) (b : Board F A) (o : Option (Board F A))
      → Returns (Step F A c sf b) o
      → ((b1 : Board F A)
          → Step F A c sf b b1
          → Returns (Counted sfs b1) (process_flags F A c sfs b1))
      → Returns
          (Counted (sf ∷ sfs) b)
          (elim o [ none ↦ none | some b' ↦ process_flags F A c sfs b' ])
  Counted-after sf sfs b none e f = e
  Counted-after sf sfs b (some b1) e f =
      Returns-map _ (Counted (sf ∷ sfs) b) _ (λ b'. Counted-cons sf sfs b b1 b' e) (f b1 e)

  -- When every flag is of a service of the game, its attacker and its owner have points for that
  -- service, and its number of previous submissions is that of the ids listed, then the loop over
  -- the flags of a tick ends without an exception. It has then added to the captured flags of
  -- every team and service the number of its submissions for that service, and to the stolen flags
  -- the number of its flags, each counted once, that were not stolen in an earlier tick.
  pub process_flags-Counted :
      (sfs : List StolenFlag) (b : Board F A)
      → All (IsSound F A c b.points) sfs
      → Returns (Counted sfs b) (process_flags F A c sfs b)
  unfolding process_flags
  process_flags-Counted [] b h = Counted-nil b
  process_flags-Counted (sf ∷ sfs) b (h, hs) =
      Counted-after sf sfs b (process_flag F A c sf b) (process_flag-Step F A c sf b h)
        λ b1 e. process_flags-Counted sfs b1 (Step-All-IsSound b.points b1.points sfs e.keys hs)
