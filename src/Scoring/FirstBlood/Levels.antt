-- ===== src/Scoring/FirstBlood/Levels.antt =====
-- `MultiFirstBloodAlgorithm` of controlserver/scoring/algorithms/firstblood.py: the levels of the
-- marks.
use saarctf_gameserver.Prelude.{
  ℕ, zero, suc, ◌≤◌, ◌<◌, ◌≡◌, Bool, ◌&&◌, ◌==◌, Option, none, some, if◌then◌else◌, List, [], ◌∷◌,
  All, Returns, arith, if_ind, subst, sym,
}
use saarctf_gameserver.Scoring.Points.{SubmittedFlag}
use saarctf_gameserver.Scoring.FirstBlood.{Mark, Services}
use saarctf_gameserver.Scoring.FirstBlood.Multi.{
  Cache, key, Judged, judge_flag, to_marks, get_firstbloods,
}
use saarctf_gameserver.Scoring.FirstBlood.Judged.{IsEarned, IsJudged, judge_flag-IsJudged}

-- the levels of the marks of a service and payload
abbrev is_key : ℕ → ℕ → ℕ → SubmittedFlag → Bool
is_key n s k f = f.service_id == s && key n f == k

unfoldable pub levels_at : ℕ → ℕ → ℕ → List Mark → List ℕ
levels_at n s k [] = []
levels_at n s k (m ∷ ms) =
    let rest = levels_at n s k ms in if is_key n s k m.flag then m.level ∷ rest else rest

-- a list that goes up from a level, to another at most
abbrev pub Rising : ℕ → ℕ → List ℕ → Type 0
Rising lo hi [] = lo ≤ hi
Rising lo hi (l ∷ ls) = (lo < l) × Rising l hi ls

Rising-from : (lo mid hi : ℕ) (ls : List ℕ) → lo ≤ mid → Rising mid hi ls → Rising lo hi ls
Rising-from lo mid hi [] h r = omega (arith, h, r)
Rising-from lo mid hi (l ∷ ls) h (r, rs) = (omega (arith, h, r), rs)

module _ (limit : ℕ) (services : Services) (db : List SubmittedFlag) where
  -- The levels of each service and payload go up, from that in the cache, and the table allows each.
  pub record IsRising (c : Cache) (r : List Mark × Cache) : Type 0 where
    pub rising :
        (n s k : ℕ)
        → services s ≡ some n
        → Rising (c.max_level s k) (r.1.max_level s k) (levels_at n s k r.0)
    pub earned :
        All
          (λ (m : Mark).
            (n : ℕ) → services m.flag.service_id ≡ some n → IsEarned limit n db m.flag m.level)
          r.0

  to_marks-IsRising :
      (f : SubmittedFlag) (n : ℕ) (c c1 : Cache) (l : ℕ) (ms : List Mark) (c' : Cache)
      → services f.service_id ≡ some n
      → IsJudged limit n db f c (record { cache = c1; level = l })
      → IsRising c1 (ms, c')
      → IsRising c (to_marks f l ms, c')
  unfolding to_marks levels_at
  to_marks-IsRising f n c c1 zero ms c' e h r = record {
    rising = λ m s k em. Rising-from _ _ _ (levels_at m s k ms) (h.grows s k) (r.rising m s k em);
    earned = r.earned;
  }
  to_marks-IsRising f n c c1 (suc l) ms c' e h r = record {
    rising = λ m s k em.
        if_ind (Rising (c.max_level s k) (c'.max_level s k)) (is_key m s k f)
          (suc l ∷ levels_at m s k ms) (levels_at m s k ms)
          (λ t.
            let (up, at) = h.raised s k (ground (arith, e, em, t)) (omega arith) in
            (up, Rising-from _ _ _ (levels_at m s k ms) (omega (arith, at)) (r.rising m s k em)))
          (λ _. Rising-from _ _ _ (levels_at m s k ms) (h.grows s k) (r.rising m s k em));
    earned = (
      (λ m em.
          subst (λ k. IsEarned limit k db f (suc l)) (ground (arith, e, em))
            (h.earned (omega arith))),
      r.earned,
    );
  }

  after_flag :
      (f : SubmittedFlag) (n : ℕ) (c : Cache) (j : Judged) (o : Option (List Mark × Cache))
      → services f.service_id ≡ some n
      → IsJudged limit n db f c j
      → Returns (IsRising j.cache) o
      → Returns
          (IsRising c)
          (elim o [ none ↦ none | some (ms, c') ↦ some (to_marks f j.level ms, c') ])
  after_flag f n c j none e h r = r
  after_flag f n c j (some (ms, c')) e h r = to_marks-IsRising f n c j.cache j.level ms c' e h r

  -- If every flag is of a service of the game, get_firstbloods of the algorithm with levels ends
  -- without an exception, whatever is in its cache and in the table of flags. For each service and
  -- payload, the levels of its marks then go up from the level in the cache, each above the one
  -- before, and end at most at the level that is in the cache afterwards. And the table allows
  -- each mark: the level is above those of the earlier flags of the service and payload, theirs
  -- are below the limit, and the attacker did not steal from the victim in them.
  pub get_firstbloods-IsRising :
      (fs : List SubmittedFlag) (c : Cache)
      → All (λ (f : SubmittedFlag). (n : ℕ) × (services f.service_id ≡ some n)) fs
      → Returns (IsRising c) (get_firstbloods limit services db fs c)
  unfolding get_firstbloods levels_at
  get_firstbloods-IsRising [] c h = record { rising = λ n s k e. omega arith; earned = tt }
  get_firstbloods-IsRising (f ∷ fs) c ((n, e), hs) =
      let rest = get_firstbloods-IsRising fs (judge_flag limit n db f c).cache hs in
      subst
        (λ o. Returns (IsRising c) (elim o [
          | none ↦ none
          | some n ↦ elim (get_firstbloods limit services db fs (judge_flag limit n db f c).cache) [
            | none ↦ none
            | some (ms, c') ↦ some (to_marks f (judge_flag limit n db f c).level ms, c')
          ]
        ]))
        (sym e)
        (after_flag f n c (judge_flag limit n db f c) _ e (judge_flag-IsJudged limit n db f c) rest)
