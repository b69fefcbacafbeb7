-- ===== src/Scoring/FirstBlood/Judged.antt =====
-- One flag of `MultiFirstBloodAlgorithm` (controlserver/scoring/algorithms/firstblood.py): what its
-- level has to do with the cache and the table.
use saarctf_gameserver.Prelude.{
  ℕ, ◌≤◌, ◌<◌, ◌≡◌, true, false, ◌||◌, ◌==◌, List, [], ◌∷◌, All, arith,
}
use saarctf_gameserver.Scoring.Points.{SubmittedFlag}
use saarctf_gameserver.Scoring.Tick.{contains_id, add_id}
use saarctf_gameserver.Scoring.FirstBlood.Multi.{
  Cache, key, is_at, add_ids, get_max_level, get_previous_victims, Judged, judge_victim,
  judge_loaded, judge_flag,
}

add_ids-keeps :
    (is ids : List ℕ) (i : ℕ) → contains_id ids i ≡ true → contains_id (add_ids is ids) i ≡ true
unfolding add_ids
add_ids-keeps [] ids i h = h
add_ids-keeps (j ∷ is) ids i h = add_ids-keeps is (add_id j ids) i (ground (arith, h))

add_ids-contains :
    (is ids : List ℕ) (i : ℕ) → contains_id (add_ids is ids) i ≡ false → contains_id is i ≡ false
unfolding add_ids
add_ids-contains [] ids i h = ground arith
add_ids-contains (j ∷ is) ids i h =
    ground (arith, h, add_ids-contains is (add_id j ids) i h, add_ids-keeps is (add_id j ids) i)

module _ (n : ℕ) (f : SubmittedFlag) where
  -- a flag of the same service, of the same payload if it has any, that was submitted before
  abbrev pub IsEarlier : SubmittedFlag → Type 0
  IsEarlier g =
      (g.service_id ≡ f.service_id) × ((n == 0 || g.payload == f.payload) ≡ true) × (g.ts < f.ts)

  get_max_level-above :
      (bound : ℕ) (db : List SubmittedFlag)
      → get_max_level n f db < bound
      → All (λ g. IsEarlier g → g.is_firstblood < bound) db
  unfolding get_max_level
  get_max_level-above bound [] h = tt
  get_max_level-above bound (g ∷ db) h =
      ((λ (s, p, t). ground (arith, h, s, p, t)), get_max_level-above bound db (ground (arith, h)))

  get_previous_victims-all :
      (db : List SubmittedFlag)
      → contains_id (get_previous_victims n f db) f.team_id ≡ false
      → All
          (λ g. IsEarlier g → g.submitted_by ≡ f.submitted_by → (g.team_id == f.team_id) ≡ false)
          db
  unfolding get_previous_victims
  get_previous_victims-all [] h = tt
  get_previous_victims-all (g ∷ db) h = (
    (λ (s, p, t) b. ground (arith, h, s, p, t, b)),
    get_previous_victims-all db (ground (arith, h)),
  )

module _ (limit n : ℕ) (db : List SubmittedFlag) (f : SubmittedFlag) where
  -- A level that the rows of the table allow.
  pub record IsEarned (level : ℕ) : Type 0 where
    pub above : All (λ g. IsEarlier n f g → g.is_firstblood < level) db
    pub below_limit : All (λ g. IsEarlier n f g → g.is_firstblood < limit) db
    pub new_victim :
        All
          (λ g.
            IsEarlier n f g → g.submitted_by ≡ f.submitted_by → (g.team_id == f.team_id) ≡ false)
          db

  judged-IsEarned :
      (level : ℕ)
      → (get_max_level n f db < level)
        × (get_max_level n f db < limit)
        × (contains_id (get_previous_victims n f db) f.team_id ≡ false)
      → IsEarned level
  judged-IsEarned level (h, l, v) = record {
    above = get_max_level-above n f level db h;
    below_limit = get_max_level-above n f limit db l;
    new_victim = get_previous_victims-all n f db v;
  }

  pub record IsJudged (c : Cache) (j : Judged) : Type 0 where
    pub grows : (s k : ℕ) → c.max_level s k ≤ j.cache.max_level s k
    pub raised :
        (s k : ℕ)
        → is_at f.service_id (key n f) s k ≡ true
        → 0 < j.level
        → (c.max_level s k < j.level) × (j.cache.max_level s k ≡ j.level)
    pub earned : 0 < j.level → IsEarned j.level

  pub judge_flag-IsJudged : (c : Cache) → IsJudged c (judge_flag limit n db f c)
  unfolding judge_flag judge_loaded judge_victim
  judge_flag-IsJudged c = record {
    grows = λ s k. ground arith;
    raised = λ s k h l. ground (arith, h, l);
    earned = λ l. judged-IsEarned _ (
        ground (
          arith,
          l,
          add_ids-contains (get_previous_victims n f db)
              (c.victims f.service_id (key n f) f.submitted_by) f.team_id,
        ));
  }
