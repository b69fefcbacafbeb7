-- ===== src/Scoring/Calculation/Submissions.antt =====
-- The query of `_get_submitted_flags` in controlserver/scoring/scoring.py.
use saarctf_gameserver.Prelude.{
  ℕ, ◌≤◌, ◌≡◌, refl, Option, none, some, Bool, true, false, ◌&&◌, ◌||◌, ◌==◌, List, [], ◌∷◌, length,
  All, arith, map, if_ind,
}
use saarctf_gameserver.Scoring.Points.{SubmittedFlag, same_flag, StolenFlag}
use saarctf_gameserver.Scoring.Tick.{contains_id}
use saarctf_gameserver.Scoring.Calculation.{
  is_earlier, count_previous, previous_submitters, array_agg, flags_of_tick, insert_flag,
  to_stolen_flag, get_submitted_flags,
}

-- the constraint `submitted_flags_unique_1`: no team submits a flag twice
abbrev pub is_duplicate : SubmittedFlag → List SubmittedFlag → Bool
is_duplicate f [] = false
is_duplicate f (g ∷ db) = (same_flag f g && f.submitted_by == g.submitted_by) || is_duplicate f db

abbrev pub IsUnique : List SubmittedFlag → Type 0
IsUnique [] = Unit
IsUnique (f ∷ db) = (is_duplicate f db ≡ false) × IsUnique db

module _ (valid tick : ℕ) where
  -- a previous submitter has a row for the flag
  submitter-is_duplicate :
      (f g : SubmittedFlag) (db : List SubmittedFlag)
      → same_flag f g ≡ true
      → is_duplicate g db ≡ false
      → contains_id (previous_submitters valid tick f db) g.submitted_by ≡ false
  unfolding previous_submitters
  submitter-is_duplicate f g [] s h = refl
  submitter-is_duplicate f g (x ∷ db) s h = ground (arith, s, h, submitter-is_duplicate f g db s)

  pub length-previous_submitters :
      (f : SubmittedFlag) (db : List SubmittedFlag)
      → IsUnique db
      → length (previous_submitters valid tick f db) ≡ count_previous valid tick f db
  unfolding previous_submitters count_previous
  length-previous_submitters f [] h = refl
  length-previous_submitters f (g ∷ db) (h, hs) =
      ground (arith, h, submitter-is_duplicate f g db, length-previous_submitters f db hs)

  pub length-array_agg :
      (n : ℕ) (ts : List ℕ) → length ts ≡ n → (n == 0 || length (array_agg ts) == n) ≡ true
  unfolding array_agg
  length-array_agg n [] h = ground (arith, h)
  length-array_agg n (t ∷ ts) h = ground (arith, h, length-map ts)
    where
      length-map : (ts : List ℕ) → length (map (λ i. some i) ts) ≡ length ts
      length-map [] = refl
      length-map (t ∷ ts) = omega (arith, length-map ts)

  -- The teams that are listed for a flag with a number of previous submissions: without any, one
  -- NULL, and otherwise as many teams as there are submissions.
  abbrev pub Lists : ℕ → List (Option ℕ) → Type 0
  Lists n ids =
      (n ≡ 0 → ids ≡ none ∷ [])
      × (1 ≤ n → (ts : List ℕ) × (ids ≡ map (λ i. some i) ts) × (length ts ≡ n))

  array_agg-Lists : (n : ℕ) (ts : List ℕ) → length ts ≡ n → Lists n (array_agg ts)
  unfolding array_agg
  array_agg-Lists n [] h = ((λ _. refl), (λ k. absurd (omega (arith, h, k))))
  array_agg-Lists n (t ∷ ts) h = ((λ k. absurd (omega (arith, h, k))), (λ _. (t ∷ ts, refl, h)))

  -- a submission of the tick, with as many previous submitters as there were submissions before
  pub record IsStolen (sf : StolenFlag) : Type 0 where
    pub submitters : Lists sf.num_previous_submissions sf.previous_submitter_ids
    pub submitted : sf.flag.tick_submitted ≡ tick

  abbrev Submitted : SubmittedFlag → Type 0
  Submitted f = f.tick_submitted ≡ tick

  insert_flag-Submitted :
      (f : SubmittedFlag) (fs : List SubmittedFlag)
      → Submitted f
      → All Submitted fs
      → All Submitted (insert_flag f fs)
  unfolding insert_flag
  insert_flag-Submitted f [] h hs = (h, hs)
  insert_flag-Submitted f (g ∷ gs) h (k, ks) =
      if_ind (All Submitted) (is_earlier f g) (f ∷ g ∷ gs) (g ∷ insert_flag f gs)
        (λ _. (h, (k, ks))) (λ _. (k, insert_flag-Submitted f gs h ks))

  flags_of_tick-Submitted : (db : List SubmittedFlag) → All Submitted (flags_of_tick tick db)
  unfolding flags_of_tick
  flags_of_tick-Submitted [] = tt
  flags_of_tick-Submitted (f ∷ db) =
      if_ind (All Submitted) (f.tick_submitted == tick) (insert_flag f (flags_of_tick tick db))
        (flags_of_tick tick db)
        (λ now.
          insert_flag-Submitted f (flags_of_tick tick db) (ground (arith, now))
            (flags_of_tick-Submitted db))
        (λ _. flags_of_tick-Submitted db)

  map-IsStolen :
      (db fs : List SubmittedFlag)
      → IsUnique db
      → All Submitted fs
      → All IsStolen (map (to_stolen_flag valid tick db) fs)
  unfolding to_stolen_flag
  map-IsStolen db [] u h = tt
  map-IsStolen db (f ∷ fs) u (h, hs) = (
    record {
      submitters =
          array_agg-Lists _ (previous_submitters valid tick f db)
            (length-previous_submitters f db u);
      submitted = h;
    },
    map-IsStolen db fs u hs,
  )

  -- If no team submitted a flag twice, the query for the flags of a tick returns flags that were
  -- submitted in the tick. For one that it counts previous submissions of, it lists as many
  -- previous submitters as it counts, and for one without, a single NULL.
  pub get_submitted_flags-IsStolen :
      (db : List SubmittedFlag) → IsUnique db → All IsStolen (get_submitted_flags valid tick db)
  unfolding get_submitted_flags
  get_submitted_flags-IsStolen db u =
      map-IsStolen db (flags_of_tick tick db) u (flags_of_tick-Submitted db)
