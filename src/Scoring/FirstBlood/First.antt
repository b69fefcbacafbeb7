-- ===== src/Scoring/FirstBlood/First.antt =====
-- `DefaultFirstBloodAlgorithm` of controlserver/scoring/algorithms/firstblood.py: who gets the mark.
use saarctf_gameserver.Prelude.{
  ℕ, ◌+◌, ◌≡◌, refl, Bool, true, false, ◌&&◌, Option, none, some, if◌then◌else◌, List, [], ◌∷◌,
  arith, All,
}
use saarctf_gameserver.Scoring.Points.{SubmittedFlag, was_seen}
use saarctf_gameserver.Scoring.FirstBlood.{Mark, Services, is_target}
use saarctf_gameserver.Scoring.FirstBlood.Default.{
  Entry, State, in_cache, is_marked, is_first_blood, to_cache, is_new_first, next, judge, judged,
  get_firstbloods, new_cache, record_all, keep_firsts, recomputed,
}

-- the marks of a service and a payload
unfoldable pub count_marks : ℕ → ℕ → ℕ → List Mark → ℕ
count_marks n s p [] = 0
count_marks n s p (m ∷ ms) =
    let rest = count_marks n s p ms in if is_target n s p m.flag then rest + 1 else rest

abbrev pub to_count : Bool → ℕ
to_count b = if b then 1 else 0

module _ (services : Services) (db : List SubmittedFlag) (n s p : ℕ) where
  in_cache-target :
      (f : SubmittedFlag) (es : List Entry)
      → is_target n s p f ≡ true
      → in_cache n f.service_id f.payload es ≡ in_cache n s p es
  unfolding in_cache
  in_cache-target f [] h = refl
  in_cache-target f (e ∷ es) h = ground (arith, h, in_cache-target f es h)

  cache-next :
      (f : SubmittedFlag) (c : State)
      → (next services db c f).cache
        ≡ (if is_new_first services db c f then to_cache f c.cache else c.cache)
  unfolding next is_new_first
  cache-next f c = ground arith

  new_first-in_cache :
      (f : SubmittedFlag) (c : State)
      → services s ≡ some n
      → is_new_first services db c f ≡ true
      → is_target n s p f ≡ true
      → in_cache n s p c.cache ≡ false
  unfolding is_new_first is_first_blood
  new_first-in_cache f c h k t = ground (arith, h, k, t, in_cache-target f c.cache t)

  step-count :
      (f : SubmittedFlag) (c : State)
      → services s ≡ some n
      → to_count (in_cache n s p (next services db c f).cache)
        ≡ to_count (in_cache n s p c.cache)
          + to_count (is_new_first services db c f && is_target n s p f)
  unfolding in_cache
  step-count f c h = ground (arith, cache-next f c, new_first-in_cache f c h)

  judge-count :
      (fs : List SubmittedFlag) (c : State)
      → services s ≡ some n
      → to_count (in_cache n s p c.cache) + count_marks n s p (judge services db fs c)
        ≡ to_count (in_cache n s p (judged services db fs c).cache)
  unfolding judge judged count_marks
  judge-count [] c h = ground arith
  judge-count (f ∷ fs) c h =
      ground (arith, step-count f c h, judge-count fs (next services db c f) h)

  -- For a service of the game and a payload (any payload, for a service without payloads), the
  -- number of marks that a call of get_firstbloods of the default algorithm gives, and one more if
  -- the cache had one recorded before, is 1 if the cache has one recorded afterwards and 0 if not.
  -- So the calls give at most one mark between two resets of the cache.
  pub get_firstbloods-count :
      (fs : List SubmittedFlag) (cache : List Entry)
      → services s ≡ some n
      → to_count (in_cache n s p cache) + count_marks n s p (get_firstbloods services db fs cache)
        ≡ to_count (in_cache n s p (new_cache services db fs cache))
  unfolding get_firstbloods new_cache
  get_firstbloods-count fs cache h = judge-count fs (record { cache = cache; seen = [] }) h

-- the first flag of a service and a payload, and the first mark
unfoldable pub find_target : ℕ → ℕ → ℕ → List SubmittedFlag → Option SubmittedFlag
find_target n s p [] = none
find_target n s p (f ∷ fs) = if is_target n s p f then some f else find_target n s p fs

unfoldable pub find_mark : ℕ → ℕ → ℕ → List Mark → Option SubmittedFlag
find_mark n s p [] = none
find_mark n s p (m ∷ ms) = if is_target n s p m.flag then some m.flag else find_mark n s p ms

module _ (services : Services) (db : List SubmittedFlag) (n s p : ℕ) (known : services s ≡ some n)
    (unmarked : (f : SubmittedFlag) → is_target n s p f ≡ true → is_marked n f db ≡ false) where
  -- no flag of the service and the payload was in this call
  record IsFresh (c : State) : Type 0 where
    uncached : in_cache n s p c.cache ≡ false
    unseen : (f : SubmittedFlag) → is_target n s p f ≡ true → was_seen c.seen f ≡ false

  target-is_new_first :
      (f : SubmittedFlag) (c : State)
      → IsFresh c
      → is_target n s p f ≡ true
      → is_new_first services db c f ≡ true
  unfolding is_new_first is_first_blood
  target-is_new_first f c h t = ground (
    arith,
    known,
    t,
    h.uncached,
    h.unseen f t,
    unmarked f t,
    in_cache-target services db n s p f c.cache t,
  )

  other-IsFresh :
      (f : SubmittedFlag) (c : State)
      → IsFresh c
      → is_target n s p f ≡ false
      → IsFresh (next services db c f)
  unfolding next was_seen
  other-IsFresh f c h t = record {
    uncached = ground (arith, h.uncached, t, step-count services db n s p f c known);
    unseen = λ g tg. ground (arith, t, tg, h.unseen g tg);
  }

  judge-first :
      (fs : List SubmittedFlag) (c : State)
      → IsFresh c
      → find_mark n s p (judge services db fs c) ≡ find_target n s p fs
  unfolding judge find_mark find_target
  judge-first [] c h = refl
  judge-first (f ∷ fs) c h = ground (
    arith,
    target-is_new_first f c h,
    λ (t : is_target n s p f ≡ false).
        judge-first fs (next services db c f) (other-IsFresh f c h t),
  )

  -- If neither the cache nor the table has a mark for a service of the game and a payload,
  -- get_firstbloods of the default algorithm gives its first mark for them to the first of their
  -- flags, and none if there is no such flag.
  pub get_firstbloods-first :
      (fs : List SubmittedFlag) (cache : List Entry)
      → in_cache n s p cache ≡ false
      → find_mark n s p (get_firstbloods services db fs cache) ≡ find_target n s p fs
  unfolding get_firstbloods was_seen
  get_firstbloods-first fs cache h =
      judge-first fs (record { cache = cache; seen = [] })
        (record { uncached = h; unseen = λ f t. refl })

-- every flag is in the cache
abbrev AllCached : ℕ → List Entry → List SubmittedFlag → Type 0
AllCached n cache fs = All (λ f. in_cache n f.service_id f.payload cache ≡ true) fs

record_all-keeps :
    (n s p : ℕ) (fs : List SubmittedFlag) (cache : List Entry)
    → in_cache n s p cache ≡ true
    → in_cache n s p (record_all fs cache) ≡ true
unfolding record_all in_cache
record_all-keeps n s p [] cache h = h
record_all-keeps n s p (f ∷ fs) cache h =
    record_all-keeps n s p fs (to_cache f cache) (ground (arith, h))

record_all-AllCached :
    (n : ℕ) (fs : List SubmittedFlag) (cache : List Entry) → AllCached n (record_all fs cache) fs
unfolding record_all in_cache
record_all-AllCached n [] cache = tt
record_all-AllCached n (f ∷ fs) cache = (
  record_all-keeps n f.service_id f.payload fs (to_cache f cache) (ground arith),
  record_all-AllCached n fs (to_cache f cache),
)

keep_firsts-AllCached :
    (db : List SubmittedFlag) (n : ℕ) (cache : List Entry) (fs : List SubmittedFlag)
    → AllCached n cache fs
    → keep_firsts db n cache fs ≡ []
unfolding keep_firsts is_first_blood
keep_firsts-AllCached db n cache [] h = refl
keep_firsts-AllCached db n cache (f ∷ fs) (h, hs) =
    ground (arith, h, keep_firsts-AllCached db n cache fs hs)

-- The recomputation of the default algorithm for the first blood gives no mark at all, whatever
-- flags its queries return and whatever is in the table and the cache.
pub recomputed-nothing :
    (db : List SubmittedFlag) (n : ℕ) (fs : List SubmittedFlag) (cache : List Entry)
    → recomputed db n fs cache ≡ []
unfolding recomputed
recomputed-nothing db n fs cache =
    keep_firsts-AllCached db n (record_all fs cache) fs (record_all-AllCached n fs cache)
