-- ===== src/Scoring/FirstBlood/Default.antt =====
-- `DefaultFirstBloodAlgorithm` of controlserver/scoring/algorithms/firstblood.py. The empty sets that reading a `defaultdict` leaves are of services
-- with payloads, where only the payloads are looked up.
use saarctf_gameserver.Prelude.{
  ℕ, Bool, false, not, ◌&&◌, ◌||◌, ◌==◌, ltb, leb, none, some, if◌then◌else◌, List, [], ◌∷◌,
}
use saarctf_gameserver.Scoring.Points.{SubmittedFlag, was_seen}
use saarctf_gameserver.Scoring.FirstBlood.{Mark, Services, is_target}

pub record Entry : Type 0 where
  pub service_id : ℕ
  pub payload : ℕ

-- the cache, and the flags of the call
pub record State : Type 0 where
  pub cache : List Entry
  pub seen : List SubmittedFlag

unfoldable pub in_cache : ℕ → ℕ → ℕ → List Entry → Bool
in_cache n s payload [] = false
in_cache n s payload (e ∷ es) =
    (e.service_id == s && (n == 0 || e.payload == payload)) || in_cache n s payload es

-- the query of `_is_first_blood`
unfoldable pub is_marked : ℕ → SubmittedFlag → List SubmittedFlag → Bool
is_marked n f [] = false
is_marked n f (g ∷ db) =
    (is_target n f.service_id f.payload g && (ltb 0 g.is_firstblood && leb g.ts f.ts))
    || is_marked n f db

unfoldable pub is_first_blood : List SubmittedFlag → ℕ → List Entry → SubmittedFlag → Bool
is_first_blood db n cache f =
    if in_cache n f.service_id f.payload cache then false else not (is_marked n f db)

-- `_record_first_blood`
abbrev pub to_cache : SubmittedFlag → List Entry → List Entry
to_cache f cache = record { service_id = f.service_id; payload = f.payload } ∷ cache

-- the body of the loop of `get_firstbloods`: is the flag a first blood, and what changes
unfoldable pub is_new_first : Services → List SubmittedFlag → State → SubmittedFlag → Bool
is_new_first services db c f = elim (services f.service_id) [
  | none ↦ false
  | some n ↦ if was_seen c.seen f then false else is_first_blood db n c.cache f
]

unfoldable pub next : Services → List SubmittedFlag → State → SubmittedFlag → State
next services db c f = elim (services f.service_id) [
  | none ↦ c
  | some n ↦ record {
    seen = if was_seen c.seen f then c.seen else f ∷ c.seen;
    cache = if is_new_first services db c f then to_cache f c.cache else c.cache;
  }
]

unfoldable pub judge : Services → List SubmittedFlag → List SubmittedFlag → State → List Mark
judge services db [] c = []
judge services db (f ∷ fs) c =
    let rest = judge services db fs (next services db c f) in
    if is_new_first services db c f then record { flag = f; level = 1 } ∷ rest else rest

unfoldable pub judged : Services → List SubmittedFlag → List SubmittedFlag → State → State
judged services db [] c = c
judged services db (f ∷ fs) c = judged services db fs (next services db c f)

-- `get_firstbloods`: a call starts with no flag seen
unfoldable pub get_firstbloods :
    Services → List SubmittedFlag → List SubmittedFlag → List Entry → List Mark
get_firstbloods services db fs cache = judge services db fs (record { cache = cache; seen = [] })

unfoldable pub new_cache :
    Services → List SubmittedFlag → List SubmittedFlag → List Entry → List Entry
new_cache services db fs cache = (judged services db fs (record { cache = cache; seen = [] })).cache

-- the two loops at the end of `get_firstbloods_for_recomputation`, for the flags of its queries
unfoldable pub record_all : List SubmittedFlag → List Entry → List Entry
record_all [] cache = cache
record_all (f ∷ fs) cache = record_all fs (to_cache f cache)

unfoldable pub keep_firsts : List SubmittedFlag → ℕ → List Entry → List SubmittedFlag → List Mark
keep_firsts db n cache [] = []
keep_firsts db n cache (f ∷ fs) =
    let rest = keep_firsts db n cache fs in
    if is_first_blood db n cache f then record { flag = f; level = 1 } ∷ rest else rest

unfoldable pub recomputed : List SubmittedFlag → ℕ → List SubmittedFlag → List Entry → List Mark
recomputed db n fs cache = keep_firsts db n (record_all fs cache) fs
