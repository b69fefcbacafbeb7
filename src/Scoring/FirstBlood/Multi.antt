-- ===== src/Scoring/FirstBlood/Multi.antt =====
-- `MultiFirstBloodAlgorithm` of controlserver/scoring/algorithms/firstblood.py.
use saarctf_gameserver.Prelude.{
  ℕ, zero, suc, Bool, ◌&&◌, ◌==◌, ltb, leb, max, Option, none, some, if◌then◌else◌, List, [], ◌∷◌,
  length,
}
use saarctf_gameserver.Scoring.Points.{SubmittedFlag}
use saarctf_gameserver.Scoring.Tick.{contains_id, add_id}
use saarctf_gameserver.Scoring.FirstBlood.{Mark, Services, is_target}

-- a set of victims that there is no entry for is the empty set, and a level 0
pub record Cache : Type 0 where
  pub max_level : ℕ → ℕ → ℕ
  pub victims : ℕ → ℕ → ℕ → List ℕ

-- the payload of the keys: 0 for a service without payloads
abbrev pub key : ℕ → SubmittedFlag → ℕ
key n f = if ltb 0 n then f.payload else 0

abbrev pub is_at : ℕ → ℕ → ℕ → ℕ → Bool
is_at a b a' b' = a == a' && b == b'

abbrev pub set_level : ℕ → ℕ → ℕ → Cache → Cache
set_level s p l c = record c {
  max_level = λ s' p'. if is_at s p s' p' then l else c.max_level s' p';
}

abbrev pub set_victims : ℕ → ℕ → ℕ → List ℕ → Cache → Cache
set_victims s p a vs c = record c {
  victims = λ s' p' a'. if is_at s p s' p' && a == a' then vs else c.victims s' p' a';
}

-- `set.update`
unfoldable pub add_ids : List ℕ → List ℕ → List ℕ
add_ids [] ids = ids
add_ids (i ∷ is) ids = add_ids is (add_id i ids)

-- `_filter_before_flag`
abbrev pub is_before : ℕ → SubmittedFlag → SubmittedFlag → Bool
is_before n f g = is_target n f.service_id f.payload g && ltb g.ts f.ts

-- `_get_max_firstblood_level` and `_get_previous_victims`
unfoldable pub get_max_level : ℕ → SubmittedFlag → List SubmittedFlag → ℕ
get_max_level n f [] = 0
get_max_level n f (g ∷ db) =
    let rest = get_max_level n f db in if is_before n f g then max g.is_firstblood rest else rest

unfoldable pub get_previous_victims : ℕ → SubmittedFlag → List SubmittedFlag → List ℕ
get_previous_victims n f [] = []
get_previous_victims n f (g ∷ db) =
    let rest = get_previous_victims n f db in
    if g.submitted_by == f.submitted_by && is_before n f g then g.team_id ∷ rest else rest

-- the cache after a flag, and its level, 0 if it is no first blood
pub record Judged : Type 0 where
  pub cache : Cache
  pub level : ℕ

abbrev pub rejected : Cache → Judged
rejected c = record { cache = c; level = 0 }

-- the last part of the body of the loop of `get_firstbloods`, for a new victim
unfoldable pub judge_victim : ℕ → ℕ → SubmittedFlag → Cache → Judged
judge_victim p current f c =
    let vs = add_id f.team_id (c.victims f.service_id p f.submitted_by) in
    let c' = set_victims f.service_id p f.submitted_by vs c in
    if ltb current (length vs)
    then record { cache = set_level f.service_id p (length vs) c'; level = length vs }
    else rejected c'

-- the part after the caches were looked at
unfoldable pub judge_loaded : ℕ → ℕ → List SubmittedFlag → SubmittedFlag → Cache → Judged
judge_loaded limit n db f c =
    let p = key n f in
    let current = max (c.max_level f.service_id p) (get_max_level n f db) in
    let c1 = set_level f.service_id p current c in
    let vs = add_ids (get_previous_victims n f db) (c.victims f.service_id p f.submitted_by) in
    let c2 = set_victims f.service_id p f.submitted_by vs c1 in
    if leb limit current
    then rejected c1
    else if contains_id vs f.team_id
    then rejected c2
    else judge_victim p current f c2

unfoldable pub judge_flag : ℕ → ℕ → List SubmittedFlag → SubmittedFlag → Cache → Judged
judge_flag limit n db f c =
    let p = key n f in
    if leb limit (c.max_level f.service_id p)
    then rejected c
    else if contains_id (c.victims f.service_id p f.submitted_by) f.team_id
    then rejected c
    else judge_loaded limit n db f c

unfoldable pub to_marks : SubmittedFlag → ℕ → List Mark → List Mark
to_marks f zero ms = ms
to_marks f (suc l) ms = record { flag = f; level = suc l } ∷ ms

-- `get_firstbloods`; a flag of an unknown service is a `KeyError`
unfoldable pub get_firstbloods :
    ℕ → Services → List SubmittedFlag → List SubmittedFlag → Cache → Option (List Mark × Cache)
get_firstbloods limit services db [] c = some ([], c)
get_firstbloods limit services db (f ∷ fs) c = elim (services f.service_id) [
  | none ↦ none
  | some n ↦
      let j = judge_flag limit n db f c in
      elim (get_firstbloods limit services db fs j.cache) [
        | none ↦ none
        | some (ms, c') ↦ some (to_marks f j.level ms, c')
      ]
]
