-- ===== src/Scoring/FirstBlood/Examples.antt =====
-- The theorems on controlserver/scoring/algorithms/firstblood.py at concrete inputs.
use saarctf_gameserver.Prelude.{◌+◌, ◌≡◌, refl, Option, none, some, List, [], ◌∷◌, Returns}
use saarctf_gameserver.Scoring.Points.{SubmittedFlag}
use saarctf_gameserver.Scoring.FirstBlood.{Mark}
use saarctf_gameserver.Scoring.FirstBlood.Default
use saarctf_gameserver.Scoring.FirstBlood.Default.{Entry, in_cache, new_cache, recomputed}
use saarctf_gameserver.Scoring.FirstBlood.Multi
use saarctf_gameserver.Scoring.FirstBlood.Multi.{Cache}
use saarctf_gameserver.Scoring.FirstBlood.First.{
  to_count, count_marks, find_mark, find_target, get_firstbloods-count, get_firstbloods-first,
  recomputed-nothing,
}
use saarctf_gameserver.Scoring.FirstBlood.Levels.{IsRising, get_firstbloods-IsRising}
use saarctf_gameserver.Scoring.Samples.{submission, submitted, two_payloads}

get_firstbloods-count_example :
    to_count (in_cache 2 1 0 [])
      + count_marks 2 1 0 (Default.get_firstbloods two_payloads [] submitted [])
    ≡ to_count (in_cache 2 1 0 (new_cache two_payloads [] submitted []))
get_firstbloods-count_example = get_firstbloods-count two_payloads [] 2 1 0 submitted [] refl

get_firstbloods-first_example :
    find_mark 2 1 0 (Default.get_firstbloods two_payloads [] submitted [])
    ≡ find_target 2 1 0 submitted
get_firstbloods-first_example =
    get_firstbloods-first two_payloads [] 2 1 0 refl (λ f t. unfold Default.is_marked in refl)
      submitted [] (unfold in_cache in refl)

recomputed-nothing_example : recomputed submitted 2 submitted [] ≡ []
recomputed-nothing_example = recomputed-nothing submitted 2 submitted []

abbrev empty_cache : Cache
empty_cache = record { max_level = λ s p. 0; victims = λ s p a. [] }

-- In tick 1 team 2 stole a flag of team 3, and in tick 2 a flag of team 1, and team 1 one of team 3.
abbrev old_flag : SubmittedFlag
old_flag = record (submission 1 2 3 0 1) { is_firstblood = 1 }

abbrev batch : List SubmittedFlag
batch = submission 2 1 3 0 2 ∷ submission 3 2 1 0 2 ∷ []

marks_of : Option (List Mark × Cache) → List Mark
marks_of none = []
marks_of (some (ms, c)) = ms

levels_test :
    marks_of (Multi.get_firstbloods 3 two_payloads (old_flag ∷ batch) batch empty_cache)
    ≡ record { flag = submission 3 2 1 0 2; level = 2 } ∷ []
unfolding Multi.get_firstbloods marks_of Multi.to_marks Multi.judge_flag Multi.judge_loaded
    Multi.get_max_level Multi.add_ids Multi.get_previous_victims Multi.judge_victim
levels_test = refl

get_firstbloods-IsRising_example :
    Returns
      (IsRising 3 two_payloads (old_flag ∷ batch) empty_cache)
      (Multi.get_firstbloods 3 two_payloads (old_flag ∷ batch) batch empty_cache)
get_firstbloods-IsRising_example =
    get_firstbloods-IsRising 3 two_payloads (old_flag ∷ batch) batch empty_cache
      ((2, refl), ((2, refl), tt))
