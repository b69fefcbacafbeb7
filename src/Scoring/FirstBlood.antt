-- ===== src/Scoring/FirstBlood.antt =====
-- controlserver/scoring/algorithms/firstblood.py, and how controlserver/scoring/scoring.py uses it
-- (`compute_firstblood_incremental`, `recompute_first_blood_flags`). The table of submitted flags
-- is the list of its rows.
pub mod Default
pub mod Multi
pub mod First
pub mod Judged
pub mod Levels
mod Examples
use saarctf_gameserver.Prelude.{
  ℕ, zero, suc, ◌+◌, ◌≡◌, Bool, true, false, not, ◌&&◌, ◌||◌, ◌==◌, ltb, leb, max, Option, none,
  some, if◌then◌else◌, List, [], ◌∷◌, ◌++◌, length,
}
use saarctf_gameserver.Scoring.Points
use saarctf_gameserver.Scoring.Points.{SubmittedFlag, was_seen}
use saarctf_gameserver.Scoring.Tick.{contains_id, add_id}

-- a flag that is a first blood, and its level
pub record Mark : Type 0 where
  pub flag : SubmittedFlag
  pub level : ℕ

-- The number of payloads of a service: without any, all its flags count as one.
abbrev pub Services : Type 0
Services = ℕ → Option ℕ

-- a flag of the service and the payload, for a service with that many payloads
abbrev pub is_target : ℕ → ℕ → ℕ → SubmittedFlag → Bool
is_target n s payload f = f.service_id == s && (n == 0 || f.payload == payload)

-- `_record_first_blood` of ScoringCalculation, without the log. The exception for a team that is not
-- in the database is left out.
unfoldable pub record_first_blood : List SubmittedFlag → Mark → List SubmittedFlag
record_first_blood [] m = []
record_first_blood (f ∷ db) m =
    (if f.id == m.flag.id then record f { is_firstblood = m.level } else f)
    ∷ record_first_blood db m

unfoldable pub record_first_bloods : List Mark → List SubmittedFlag → List SubmittedFlag
record_first_bloods [] db = db
record_first_bloods (m ∷ ms) db = record_first_bloods ms (record_first_blood db m)

-- the first step of `recompute_first_blood_flags`
unfoldable pub drop_marks : List SubmittedFlag → List SubmittedFlag
drop_marks [] = []
drop_marks (f ∷ db) = record f { is_firstblood = 0 } ∷ drop_marks db
