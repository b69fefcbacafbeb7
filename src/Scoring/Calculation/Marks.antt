-- ===== src/Scoring/Calculation/Marks.antt =====
-- Marking first bloods (controlserver/scoring/scoring.py), and the rest of the table of flags.
use saarctf_gameserver.Prelude.{ℕ, ◌≡◌, refl, ◌==◌, List, [], ◌∷◌, All, arith, if_ind, ◌∙◌}
use saarctf_gameserver.Scoring.Float.{Float}
use saarctf_gameserver.Scoring.Points.{SubmittedFlag}
use saarctf_gameserver.Scoring.FirstBlood.{Mark, record_first_blood, record_first_bloods}
use saarctf_gameserver.Scoring.Calculation.{Database}
use saarctf_gameserver.Scoring.Calculation.Submissions.{is_duplicate, IsUnique}
use saarctf_gameserver.Scoring.Calculation.Captures.{submissions, IsPlayed}

submissions-record :
    (t s tick : ℕ) (m : Mark) (fs : List SubmittedFlag)
    → submissions t s tick (record_first_blood fs m) ≡ submissions t s tick fs
unfolding submissions record_first_blood
submissions-record t s tick m [] = refl
submissions-record t s tick m (f ∷ fs) = ground (arith, submissions-record t s tick m fs)

is_duplicate-record :
    (g : SubmittedFlag) (m : Mark) (fs : List SubmittedFlag)
    → is_duplicate g (record_first_blood fs m) ≡ is_duplicate g fs
unfolding record_first_blood
is_duplicate-record g m [] = refl
is_duplicate-record g m (f ∷ fs) = ground (arith, is_duplicate-record g m fs)

IsUnique-record :
    (m : Mark) (fs : List SubmittedFlag) → IsUnique fs → IsUnique (record_first_blood fs m)
unfolding record_first_blood
IsUnique-record m [] h = h
IsUnique-record m (f ∷ fs) (h, hs) =
    (ground (arith, h, is_duplicate-record f m fs), IsUnique-record m fs hs)

pub submissions-record_first_bloods :
    (t s tick : ℕ) (ms : List Mark) (fs : List SubmittedFlag)
    → submissions t s tick (record_first_bloods ms fs) ≡ submissions t s tick fs
unfolding record_first_bloods
submissions-record_first_bloods t s tick [] fs = refl
submissions-record_first_bloods t s tick (m ∷ ms) fs =
    submissions-record_first_bloods t s tick ms (record_first_blood fs m)
    ∙ submissions-record t s tick m fs

pub IsUnique-record_first_bloods :
    (ms : List Mark) (fs : List SubmittedFlag) → IsUnique fs → IsUnique (record_first_bloods ms fs)
unfolding record_first_bloods
IsUnique-record_first_bloods [] fs h = h
IsUnique-record_first_bloods (m ∷ ms) fs h =
    IsUnique-record_first_bloods ms (record_first_blood fs m) (IsUnique-record m fs h)

module _ (F : Float) (db : Database F) where
  IsPlayed-record :
      (m : Mark) (fs : List SubmittedFlag)
      → All (IsPlayed F db) fs
      → All (IsPlayed F db) (record_first_blood fs m)
  unfolding record_first_blood
  IsPlayed-record m [] h = h
  IsPlayed-record m (f ∷ fs) (h, hs) = (
    if_ind (IsPlayed F db) (f.id == m.flag.id) (record f { is_firstblood = m.level }) f
        (λ _. record { attacker = h.attacker; victim = h.victim; service = h.service }) (λ _. h),
    IsPlayed-record m fs hs,
  )

  pub IsPlayed-record_first_bloods :
      (ms : List Mark) (fs : List SubmittedFlag)
      → All (IsPlayed F db) fs
      → All (IsPlayed F db) (record_first_bloods ms fs)
  unfolding record_first_bloods
  IsPlayed-record_first_bloods [] fs h = h
  IsPlayed-record_first_bloods (m ∷ ms) fs h =
      IsPlayed-record_first_bloods ms (record_first_blood fs m) (IsPlayed-record m fs h)
