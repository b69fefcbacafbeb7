-- ===== src/Scoreboard/Examples.antt =====
-- Tests of the scoreboard, and its theorems at concrete inputs.
use saarctf_gameserver.Prelude.{
  ℕ, ◌+◌, ◌≡◌, refl, true, false, ◌==◌, ltb, if◌then◌else◌, none, some, List, [], ◌∷◌, arith, pos,
  pos_part,
}
use saarctf_gameserver.Scoring.Samples.{numbers, numbers-IsOrdered}
use saarctf_gameserver.Scoreboard.{
  is_frozen, SubmittedFlag, get_first_blood_info, shown_flags, TeamPointsLite, Data, Scoreboard,
  create_scoreboard,
}
use saarctf_gameserver.Scoreboard.Frozen.{Agree, create_scoreboard_frozen}
use saarctf_gameserver.Scoreboard.Entries.{ShowsSame}
use saarctf_gameserver.Scoring.Ranking.{TeamRanking}
use mathlib.Core.List.Permᴰ
use saarctf_gameserver.Scoreboard.Statistics.{
  StatFile, update_file, can_update, CountsRow, service_all_ticks, lookup,
}
use saarctf_gameserver.Scoreboard.Statistics.Recreated.{
  IsUnique, update_file-can_update, service_all_ticks_zero,
}

-- The first blood of a service with two payloads: the team 4 took both within five minutes.
abbrev flag : ℕ → ℕ → ℕ → ℕ → SubmittedFlag
flag tick ts payload team = record {
  tick_submitted = pos tick;
  is_firstblood = 1;
  ts = ts;
  service_id = 1;
  payload = payload;
  submitted_by = team;
}

joined :
    get_first_blood_info 1 (pos 5) (flag 3 200 2 4 ∷ flag 2 100 1 4 ∷ flag 9 900 1 5 ∷ []) 1
    ≡ (record { name = 4; ts = 100; confirmed = true; level = 1 } ∷ [], 2 ∷ 1 ∷ [])
unfolding get_first_blood_info
joined = refl

abbrev points : ℕ → TeamPointsLite numbers
points n = record {
  flag_captured_count = n;
  flag_stolen_count = 0;
  off_points = numbers.of_ℕ n;
  def_points = numbers.of_ℕ 0;
  sla_points = numbers.of_ℕ 1;
}

-- Two databases that differ in the points after tick 10: `k` more for each tick and team.
abbrev after : ℕ → ℕ → ℕ
after k t = if t == 10 then 0 else k

-- With more than 3 points more, the second team has overtaken the first.
abbrev ranking : ℕ → List (TeamRanking numbers)
ranking n =
    if ltb 3 n
    then record { team_id = 2; points = n; rank = 1 }
      ∷ record { team_id = 1; points = 2; rank = 2 }
      ∷ []
    else record { team_id = 1; points = 2; rank = 1 }
      ∷ record { team_id = 2; points = n; rank = 2 }
      ∷ []

abbrev db : ℕ → Data numbers
db k = record {
  fetch = λ t. record {
    ticknumber = t;
    ranking = ranking (after k (pos_part t));
    keys = (1, 1) ∷ (2, 1) ∷ [];
    team_points = λ team s. points (after k (pos_part t));
    checker_results = λ team s. record { status = 0; message = 0 };
  };
  flags = flag 3 200 2 4 ∷ flag (11 + k) 400 1 2 ∷ [];
  services = record { id = 1; name = 7; num_payloads = 2 } ∷ [];
}

abbrev board : Scoreboard numbers
board = record { public = true; firstblood_level = 1; freeze = some 10 }

agree : Agree numbers 1 10 (pos 20) (db 3) (db 5)
unfolding shown_flags
agree = record {
  at_freeze = refl;
  ticknumber = refl;
  teams = Permᴰ.swap refl refl;
  checks = refl;
  checks_1 = refl;
  checks_2 = refl;
  checks_3 = refl;
  services = refl;
  flags = refl;
}

frozen_now : is_frozen (some 10) (pos 20) true ≡ true
unfolding is_frozen
frozen_now = refl

create_scoreboard_frozen_example :
    ShowsSame numbers
      (create_scoreboard numbers board (db 3) (pos 20))
      (create_scoreboard numbers board (db 5) (pos 20))
create_scoreboard_frozen_example =
    create_scoreboard_frozen numbers board 10 (pos 20) (db 3) (db 5) numbers-IsOrdered refl
      (omega arith) frozen_now agree

-- Other names in the file: it is written again, and has the values of the next tick.
abbrev old_file : StatFile ℕ
old_file = record { services = 9 ∷ []; rows = (5 ∷ []) ∷ [] }

recreated_now :
    update_file 0 (7 ∷ []) 1 (8 ∷ []) ((0, 0, 5) ∷ (1, 0, 8) ∷ []) old_file
    ≡ record { services = 7 ∷ []; rows = (5 ∷ 8 ∷ []) ∷ [] }
unfolding update_file
recreated_now = refl

updated_again :
    can_update
      (7 ∷ [])
      (1 + 1)
      (update_file 0 (7 ∷ []) 1 (8 ∷ []) ((0, 0, 5) ∷ (1, 0, 8) ∷ []) old_file)
    ≡ true
updated_again =
    update_file-can_update 0 (7 ∷ []) 1 (8 ∷ []) ((0, 0, 5) ∷ (1, 0, 8) ∷ []) old_file (omega arith)
      refl

-- A team that captured three flags in tick 1.
abbrev counts : List CountsRow
counts =
    record { tick = 0; team_id = 1; service_index = 0; captured = 0; stolen = 0 }
    ∷ record { tick = 1; team_id = 1; service_index = 0; captured = 3; stolen = 0 }
    ∷ []

counts-IsUnique : IsUnique counts
unfolding lookup
counts-IsUnique = (refl, (refl, tt))

recreated_without_attackers : service_all_ticks none false 1 counts 1 0 ≡ (0, 0)
recreated_without_attackers = service_all_ticks_zero none false 1 counts 1 0 counts-IsUnique
