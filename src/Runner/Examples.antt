-- ===== src/Runner/Examples.antt =====
-- Tests of the runner, and the theorems on it at concrete inputs.
use saarctf_gameserver.Prelude.{
  ℕ, ◌-◌, ◌≡◌, refl, ◌&&◌, ◌==◌, Option, none, some, if◌then◌else◌, List, [], ◌∷◌, map, Returns,
  arith, ℤ, pos, ◌-ℤ◌, ◌+ℤ◌,
}
use saarctf_gameserver.Runner.Slots.{
  CheckerInfo, total_tasks_count, constrained_task_count, task_start_interval, early, unconstrained,
  late, Entry, Shuffle, Jitter, seconds, gen_timeslots_flat,
}
use saarctf_gameserver.Runner.Eno.{
  ok, mumble, offline, success, text, CheckerTaskMessage, Reply, answered, put_flag, get_flag,
  get_noise, Runner, reset,
}
use saarctf_gameserver.Runner.Eno.Handling.{process_messages, run_output}
use saarctf_gameserver.Runner.Eno.Verdict.{severity, worst, process_messages-worst}
use saarctf_gameserver.Runner.Eno.Tasks.{message, Timeslots, Gathering, gen_timeslots, create_tasks}
use saarctf_gameserver.Runner.Eno.Tasks.Pairs.{IsPaired}
use saarctf_gameserver.Runner.Eno.Tasks.Distance.{create_tasks-IsPaired}

abbrev info : CheckerInfo
info = record { flag_variants = 1; noise_variants = 1; havoc_variants = 1; check_past_ticks = 2 }

abbrev havoc_only : CheckerInfo
havoc_only = record {
  flag_variants = 0;
  noise_variants = 0;
  havoc_variants = 1;
  check_past_ticks = 2;
}

-- One swap of the first late task in the first round; the other choices are not valid.
abbrev choices : ℕ → ℕ → Entry × Entry
choices round i = (
  if (round == 19) && (i == 0)
      then record { entry_type = unconstrained; idx = 2 }
      else record { entry_type = early; idx = 0 },
  record { entry_type = late; idx = 1 },
)

abbrev jitter : Jitter
jitter = record { early = λ _. 3; unconstrained = λ _. 7; late = λ _. 5 }

-- The two pairs change places.
abbrev order : Shuffle
order = record { pairs = λ i. 1 - i; unconstrained = λ i. i }

abbrev slots : Timeslots
slots = record {
  early = pos 43 ∷ pos 3 ∷ [];
  late = pos 245 ∷ pos 165 ∷ [];
  unconstrained = pos 87 ∷ pos 127 ∷ pos 207 ∷ [];
}

slots_test : gen_timeslots 60 info 15 choices order jitter jitter ≡ some slots
unfolding gen_timeslots ◌-ℤ◌ ◌+ℤ◌
slots_test = refl

fallback_test : gen_timeslots_flat 20 info 15 choices order jitter ≡ none
unfolding gen_timeslots_flat ◌-ℤ◌
fallback_test = refl

havoc_only_test : gen_timeslots 60 havoc_only 15 choices order jitter jitter ≡ none
unfolding gen_timeslots
havoc_only_test = refl

delays : Option Gathering → List ℤ
delays none = []
delays (some g) = map (λ t. t.1) g.tasks

-- In tick 2 there is one earlier tick.
tasks_test :
    delays (create_tasks 5 2 info slots)
    ≡ pos 43 ∷ pos 245 ∷ pos 87 ∷ pos 3 ∷ pos 165 ∷ pos 127 ∷ []
unfolding delays create_tasks
tasks_test = refl

create_tasks-IsPaired_example :
    Returns (λ g. IsPaired (pos (seconds info 15)) g.tasks) (create_tasks 5 2 info slots)
unfolding task_start_interval total_tasks_count constrained_task_count
create_tasks-IsPaired_example =
    create_tasks-IsPaired 5 2 60 info choices order jitter jitter slots (λ _ _. omega arith)
      (λ _ _. omega arith) (λ _. omega arith) slots_test

abbrev answer : Reply → List (CheckerTaskMessage × Reply)
answer late_reply =
    (
      message 5 2 put_flag 0 none,
      answered (record { result = ok; message = none; attack_info = some 8 }),
    )
    ∷ (message 5 2 get_flag 0 (some 1), late_reply)
    ∷ (
      message 5 2 get_noise 0 none,
      answered (record { result = mumble; message = some (text 1); attack_info = none }),
    )
    ∷ []

abbrev answers : List (CheckerTaskMessage × Reply)
answers =
    answer (answered (record { result = mumble; message = some (text 2); attack_info = none }))

abbrev idle : Runner
idle = record {
  custom_results = [];
  output = [];
  messages = [];
  recovery_messages = [];
  status = success;
  flag_ids = [];
}

status_test : (process_messages answers idle).status ≡ mumble
unfolding process_messages message
status_test = refl

process_messages-worst_example :
    severity (run_output (process_messages answers (reset idle))).status ≡ worst answers
unfolding message
process_messages-worst_example =
    process_messages-worst answers idle
      ((λ e _. ground (arith, e)), ((λ _ o. ground (arith, o)), ((λ e _. ground (arith, e)), tt)))

-- The status depends on the order if the service was offline for an earlier tick.
abbrev late_offline : CheckerTaskMessage × Reply
late_offline = (
  message 5 2 get_flag 0 (some 1),
  answered (record { result = offline; message = none; attack_info = none }),
)

abbrev now_mumble : CheckerTaskMessage × Reply
now_mumble = (
  message 5 2 get_noise 0 none,
  answered (record { result = mumble; message = none; attack_info = none }),
)

order_test :
    ((process_messages (late_offline ∷ now_mumble ∷ []) idle).status ≡ mumble)
    × ((process_messages (now_mumble ∷ late_offline ∷ []) idle).status ≡ offline)
unfolding process_messages message
order_test = (refl, refl)
