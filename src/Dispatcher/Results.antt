-- ===== src/Dispatcher/Results.antt =====
-- What `_collect` of controlserver/dispatcher.py makes of the results of a tick.
use saarctf_gameserver.Prelude.{
  ℕ, ◌≡◌, refl, Bool, true, false, ◌&&◌, ◌||◌, ◌==◌, Option, none, some, if◌then◌else◌, List, [],
  ◌∷◌, arith, ◌∙◌,
}
use saarctf_gameserver.Scoring.Points.{Status}
use saarctf_gameserver.Dispatcher.{
  Combination, Row, TaskState, pending, started, retry, cancelled, success, lost, failure, same_key,
  upsert, new_row, result_row, handle_celery_result, Stats, no_stats, count_state, handle_all,
  count_all, later, last_finished, issue_warnings, collect,
}

-- the status of a checker script in the table
unfoldable pub status_in : List Row → Combination → Option Status
status_in [] c = none
status_in (r ∷ rs) c = if same_key r.key c then some r.status else status_in rs c

status-upsert :
    (r : Row) (table : List Row) (c : Combination)
    → status_in (upsert r table) c ≡ (if same_key r.key c then some r.status else status_in table c)
unfolding upsert status_in
status-upsert r [] c = refl
status-upsert r (q ∷ qs) c = ground (arith, status-upsert r qs c)

-- what a task's state says of its check: nothing, if the script has finished and saved its result
unfoldable pub status_of : TaskState → Option Status
status_of pending = some Status.revoked
status_of retry = some Status.revoked
status_of cancelled = some Status.revoked
status_of started = some Status.timeout
status_of lost = some Status.crashed
status_of (failure t) = some (if t then Status.timeout else Status.crashed)
status_of success = none

abbrev pub or_else : Option Status → Option Status → Option Status
or_else none b = b
or_else (some a) b = some a

status-handle :
    (k : Combination) (s : TaskState) (table : List Row) (c : Combination)
    → status_in (handle_celery_result k s table) c
      ≡ (if same_key k c then or_else (status_of s) (status_in table c) else status_in table c)
unfolding handle_celery_result result_row status_of
status-handle k pending table c =
    ground (arith, status-upsert (new_row k Status.revoked false) table c)
status-handle k started table c =
    ground (arith, status-upsert (new_row k Status.timeout true) table c)
status-handle k retry table c =
    ground (arith, status-upsert (new_row k Status.revoked false) table c)
status-handle k cancelled table c =
    ground (arith, status-upsert (new_row k Status.revoked false) table c)
status-handle k lost table c =
    ground (arith, status-upsert (new_row k Status.crashed false) table c)
status-handle k success table c = ground (arith)
status-handle k (failure true) table c =
    ground (arith, status-upsert (new_row k Status.timeout false) table c)
status-handle k (failure false) table c =
    ground (arith, status-upsert (new_row k Status.crashed false) table c)

-- no checker script is there twice
unfoldable pub has_combination : List Combination → Combination → Bool
has_combination [] c = false
has_combination (k ∷ ks) c = same_key k c || has_combination ks c

abbrev pub IsDistinct : List Combination → Type 0
IsDistinct [] = Unit
IsDistinct (k ∷ ks) = (has_combination ks k ≡ false) × IsDistinct ks

-- the task of a checker script
unfoldable pub task_of : List Combination → List TaskState → Combination → Option TaskState
task_of [] ss c = none
task_of (k ∷ ks) [] c = none
task_of (k ∷ ks) (s ∷ ss) c = if same_key k c then some s else task_of ks ss c

abbrev pub status_after : Option TaskState → Option Status → Option Status
status_after none old = old
status_after (some s) old = or_else (status_of s) old

has-same_key :
    (ks : List Combination) (k c : Combination)
    → same_key k c ≡ true
    → has_combination ks c ≡ has_combination ks k
unfolding has_combination
has-same_key [] k c h = refl
has-same_key (j ∷ ks) k c h = ground (arith, h, has-same_key ks k c h)

task_of-absent :
    (ks : List Combination) (ss : List TaskState) (c : Combination)
    → has_combination ks c ≡ false
    → task_of ks ss c ≡ none
unfolding has_combination task_of
task_of-absent [] ss c h = refl
task_of-absent (k ∷ ks) [] c h = refl
task_of-absent (k ∷ ks) (s ∷ ss) c h = ground (arith, h, task_of-absent ks ss c)

-- If every checker script has one task, collecting the results gives each script whose task
-- failed, was lost, still runs, or was not started the status for that: timeout at a time limit
-- and crashed otherwise; crashed; timeout; or revoked. The status of a script whose task
-- succeeded, and of one without a task, stays what it was.
pub handle_all-status :
    (ks : List Combination) (ss : List TaskState) (table : List Row) (c : Combination)
    → IsDistinct ks
    → status_in (handle_all ks ss table) c ≡ status_after (task_of ks ss c) (status_in table c)
unfolding handle_all task_of
handle_all-status [] ss table c d = refl
handle_all-status (k ∷ ks) [] table c d = refl
handle_all-status (k ∷ ks) (s ∷ ss) table c (d, ds) = ground (
  arith,
  d,
  handle_all-status ks ss (handle_celery_result k s table) c ds,
  status-handle k s table c,
  has-same_key ks k c,
  task_of-absent ks ss c,
)

-- a task that was executed to an end
abbrev pub is_done : TaskState → Bool
is_done success = true
is_done lost = true
is_done (failure t) = true
is_done _ = false

unfoldable pub all_done : List Combination → List TaskState → Bool
all_done [] ss = true
all_done (k ∷ ks) [] = true
all_done (k ∷ ks) (s ∷ ss) = is_done s && all_done ks ss

abbrev pub is_none {ℓ} : {A : Type ℓ} → Option A → Bool
is_none none = true
is_none (some a) = false

none_open : Stats → Bool
none_open st = st.num_revoked == 0 && st.num_started == 0

none_open-count_state :
    (s : TaskState) (st : Stats) → none_open (count_state s st) ≡ (is_done s && none_open st)
unfolding none_open count_state
none_open-count_state pending st = ground arith
none_open-count_state started st = ground arith
none_open-count_state retry st = ground arith
none_open-count_state cancelled st = ground arith
none_open-count_state success st = ground arith
none_open-count_state lost st = ground arith
none_open-count_state (failure t) st = ground arith

none_open-count_all :
    (ks : List Combination) (ss : List TaskState) (st : Stats)
    → none_open (count_all ks ss st) ≡ (all_done ks ss && none_open st)
unfolding count_all all_done
none_open-count_all [] ss st = refl
none_open-count_all (k ∷ ks) [] st = refl
none_open-count_all (k ∷ ks) (s ∷ ss) st =
    ground (arith, none_open-count_all ks ss (count_state s st), none_open-count_state s st)

-- The dispatcher writes no time of an end.
last_finished-upsert :
    (r : Row) (tick : ℕ) (table : List Row)
    → r.finished ≡ none
    → last_finished tick (upsert r table) ≡ last_finished tick table
unfolding upsert last_finished later
last_finished-upsert r tick [] h = ground (arith, h)
last_finished-upsert r tick (q ∷ qs) h = ground (arith, last_finished-upsert r tick qs h)

last_finished-handle :
    (k : Combination) (s : TaskState) (tick : ℕ) (table : List Row)
    → last_finished tick (handle_celery_result k s table) ≡ last_finished tick table
unfolding handle_celery_result result_row
last_finished-handle k pending tick table = last_finished-upsert _ tick table refl
last_finished-handle k started tick table = last_finished-upsert _ tick table refl
last_finished-handle k retry tick table = last_finished-upsert _ tick table refl
last_finished-handle k cancelled tick table = last_finished-upsert _ tick table refl
last_finished-handle k lost tick table = last_finished-upsert _ tick table refl
last_finished-handle k success tick table = refl
last_finished-handle k (failure true) tick table = last_finished-upsert _ tick table refl
last_finished-handle k (failure false) tick table = last_finished-upsert _ tick table refl

last_finished-handle_all :
    (ks : List Combination) (ss : List TaskState) (tick : ℕ) (table : List Row)
    → last_finished tick (handle_all ks ss table) ≡ last_finished tick table
unfolding handle_all
last_finished-handle_all [] ss tick table = refl
last_finished-handle_all (k ∷ ks) [] tick table = refl
last_finished-handle_all (k ∷ ks) (s ∷ ss) tick table =
    last_finished-handle_all ks ss tick (handle_celery_result k s table)
    ∙ last_finished-handle k s tick table

-- Collecting the results of a tick with at least one checker script ends with an exception if and
-- only if every task was executed to an end (failures and lost workers are ends as well) and the
-- table has no time of an end for any checker script of the tick.
pub collect-fails :
    (k : Combination) (ks : List Combination) (ss : List TaskState) (table : List Row) (now : ℕ)
    → is_none (collect (k ∷ ks) ss table now).warning
      ≡ (all_done (k ∷ ks) ss && is_none (last_finished k.tick table))
unfolding collect issue_warnings none_open
collect-fails k ks ss table now = ground (
  arith,
  none_open-count_all (k ∷ ks) ss no_stats,
  last_finished-handle_all (k ∷ ks) ss k.tick table,
)
