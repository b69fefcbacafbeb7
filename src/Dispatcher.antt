-- ===== src/Dispatcher.antt =====
-- controlserver/dispatcher.py: which checker scripts are started, and what their results become in
-- the table `checker_results` (controlserver/models.py). The texts of the results are left out.
-- Celery and the shuffling of `random` are parameters.
pub mod Results
pub mod Combinations
mod Examples
use saarctf_gameserver.Prelude.{
  ℕ, zero, suc, ◌+◌, ◌-◌, ◌≡◌, Bool, true, false, not, ◌&&◌, ◌||◌, ◌==◌, ltb, leb, max, Option,
  none, some, if◌then◌else◌, List, [], ◌∷◌, ◌++◌, map,
}
use saarctf_gameserver.Scoring.Points
use saarctf_gameserver.Scoring.Points.{Status}

pub record Team : Type 0 where
  pub id : ℕ
  pub vpn_connected : Bool
  pub vpn2_connected : Bool
  pub wg_vulnbox_connected : Bool

pub record Service : Type 0 where
  pub id : ℕ
  pub checker_enabled : Bool

pub record Combination : Type 0 where
  pub team_id : ℕ
  pub service_id : ℕ
  pub tick : ℕ

-- A row of the table; `finished` is a time.
pub record Row : Type 0 where
  pub key : Combination
  pub status : Status
  pub run_over_time : Bool
  pub finished : Option ℕ

-- the teams and services of `dispatch_checker_scripts`
abbrev pub is_connected : Team → Bool
is_connected t = t.vpn_connected || (t.vpn2_connected || t.wg_vulnbox_connected)

unfoldable pub considered_teams : Bool → List Team → List Team
considered_teams check_vpn [] = []
considered_teams check_vpn (t ∷ ts) =
    let rest = considered_teams check_vpn ts in
    if not check_vpn || is_connected t then t ∷ rest else rest

unfoldable pub considered_services : List Service → List Service
considered_services [] = []
considered_services (s ∷ ss) =
    let rest = considered_services ss in if s.checker_enabled then s ∷ rest else rest

unfoldable pub with_services : ℕ → Team → List Service → List Combination
with_services tick t [] = []
with_services tick t (s ∷ ss) =
    record { team_id = t.id; service_id = s.id; tick = tick } ∷ with_services tick t ss

-- `itertools.product`
unfoldable pub product : ℕ → List Team → List Service → List Combination
product tick [] ss = []
product tick (t ∷ ts) ss = with_services tick t ss ++ product tick ts ss

-- What `dispatch_checker_scripts` sends to Celery and keeps in Redis, shuffled.
unfoldable pub dispatch_checker_scripts :
    (List Combination → List Combination) → Bool → List Team → List Service → ℕ → List Combination
dispatch_checker_scripts shuffle check_vpn teams services tick =
    shuffle (product tick (considered_teams check_vpn teams) (considered_services services))

-- The state of a task: `lost` is a `WorkerLostError`, and a failure is a time limit or not.
pub data TaskState : Type 0 where
  pending started retry cancelled success lost : TaskState
  failure : (is_timeout : Bool) → TaskState

abbrev pub same_key : Combination → Combination → Bool
same_key a b = a.team_id == b.team_id && (a.service_id == b.service_id && a.tick == b.tick)

-- `CheckerResult.upsert()` without an entry: `run_over_time` and `finished` of a row stay.
unfoldable pub upsert : Row → List Row → List Row
upsert r [] = r ∷ []
upsert r (q ∷ qs) =
    if same_key q.key r.key then record q { status = r.status } ∷ qs else q ∷ upsert r qs

abbrev pub new_row : Combination → Status → Bool → Row
new_row c s over = record { key = c; status = s; run_over_time = over; finished = none }

-- `_handle_celery_result`: the row, if the result is not from the checker script itself
unfoldable pub result_row : Combination → TaskState → Option Row
result_row c pending = some (new_row c Status.revoked false)
result_row c retry = some (new_row c Status.revoked false)
result_row c cancelled = some (new_row c Status.revoked false)
result_row c started = some (new_row c Status.timeout true)
result_row c lost = some (new_row c Status.crashed false)
result_row c (failure true) = some (new_row c Status.timeout false)
result_row c (failure false) = some (new_row c Status.crashed false)
result_row c success = none

unfoldable pub handle_celery_result : Combination → TaskState → List Row → List Row
handle_celery_result c s table = elim (result_row c s) [ none ↦ table | some r ↦ upsert r table ]

pub record Stats : Type 0 where
  pub num_success : ℕ
  pub num_started : ℕ
  pub num_revoked : ℕ
  pub num_failure : ℕ

abbrev pub no_stats : Stats
no_stats = record { num_success = 0; num_started = 0; num_revoked = 0; num_failure = 0 }

unfoldable pub count_state : TaskState → Stats → Stats
count_state pending st = record st { num_revoked = suc st.num_revoked }
count_state retry st = record st { num_revoked = suc st.num_revoked }
count_state cancelled st = record st { num_revoked = suc st.num_revoked }
count_state started st = record st { num_started = suc st.num_started }
count_state success st = record st { num_success = suc st.num_success }
count_state lost st = record st { num_failure = suc st.num_failure }
count_state (failure t) st = record st { num_failure = suc st.num_failure }

-- the loop of `_collect`, over `zip(combinations, taskgroup.results)`
unfoldable pub handle_all : List Combination → List TaskState → List Row → List Row
handle_all [] ss table = table
handle_all (c ∷ cs) [] table = table
handle_all (c ∷ cs) (s ∷ ss) table = handle_all cs ss (handle_celery_result c s table)

unfoldable pub count_all : List Combination → List TaskState → Stats → Stats
count_all [] ss st = st
count_all (c ∷ cs) [] st = st
count_all (c ∷ cs) (s ∷ ss) st = count_all cs ss (count_state s st)

-- `func.max(CheckerResult.finished)` for a tick
unfoldable pub later : Option ℕ → Option ℕ → Option ℕ
later none b = b
later (some a) none = some a
later (some a) (some b) = some (max a b)

unfoldable pub last_finished : ℕ → List Row → Option ℕ
last_finished tick [] = none
last_finished tick (r ∷ rs) =
    let rest = last_finished tick rs in if r.key.tick == tick then later r.finished rest else rest

pub data Warning : Type 0 where
  not_executed not_finished overload no_warning : Warning

-- `_issue_warnings`, with times in tenths of a second; `none` is an exception
unfoldable pub issue_warnings : List Row → Stats → ℕ → ℕ → Option Warning
issue_warnings table st tick collect_time =
    let by_time = λ (last : ℕ). if leb collect_time (last + 35) then overload else no_warning in
    if ltb 0 st.num_revoked
    then some not_executed
    else if ltb 0 st.num_started
    then some not_finished
    else elim (last_finished tick table) [ none ↦ none | some last ↦ some (by_time last) ]

-- The table, which is committed before the warnings, and what they end with.
pub record Collected : Type 0 where
  pub table : List Row
  pub warning : Option Warning

-- `_collect` for the tasks of a tick that are in Redis
unfoldable pub collect : List Combination → List TaskState → List Row → ℕ → Collected
collect [] ss table now = record { table = table; warning = some no_warning }
collect (c ∷ cs) ss table now =
    let after = handle_all (c ∷ cs) ss table in
    record {
      table = after;
      warning = issue_warnings after (count_all (c ∷ cs) ss no_stats) c.tick now;
    }
