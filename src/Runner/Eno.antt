-- ===== src/Runner/Eno.antt =====
-- checker_runner/runners/eno.py: EnoCheckerRunner, the tasks of a service in a tick, and what their
-- results make of the runner. The checker's answers are arguments; `get_flag` and the fields of a
-- message that are sent to the checker only are left out, as is the sorting of the output.
pub mod Tasks
pub mod Verdict
pub mod Handling
use saarctf_gameserver.Prelude.{
  ℕ, zero, suc, ◌+◌, Bool, true, false, not, ◌&&◌, ◌||◌, ◌==◌, leb, Option, none, some,
  if◌then◌else◌, List, [], ◌∷◌, ◌++◌, map, ℤ,
}
use saarctf_gameserver.Runner.Slots.{CheckerInfo}

-- CheckerMethod, the kinds of requests that the runner makes
pub data CheckerMethod : Type 0 where
  put_flag get_flag put_noise get_noise havoc : CheckerMethod

-- CheckerTaskResult
pub data CheckerTaskResult : Type 0 where
  ok mumble offline internal_error : CheckerTaskResult

-- the values of `status`
pub data Status : Type 0 where
  success recovering mumble offline crashed timeout : Status

-- A text: the empty one, "TIMEOUT", or another one by its number.
pub data Text : Type 0 where
  empty timeout : Text
  text : ℕ → Text

-- the kind of a chain of tasks, the start of its id
pub data ChainKind : Type 0 where
  flag noise havoc : ChainKind

-- `task_chain_id`, for the service of the runner
pub record TaskChain : Type 0 where
  pub kind : ChainKind
  pub round : ℕ
  pub team_id : ℕ
  pub variant_id : ℕ

pub record CheckerTaskMessage : Type 0 where
  pub method : CheckerMethod
  pub team_id : ℕ
  pub current_round_id : ℕ
  pub related_round_id : ℕ
  pub variant_id : ℕ
  pub task_chain_id : TaskChain

pub record CheckerResultMessage : Type 0 where
  pub result : CheckerTaskResult
  pub message : Option Text
  pub attack_info : Option ℕ

-- What comes back for a request: a parsed answer with status 200, a TimeoutError, or another
-- exception.
pub data Reply : Type 0 where
  answered : CheckerResultMessage → Reply
  timed_out failed : Reply

abbrev Messages : Type 0
Messages = List (TaskChain × Text)

-- EnoCheckerRunner, with the attack infos that it stores in Redis (tick, team, index, value). The
-- output has the message and its result, or nothing for a traceback.
pub record Runner : Type 0 where
  pub custom_results : List ((ℕ × ℕ) × CheckerTaskResult)
  pub output : List (Option (CheckerTaskMessage × CheckerTaskResult))
  pub messages : Messages
  pub recovery_messages : Messages
  pub status : Status
  pub flag_ids : List ((ℕ × ℕ × ℕ) × ℕ)

unfoldable pub reset : Runner → Runner
reset s = record s {
  custom_results = [];
  output = [];
  messages = [];
  recovery_messages = [];
  status = success;
}

abbrev same_kind : ChainKind → ChainKind → Bool
same_kind flag flag = true
same_kind noise noise = true
same_kind havoc havoc = true
same_kind _ _ = false

abbrev pub same_chain : TaskChain → TaskChain → Bool
same_chain a b =
    same_kind a.kind b.kind
    && (a.round == b.round)
    && (a.team_id == b.team_id)
    && (a.variant_id == b.variant_id)

abbrev same_pair : ℕ × ℕ → ℕ × ℕ → Bool
same_pair (a, b) (c, d) = (a == c) && (b == d)

abbrev pub same_triple : ℕ × ℕ × ℕ → ℕ × ℕ × ℕ → Bool
same_triple (a, b, c) (d, e, f) = (a == d) && (b == e) && (c == f)

-- `d[key] = value` for a dictionary in the order of insertion
unfoldable pub set : {K V : Type 0} → (K → K → Bool) → K → V → List (K × V) → List (K × V)
set same key value [] = (key, value) ∷ []
set same key value ((k, v) ∷ d) =
    if same key k then (k, value) ∷ d else (k, v) ∷ set same key value d

-- `d.get(key, default)`
unfoldable pub get : {K V : Type 0} → (K → K → Bool) → K → V → List (K × V) → V
get same key default [] = default
get same key default ((k, v) ∷ d) = if same key k then v else get same key default d

-- The result is kept under the related tick and the variant, if a flag was asked for.
unfoldable pub keep_result : CheckerMethod → ℕ × ℕ → CheckerTaskResult → Runner → Runner
unfolding set
keep_result get_flag key result s = record s {
  custom_results = set same_pair key result s.custom_results;
}
keep_result _ key result s = s

unfoldable pub query : CheckerTaskMessage → Reply → Runner → CheckerResultMessage × Runner
unfolding keep_result
query msg (answered result) s =
    (result, keep_result msg.method (msg.related_round_id, msg.variant_id) result.result s)
query msg timed_out s =
    (record { result = internal_error; message = some timeout; attack_info = none }, s)
query msg failed s = (
  record { result = internal_error; message = none; attack_info = none },
  record s { output = s.output ++ none ∷ [] },
)

unfoldable pub task_chain_msg_write : TaskChain → CheckerTaskResult → Text → Messages → Messages
unfolding set get
task_chain_msg_write key offline message m = set same_chain key message m
task_chain_msg_write key _ message m = set same_chain key (get same_chain key message m) m

abbrev pub is_timeout : Option Text → Bool
is_timeout (some timeout) = true
is_timeout _ = false

-- `current_round_id == related_round_id`
abbrev pub is_current : CheckerTaskMessage → Bool
is_current msg = msg.current_round_id == msg.related_round_id

-- A text that is not empty is written to the messages of its tick.
unfoldable pub write_message :
    CheckerTaskMessage → CheckerTaskResult → Option Text → Runner → Runner
unfolding task_chain_msg_write
write_message msg result none s = s
write_message msg result (some empty) s = s
write_message msg result (some m) s =
    if is_current msg
    then record s { messages = task_chain_msg_write msg.task_chain_id result m s.messages }
    else record s {
      recovery_messages = task_chain_msg_write msg.task_chain_id result m s.recovery_messages;
    }
