-- ===== src/Runner/Eno/Handling.antt =====
-- checker_runner/runners/eno.py: `_handle_result`, and what the runner returns.
use saarctf_gameserver.Prelude.{
  ℕ, Bool, true, false, not, ◌&&◌, Option, some, if◌then◌else◌, List, [], ◌∷◌, ◌++◌, map,
}
use saarctf_gameserver.Runner.Eno.{
  CheckerMethod, put_flag, CheckerTaskResult, ok, mumble, offline, internal_error, Status, success,
  recovering, crashed, timeout, Text, CheckerTaskMessage, CheckerResultMessage, Reply, Runner,
  same_triple, set, query, is_timeout, is_current, write_message,
}

-- `self.status in ("SUCCESS", "RECOVERING")`
abbrev pub is_open : Status → Bool
is_open success = true
is_open recovering = true
is_open _ = false

-- `self.status in ("SUCCESS", "RECOVERING", "MUMBLE")`
abbrev pub is_open_or_mumble : Status → Bool
is_open_or_mumble mumble = true
is_open_or_mumble s = is_open s

abbrev pub same_result : CheckerTaskResult → CheckerTaskResult → Bool
same_result ok ok = true
same_result mumble mumble = true
same_result offline offline = true
same_result internal_error internal_error = true
same_result _ _ = false

-- the new status, for a task of the current tick or of an earlier one
unfoldable pub status_after : Status → Bool → CheckerTaskResult → Option Text → Status
status_after s current result message =
    if same_result result internal_error
    then if not (is_timeout message) then crashed else timeout
    else if is_open s && not (same_result result ok) && not current
    then recovering
    else if is_open s && same_result result mumble
    then mumble
    else if is_open_or_mumble s && same_result result offline
    then offline
    else s

unfoldable pub store_attack_info : CheckerMethod → ℕ × ℕ × ℕ → Option ℕ → Runner → Runner
unfolding set
store_attack_info put_flag key (some value) s = record s {
  flag_ids = set same_triple key value s.flag_ids;
}
store_attack_info _ key _ s = s

unfoldable pub handle_result : CheckerTaskMessage → CheckerResultMessage → Runner → Runner
unfolding write_message status_after store_attack_info
handle_result msg result s0 =
    let s1 = write_message msg result.result result.message s0 in
    let s2 = record s1 {
      status = status_after s1.status (is_current msg) result.result result.message;
    } in
    let s3 =
      store_attack_info msg.method (msg.current_round_id, msg.team_id, msg.variant_id)
        result.attack_info s2 in
    record s3 { output = s3.output ++ some (msg, result.result) ∷ [] }

-- `_process_message_with_jitter` from the answer on
unfoldable pub process_message : CheckerTaskMessage → Reply → Runner → Runner
unfolding query handle_result
process_message msg reply s = let (result, s') = query msg reply s in handle_result msg result s'

-- The tasks in the order in which they are answered.
unfoldable pub process_messages : List (CheckerTaskMessage × Reply) → Runner → Runner
unfolding process_message
process_messages [] s = s
process_messages ((msg, reply) ∷ rest) s = process_messages rest (process_message msg reply s)

-- CheckerRunOutput. The message is the set of these texts, and the data the results of `get_flag`.
pub record CheckerRunOutput : Type 0 where
  pub status : Status
  pub message : List Text
  pub output : List (Option (CheckerTaskMessage × CheckerTaskResult))
  pub data_ : List ((ℕ × ℕ) × CheckerTaskResult)

unfoldable pub run_output : Runner → CheckerRunOutput
run_output s = record {
  status = s.status;
  message =
      map (λ entry. entry.1) (elim s.messages [ [] ↦ s.recovery_messages | _ ∷ _ ↦ s.messages ]);
  output = s.output;
  data_ = s.custom_results;
}
