-- ===== src/Runner/Eno/Verdict.antt =====
-- The status that the results of the tasks of a service give.
use saarctf_gameserver.Prelude.{
  ℕ, max, ◌≡◌, ◌≢◌, refl, sym, ◌∙◌, ap, Bool, true, false, not, Option, none, some, if_ind, List,
  [], ◌∷◌, All, arith,
}
use saarctf_gameserver.Runner.Eno.{
  CheckerTaskResult, ok, mumble, offline, internal_error, Status, success, recovering, crashed,
  timeout, Text, empty, text, CheckerTaskMessage, Reply, answered, timed_out, failed, Runner, reset,
  query, is_timeout, is_current, write_message, CheckerMethod, put_flag, get_flag, put_noise,
  get_noise, havoc, keep_result,
}
use saarctf_gameserver.Runner.Eno.Handling.{
  status_after, store_attack_info, handle_result, process_message, process_messages, run_output,
}

abbrev pub severity : Status → ℕ
severity success = 0
severity recovering = 1
severity mumble = 2
severity offline = 3
severity crashed = 4
severity timeout = 4

-- how bad a result is, for a task of the current tick or of an earlier one
abbrev pub result_severity : Bool → CheckerTaskResult → ℕ
result_severity _ ok = 0
result_severity _ internal_error = 4
result_severity false _ = 1
result_severity true mumble = 2
result_severity true offline = 3

abbrev result_of : Reply → CheckerTaskResult
result_of (answered r) = r.result
result_of _ = internal_error

abbrev pub worst : List (CheckerTaskMessage × Reply) → ℕ
worst [] = 0
worst ((msg, reply) ∷ rest) = max (result_severity (is_current msg) (result_of reply)) (worst rest)

-- The task of an earlier tick does not find the service offline.
abbrev pub IsLateOnline : CheckerTaskMessage × Reply → Type 0
IsLateOnline (msg, reply) = is_current msg ≡ false → result_of reply ≢ offline

-- Each step takes the worse of the two, for each result.
internal-severity :
    (s : Status) (c : Bool) (m : Option Text)
    → severity (status_after s c internal_error m) ≡ max (severity s) 4
unfolding status_after
internal-severity s c m =
    if_ind (λ t. severity t ≡ max (severity s) 4) (not (is_timeout m)) crashed timeout
      (λ _. sym (max-4 s)) (λ _. sym (max-4 s))
  where
    max-4 : (s : Status) → max (severity s) 4 ≡ 4
    max-4 success = refl
    max-4 recovering = refl
    max-4 mumble = refl
    max-4 offline = refl
    max-4 crashed = refl
    max-4 timeout = refl

ok-severity :
    (s : Status) (c : Bool) (m : Option Text)
    → severity (status_after s c ok m) ≡ max (severity s) 0
unfolding status_after
ok-severity success c m = refl
ok-severity recovering c m = refl
ok-severity mumble c m = refl
ok-severity offline c m = refl
ok-severity crashed c m = refl
ok-severity timeout c m = refl

mumble-severity :
    (s : Status) (c : Bool) (m : Option Text)
    → severity (status_after s c mumble m) ≡ max (severity s) (result_severity c mumble)
unfolding status_after
mumble-severity success true m = refl
mumble-severity success false m = refl
mumble-severity recovering true m = refl
mumble-severity recovering false m = refl
mumble-severity mumble true m = refl
mumble-severity mumble false m = refl
mumble-severity offline true m = refl
mumble-severity offline false m = refl
mumble-severity crashed true m = refl
mumble-severity crashed false m = refl
mumble-severity timeout true m = refl
mumble-severity timeout false m = refl

offline-severity :
    (s : Status) (m : Option Text) → severity (status_after s true offline m) ≡ max (severity s) 3
unfolding status_after
offline-severity success m = refl
offline-severity recovering m = refl
offline-severity mumble m = refl
offline-severity offline m = refl
offline-severity crashed m = refl
offline-severity timeout m = refl

status_after-severity :
    (s : Status) (c : Bool) (r : CheckerTaskResult) (m : Option Text)
    → (c ≡ false → r ≢ offline)
    → severity (status_after s c r m) ≡ max (severity s) (result_severity c r)
status_after-severity s c internal_error m h = internal-severity s c m
status_after-severity s c ok m h = ok-severity s c m
status_after-severity s c mumble m h = mumble-severity s c m
status_after-severity s true offline m h = offline-severity s m
status_after-severity s false offline m h = absurd (h refl refl)

-- Writing messages and attack infos leaves the status.
write_message-status :
    (msg : CheckerTaskMessage) (r : CheckerTaskResult) (m : Option Text) (s : Runner)
    → (write_message msg r m s).status ≡ s.status
unfolding write_message
write_message-status msg r none s = refl
write_message-status msg r (some empty) s = refl
write_message-status msg r (some timeout) s =
    if_ind (λ (t : Runner). t.status ≡ s.status) (is_current msg) _ _ (λ _. refl) (λ _. refl)
write_message-status msg r (some (text n)) s =
    if_ind (λ (t : Runner). t.status ≡ s.status) (is_current msg) _ _ (λ _. refl) (λ _. refl)

store_attack_info-status :
    (method : CheckerMethod) (key : ℕ × ℕ × ℕ) (info : Option ℕ) (s : Runner)
    → (store_attack_info method key info s).status ≡ s.status
unfolding store_attack_info
store_attack_info-status put_flag key (some v) s = refl
store_attack_info-status put_flag key none s = refl
store_attack_info-status get_flag key info s = refl
store_attack_info-status put_noise key info s = refl
store_attack_info-status get_noise key info s = refl
store_attack_info-status havoc key info s = refl

keep_result-status :
    (method : CheckerMethod) (key : ℕ × ℕ) (r : CheckerTaskResult) (s : Runner)
    → (keep_result method key r s).status ≡ s.status
unfolding keep_result
keep_result-status get_flag key r s = refl
keep_result-status put_flag key r s = refl
keep_result-status put_noise key r s = refl
keep_result-status get_noise key r s = refl
keep_result-status havoc key r s = refl

query-lem :
    (msg : CheckerTaskMessage) (reply : Reply) (s : Runner)
    → ((query msg reply s).0.result ≡ result_of reply) × ((query msg reply s).1.status ≡ s.status)
unfolding query
query-lem msg (answered r) s = (refl, keep_result-status msg.method _ r.result s)
query-lem msg timed_out s = (refl, refl)
query-lem msg failed s = (refl, refl)

process_message-severity :
    (msg : CheckerTaskMessage) (reply : Reply) (s : Runner)
    → IsLateOnline (msg, reply)
    → severity (process_message msg reply s).status
      ≡ max (severity s.status) (result_severity (is_current msg) (result_of reply))
unfolding process_message handle_result
process_message-severity msg reply s h =
    let (r, s1) = query msg reply s in
    let (er, es) = query-lem msg reply s in
    ap severity (store_attack_info-status msg.method _ r.attack_info _)
    ∙ ap (λ t. severity (status_after t (is_current msg) r.result r.message))
        (write_message-status msg r.result r.message s1 ∙ es)
    ∙ ap (λ x. severity (status_after s.status (is_current msg) x r.message)) er
    ∙ status_after-severity s.status (is_current msg) (result_of reply) r.message h

max_0 : (n : ℕ) → max n 0 ≡ n
max_0 n = omega arith

zero-max : (n : ℕ) → max 0 n ≡ n
zero-max n = omega arith

max_assoc : (a b c : ℕ) → max (max a b) c ≡ max a (max b c)
max_assoc a b c = omega arith

process_messages-from :
    (answers : List (CheckerTaskMessage × Reply)) (s : Runner)
    → All IsLateOnline answers
    → severity (process_messages answers s).status ≡ max (severity s.status) (worst answers)
unfolding process_messages
process_messages-from [] s h = sym (max_0 (severity s.status))
process_messages-from ((msg, reply) ∷ rest) s h =
    process_messages-from rest (process_message msg reply s) h.1
    ∙ ap (λ n. max n (worst rest)) (process_message-severity msg reply s h.0)
    ∙ max_assoc (severity s.status) _ (worst rest)

-- If no task for an earlier tick finds the service offline, the status of a run is as bad as the
-- worst of its results, in whatever order they arrive: success if all are OK; recovering for
-- another result of an earlier tick; mumble and offline for these results in the current tick;
-- crashed or timeout for an internal error, a timeout or an answer that cannot be read.
pub process_messages-worst :
    (answers : List (CheckerTaskMessage × Reply)) (s : Runner)
    → All IsLateOnline answers
    → severity (run_output (process_messages answers (reset s))).status ≡ worst answers
unfolding reset run_output
process_messages-worst answers s h =
    process_messages-from answers (reset s) h ∙ zero-max (worst answers)
