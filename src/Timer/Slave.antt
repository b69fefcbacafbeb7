-- ===== src/Timer/Slave.antt =====
-- controlserver/timer.py: `CTFTimerSlave`. A slave changes its own copy of the attributes and
-- publishes requests, which reach the master as messages.
use saarctf_gameserver.Prelude.{
  ℕ, ◌+◌, Option, none, some, ◌==◌, is_set, if◌then◌else◌, List, [], ◌∷◌,
}
use saarctf_gameserver.Timer.State.{CtfState, stopped, suspended, running, CtfTimer}
use saarctf_gameserver.Timer.Redis.{Channel, Wire, Message, to_wire}
use saarctf_gameserver.Timer.Master.{same}

-- What a slave publishes: never the state, the tick or its start.
pub data Request : Type 0 where
  desired_state : CtfState → Request
  round_end : ℕ → Request
  round_time : ℕ → Request
  stop_after_round start_at open_vulnbox_access_at : Option ℕ → Request

abbrev pub to_message : Request → Message
to_message (desired_state s) = (Channel.desired_state, Wire.name s)
to_message (round_end n) = (Channel.round_end, Wire.num n)
to_message (round_time n) = (Channel.round_time, Wire.num n)
to_message (stop_after_round o) = (Channel.stop_after_round, to_wire o)
to_message (start_at o) = (Channel.start_at, to_wire o)
to_message (open_vulnbox_access_at o) = (Channel.open_vulnbox_access_at, to_wire o)

abbrev new_end : Option ℕ → ℕ → CtfTimer → CtfTimer × List Request
new_end none time t = (t, round_time time ∷ [])
new_end (some start) time t =
    if is_set (some start)
    then (
      record t { tick_end = some (start + time) },
      round_end (start + time) ∷ round_time time ∷ [],
    )
    else (t, round_time time ∷ [])

unfoldable pub set_tick_time : ℕ → CtfTimer → CtfTimer × List Request
set_tick_time time t =
    if t.tick_time == time
    then (t, [])
    else new_end t.tick_start time (record t { tick_time = time })

unfoldable pub set_stop_after_tick : Option ℕ → CtfTimer → CtfTimer × List Request
set_stop_after_tick last t =
    if same t.stop_after_tick last
    then (t, [])
    else (record t { stop_after_tick = last }, stop_after_round last ∷ [])

unfoldable pub set_start_at : Option ℕ → CtfTimer → CtfTimer × List Request
set_start_at at t =
    if same t.start_at at then (t, []) else (record t { start_at = at }, start_at at ∷ [])

unfoldable pub set_open_vulnbox_access_at : Option ℕ → CtfTimer → CtfTimer × List Request
set_open_vulnbox_access_at at t =
    if same t.open_vulnbox_access_at at
    then (t, [])
    else (record t { open_vulnbox_access_at = at }, open_vulnbox_access_at at ∷ [])

unfoldable pub start_ctf : CtfTimer → CtfTimer × List Request
start_ctf t = (record t { desired_state = running }, desired_state running ∷ [])

unfoldable pub suspend_ctf_after_tick : CtfTimer → CtfTimer × List Request
suspend_ctf_after_tick t = (record t { desired_state = suspended }, desired_state suspended ∷ [])

unfoldable pub stop_ctf_after_tick : CtfTimer → CtfTimer × List Request
stop_ctf_after_tick t = (record t { desired_state = stopped }, desired_state stopped ∷ [])
