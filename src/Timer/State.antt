-- ===== src/Timer/State.antt =====
-- controlserver/timer.py: `CTFState` and the attributes of `CTFTimerBase`. Times are whole seconds
-- since the epoch and, like the tick number, never negative.
use saarctf_gameserver.Prelude.{ℕ, Option, none, Bool, true, false}

pub data CtfState : Type 0 where
  stopped suspended running : CtfState

abbrev pub is_running : CtfState → Bool
is_running running = true
is_running stopped = false
is_running suspended = false

abbrev pub is_stopped : CtfState → Bool
is_stopped stopped = true
is_stopped running = false
is_stopped suspended = false

abbrev pub is_suspended : CtfState → Bool
is_suspended suspended = true
is_suspended running = false
is_suspended stopped = false

pub record CtfTimer : Type 0 where
  pub state : CtfState
  pub desired_state : CtfState
  pub current_tick : ℕ
  pub tick_start : Option ℕ
  pub tick_end : Option ℕ
  pub tick_time : ℕ
  pub stop_after_tick : Option ℕ
  pub start_at : Option ℕ
  pub open_vulnbox_access_at : Option ℕ

-- `CTFTimerBase.__init__`, from the configured `TICK_DURATION_DEFAULT`
abbrev pub init_timer : ℕ → CtfTimer
init_timer tick_duration_default = record {
  state = stopped;
  desired_state = stopped;
  current_tick = 0;
  tick_start = none;
  tick_end = none;
  tick_time = tick_duration_default;
  stop_after_tick = none;
  start_at = none;
  open_vulnbox_access_at = none;
}
