-- ===== src/Timer/Ticks.antt =====
-- How `check_time` (controlserver/timer.py) moves from one tick to the next.
use saarctf_gameserver.Prelude.{ℕ, ◌+◌, ◌≤◌, ◌<◌, ◌≡◌, some, arith}
use saarctf_gameserver.Timer.State.{running, CtfTimer}
use saarctf_gameserver.Timer.Master.{
  World, on_start_tick, next_tick, end_tick_at, check_time, next_start, notify, tick_ends,
}
use saarctf_gameserver.Timer.Phases.{timer-on_update_times}

-- A tick that is over is followed by the next one, which begins when the last one was due to end
-- or, if the clock is more than a second late, now, and which ends `tick_time` later.
pub record Follows (t end : ℕ) (old new : CtfTimer) : Type 0 where
  pub tick : new.current_tick ≡ old.current_tick + 1
  pub still : new.state ≡ running
  pub start : ℕ
  pub starts : new.tick_start ≡ some start
  pub ends : new.tick_end ≡ some (start + old.tick_time)
  pub not_early : end ≤ start
  pub not_future : start ≤ t
  pub no_gap : t ≤ end + 1 → start ≡ end

next_start_bounds :
    (t end : ℕ)
    → end ≤ t
    → (end ≤ next_start t end) × (next_start t end ≤ t) × (t ≤ end + 1 → next_start t end ≡ end)
next_start_bounds t end due = (ground arith, ground arith, λ near. ground arith)

module _ (t end : ℕ) (w : World) where
  next_tick-Follows :
      w.timer.state ≡ running → end ≤ t → Follows t end w.timer (next_tick t end w).timer
  unfolding next_tick on_start_tick
  next_tick-Follows busy due =
      let (lower, upper, exact) = next_start_bounds t end due in
      record {
        tick = ground arith;
        still = ground arith;
        start = next_start t end;
        starts = ground arith;
        ends = ground arith;
        not_early = lower;
        not_future = upper;
        no_gap = exact;
      }

  timer-end_tick_at :
      w.timer.desired_state ≡ running
      → (end_tick_at t end w).timer
        ≡ (next_tick t end (notify (tick_ends w.timer.current_tick) w)).timer
  unfolding end_tick_at
  timer-end_tick_at go = rw (go, timer-on_update_times)

check_time_over :
    (t now end : ℕ) (w : World)
    → w.timer.state ≡ running
    → w.timer.tick_end ≡ some end
    → 0 < end
    → end ≤ t
    → check_time t now w ≡ end_tick_at t end w
unfolding check_time
check_time_over t now end w busy e pos due = ground arith

-- While the game runs and shall go on, a call of check_time at a time that is not before the end
-- of the tick begins the next tick: its number is one higher, the state stays running, it begins
-- between the end of the last tick and the time of the call, at the end of the last tick if the
-- call is at most a second late, and it ends one length of a tick after its start.
pub check_time-Follows :
    (t now end : ℕ) (w : World)
    → w.timer.state ≡ running
    → w.timer.desired_state ≡ running
    → w.timer.tick_end ≡ some end
    → 0 < end
    → end ≤ t
    → Follows t end w.timer (check_time t now w).timer
check_time-Follows t now end w busy go e pos due =
    rw (check_time_over t now end w busy e pos due, timer-end_tick_at t end w go)
      (next_tick-Follows t end (notify (tick_ends w.timer.current_tick) w) busy due)
