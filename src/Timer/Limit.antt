-- ===== src/Timer/Limit.antt =====
-- `stop_after_tick` of controlserver/timer.py.
use saarctf_gameserver.Prelude.{
  ℕ, ◌≤◌, ◌<◌, ◌≡◌, refl, true, none, some, ◌⊎◌, List, [], ◌∷◌, if_ind, arith, ap, Option,
}
use saarctf_gameserver.Timer.State.{stopped, running, is_running, CtfTimer}
use saarctf_gameserver.Timer.Master.{
  World, update_tick_times, on_start_tick, on_start_ctf, on_end_ctf, on_open_vulnbox_access,
  on_update_times, begin, start_ctf, next_tick, halt, end_tick_at, check_time, or_zero, notify,
  tick_ends, in_window,
}
use saarctf_gameserver.Timer.View.{
  Checked, tick_over, wanted, scheduled, opening, waiting, check_time-Checked, take_opening,
}
use saarctf_gameserver.Timer.Phases.{timer-on_update_times, running_of}

-- The main loop of `run_master_timer`: a call of `check_time` for each pair of clock readings.
unfoldable pub loop : List (ℕ × ℕ) → World → World
loop [] w = w
loop ((t, now) ∷ ts) w = loop ts (check_time t now w)

-- The last tick, `n`, is ahead, or the game has been told to stop; nothing will start it again.
pub record Limited (n : ℕ) (c : CtfTimer) : Type 0 where
  pub unscheduled : c.start_at ≡ none
  pub bound :
      (c.stop_after_tick ≡ some n) × (c.current_tick < n)
      ⊎ (c.current_tick ≤ n) × (c.desired_state ≡ stopped)

not_scheduled : (t : ℕ) {o : Option ℕ} → o ≡ none → in_window t o ≡ true → ⊥
not_scheduled t e h = cc (ap (in_window t) e)

module _ (n : ℕ) where
  Limited-le : (c : CtfTimer) → Limited n c → c.current_tick ≤ n
  Limited-le c h = ground (arith, h.bound)

  module _ (w : World) (pos : 0 < n) where
    begin-Limited :
        (now : ℕ)
        → w.timer.desired_state ≡ running
        → Limited n w.timer
        → Limited n (begin now w).timer
    unfolding begin on_start_tick on_start_ctf update_tick_times
    begin-Limited now go h = record {
      unscheduled = ground (arith, h.unscheduled);
      bound = ground (arith, h.bound);
    }

    next_tick-Limited :
        (t end : ℕ)
        → w.timer.desired_state ≡ running
        → Limited n w.timer
        → Limited n (next_tick t end w).timer
    unfolding next_tick on_start_tick
    next_tick-Limited t end go h = record {
      unscheduled = ground (arith, h.unscheduled);
      bound = ground (arith, h.bound);
    }

    halt-Limited : Limited n w.timer → Limited n (halt w).timer
    unfolding halt on_end_ctf update_tick_times
    halt-Limited h = record {
      unscheduled = ground (arith, h.unscheduled);
      bound = ground (arith, h.bound);
    }

    opened-Limited : Limited n w.timer → Limited n (on_open_vulnbox_access w).timer
    unfolding on_open_vulnbox_access update_tick_times
    opened-Limited h = record {
      unscheduled = ground (arith, h.unscheduled);
      bound = ground (arith, h.bound);
    }

  end_tick_at-Limited :
      (t end : ℕ) (w : World) → 0 < n → Limited n w.timer → Limited n (end_tick_at t end w).timer
  unfolding end_tick_at
  end_tick_at-Limited t end w pos h =
      let w1 = notify (tick_ends w.timer.current_tick) w in
      rw timer-on_update_times (
        if_ind (λ (u : World). Limited n u.timer) (is_running w.timer.desired_state)
          (next_tick t end w1) (halt w1)
          (λ go. next_tick-Limited w1 pos t end (running_of w.timer.desired_state go) h)
          (λ _. halt-Limited w1 pos h))

  start_ctf-Limited :
      (now : ℕ) (w : World)
      → 0 < n
      → w.timer.desired_state ≡ running
      → Limited n w.timer
      → Limited n (start_ctf now w).timer
  unfolding start_ctf
  start_ctf-Limited now w pos go h =
      let w1 = record w { timer = record w.timer { desired_state = running } } in
      let h1 : Limited n w1.timer = record {
        unscheduled = h.unscheduled;
        bound = ground (arith, h.bound);
      } in
      if_ind (λ (u : World). Limited n u.timer) (is_running w.timer.state) w1
        (on_update_times (begin now w1)) (λ _. h1)
        (λ _. rw timer-on_update_times (begin-Limited w1 pos now refl h1))

  check_time-Limited :
      (t now : ℕ) (w : World) → 0 < n → Limited n w.timer → Limited n (check_time t now w).timer
  check_time-Limited t now w pos h = go (check_time-Checked t now w)
    where
      go : {u : World} → Checked t now w u → Limited n u.timer
      go (tick_over busy due e) = rw e (end_tick_at-Limited t (or_zero w.timer.tick_end) w pos h)
      go (wanted rest wish e) =
          rw e (start_ctf-Limited now w pos (running_of w.timer.desired_state wish) h)
      go (scheduled rest unwished due e) = absurd (not_scheduled t h.unscheduled due)
      go (opening rest due e) =
          rw (e, timer-on_update_times)
            (opened-Limited (take_opening t now w) pos
              (record { unscheduled = h.unscheduled; bound = h.bound }))
      go (waiting e) = rw e h

  -- If stop_after_tick is set to a tick after the current one, or the game has been told to stop,
  -- and no start is scheduled, then no sequence of calls of check_time, at any readings of the
  -- clock, leads to a tick after that limit.
  pub loop-le_stop_after_tick :
      (ts : List (ℕ × ℕ)) (w : World)
      → 0 < n
      → Limited n w.timer
      → (loop ts w).timer.current_tick ≤ n
  unfolding loop
  loop-le_stop_after_tick [] w pos h = Limited-le w.timer h
  loop-le_stop_after_tick ((t, now) ∷ ts) w pos h =
      loop-le_stop_after_tick ts (check_time t now w) pos (check_time-Limited t now w pos h)
