-- ===== src/Timer/Phases.antt =====
-- The events that the master timer of controlserver/timer.py sends, as the course of a game.
use saarctf_gameserver.Prelude.{
  ℕ, ◌+◌, ◌≡◌, refl, Bool, true, false, if_ind, Option, none, some, ◌==◌, if◌then◌else◌, List, [],
  ◌∷◌, arith,
}
use saarctf_gameserver.Timer.State.{CtfState, stopped, suspended, running, is_running, CtfTimer}
use saarctf_gameserver.Timer.Redis.{receive}
use saarctf_gameserver.Timer.Slave.{Request}
use saarctf_gameserver.Timer.Master
use saarctf_gameserver.Timer.Master.{
  Event, tick_starts, tick_ends, ctf_starts, ctf_suspends, ctf_ends, times_update,
  vulnbox_access_opens, notify, Effect, published, notified, tick_times, World, update_tick_times,
  publish_all, on_update_times, on_start_tick, on_start_ctf, on_end_ctf, on_open_vulnbox_access,
  or_zero, same, begin, next_tick, halt, end_tick_at,
}
use saarctf_gameserver.Timer.View.{
  Checked, tick_over, wanted, scheduled, opening, waiting, check_time-Checked, take_start,
  take_opening,
}
use saarctf_gameserver.Timer.System.{
  Command, check_time, start_ctf, suspend_ctf_after_tick, stop_ctf_after_tick, set_tick_time,
  set_stop_after_tick, set_start_at, set_open_vulnbox_access_at, receive_request, step, run,
}

-- Where the game stands, with the number of the last tick that began. In `ready` the next tick
-- may begin or the game may halt.
pub data Phase : Type 0 where
  idle paused during ready : ℕ → Phase

abbrev advance : Event → Phase → Option Phase
advance ctf_starts (idle n) = some (ready n)
advance (tick_starts m) (ready n) = if m == n + 1 then some (during m) else none
advance (tick_starts m) (paused n) = if m == n + 1 then some (during m) else none
advance (tick_ends m) (during n) = if m == n then some (ready n) else none
advance ctf_suspends (ready n) = some (paused n)
advance ctf_ends (ready n) = some (idle n)
advance vulnbox_access_opens (idle n) = some (idle n)
advance vulnbox_access_opens (paused n) = some (paused n)
advance times_update p = some p
advance _ _ = none

abbrev advance? : Event → Option Phase → Option Phase
advance? e none = none
advance? e (some p) = advance e p

-- The phase after all events since the phase `p`; `none` if one of them was out of order.
unfoldable pub phase_after : Phase → List Effect → Option Phase
phase_after p [] = some p
phase_after p (notified e ∷ es) = advance? e (phase_after p es)
phase_after p (published m ∷ es) = phase_after p es
phase_after p (tick_times n s e d ∷ es) = phase_after p es

abbrev phase_in : CtfState → ℕ → Phase
phase_in stopped n = idle n
phase_in suspended n = paused n
phase_in running n = during n

-- The phase that the attributes of the timer tell.
abbrev pub phase : CtfTimer → Phase
phase t = phase_in t.state t.current_tick

-- The events so far are in order, and lead to the phase that the timer shows.
pub record InOrder (p : Phase) (w : World) : Type 0 where
  pub follows : phase_after p w.effects ≡ some (phase w.timer)

advance?_times_update : (o : Option Phase) → advance? times_update o ≡ o
advance?_times_update none = refl
advance?_times_update (some p) = refl

module _ (p : Phase) where
  phase_after-publish_all :
      (w : World) → phase_after p (publish_all w).effects ≡ phase_after p w.effects
  unfolding publish_all phase_after
  phase_after-publish_all w = refl

  phase_after-update_tick_times :
      (w : World) → phase_after p (update_tick_times w).effects ≡ phase_after p w.effects
  unfolding update_tick_times phase_after
  phase_after-update_tick_times w = ground arith

  phase_after-on_update_times :
      (w : World) → phase_after p (on_update_times w).effects ≡ phase_after p w.effects
  unfolding on_update_times update_tick_times publish_all phase_after
  phase_after-on_update_times w = ground (arith, advance?_times_update (phase_after p w.effects))

pub timer-on_update_times : (w : World) → (on_update_times w).timer ≡ w.timer
unfolding on_update_times update_tick_times publish_all
timer-on_update_times w = ground arith

module _ (p : Phase) (w : World) where
  on_update_times-InOrder : InOrder p w → InOrder p (on_update_times w)
  on_update_times-InOrder h = record {
    follows = rw (phase_after-on_update_times p w, timer-on_update_times w) h.follows;
  }

  -- A new tick, from a timer that has stopped or paused.
  begin-InOrder :
      (now : ℕ) → is_running w.timer.state ≡ false → InOrder p w → InOrder p (begin now w)
  unfolding begin on_start_ctf on_start_tick update_tick_times phase_after
  begin-InOrder now rest h = record { follows = ground (arith, h.follows) }

  abbrev IsReady : Type 0
  IsReady = phase_after p w.effects ≡ some (ready w.timer.current_tick)

  next_tick-InOrder :
      (t end : ℕ) → w.timer.state ≡ running → IsReady → InOrder p (next_tick t end w)
  unfolding next_tick on_start_tick phase_after
  next_tick-InOrder t end busy h = record { follows = ground (arith, h) }

  halt-InOrder : is_running w.timer.desired_state ≡ false → IsReady → InOrder p (halt w)
  unfolding halt on_end_ctf update_tick_times phase_after
  halt-InOrder over h = record { follows = ground (arith, h) }

module _ (p : Phase) (w : World) where
  end_tick_notified :
      w.timer.state ≡ running → InOrder p w → IsReady p (notify (tick_ends w.timer.current_tick) w)
  unfolding phase_after
  end_tick_notified busy h = ground (arith, h.follows)

  end_tick_at-InOrder :
      (t end : ℕ) → w.timer.state ≡ running → InOrder p w → InOrder p (end_tick_at t end w)
  unfolding end_tick_at
  end_tick_at-InOrder t end busy h =
      let w1 = notify (tick_ends w.timer.current_tick) w in
      let r = end_tick_notified busy h in
      on_update_times-InOrder p _ (
        if_ind (InOrder p) (is_running w.timer.desired_state) (next_tick t end w1) (halt w1)
          (λ _. next_tick-InOrder p w1 t end busy r) (λ over. halt-InOrder p w1 over r))

  start_ctf-InOrder : (now : ℕ) → InOrder p w → InOrder p (Master.start_ctf now w)
  unfolding Master.start_ctf
  start_ctf-InOrder now h =
      let w1 = record w { timer = record w.timer { desired_state = running } } in
      let h1 : InOrder p w1 = record { follows = h.follows } in
      if_ind (InOrder p) (is_running w.timer.state) w1 (on_update_times (begin now w1)) (λ _. h1)
        (λ rest. on_update_times-InOrder p (begin now w1) (begin-InOrder p w1 now rest h1))

  open_vulnbox_access-InOrder :
      is_running w.timer.state ≡ false → InOrder p w → InOrder p (on_open_vulnbox_access w)
  unfolding on_open_vulnbox_access update_tick_times phase_after
  open_vulnbox_access-InOrder rest h = record { follows = ground (arith, h.follows) }

pub running_of : (s : CtfState) → is_running s ≡ true → s ≡ running
running_of stopped h = cc
running_of suspended h = cc
running_of running h = refl

module _ (p : Phase) (w : World) (h : InOrder p w) where
  check_time-InOrder : (t now : ℕ) → InOrder p (Master.check_time t now w)
  check_time-InOrder t now = go (check_time-Checked t now w)
    where
      go : {u : World} → Checked t now w u → InOrder p u
      go (tick_over busy due e) =
          rw e
            (end_tick_at-InOrder p w t (or_zero w.timer.tick_end) (running_of w.timer.state busy) h)
      go (wanted rest wish e) = rw e (start_ctf-InOrder p w now h)
      go (scheduled rest unwished due e) =
          rw e (start_ctf-InOrder p (take_start t now w) now (record { follows = h.follows }))
      go (opening rest due e) =
          let w1 = take_opening t now w in
          rw e (
            on_update_times-InOrder p (on_open_vulnbox_access w1)
              (open_vulnbox_access-InOrder p w1 rest (record { follows = h.follows })))
      go (waiting e) = rw e h

  updated-InOrder :
      (t : CtfTimer)
      → t.state ≡ w.timer.state
      → t.current_tick ≡ w.timer.current_tick
      → InOrder p (on_update_times (record w { timer = t }))
  updated-InOrder t same_state same_tick =
      on_update_times-InOrder p (record w { timer = t })
        (record { follows = rw (same_state, same_tick) h.follows })

  -- the setters, which do nothing if the value is the old one
  updated_unless-InOrder :
      (b : Bool) (t : CtfTimer)
      → t.state ≡ w.timer.state
      → t.current_tick ≡ w.timer.current_tick
      → InOrder p (if b then w else on_update_times (record w { timer = t }))
  updated_unless-InOrder b t same_state same_tick =
      if_ind (InOrder p) b w (on_update_times (record w { timer = t })) (λ _. h)
        (λ _. updated-InOrder t same_state same_tick)

  receive_request-InOrder : (r : Request) → InOrder p (step (receive_request r) w)
  unfolding step receive
  receive_request-InOrder (Request.desired_state s) = record { follows = h.follows }
  receive_request-InOrder (Request.round_end n) = record { follows = h.follows }
  receive_request-InOrder (Request.round_time n) = record { follows = h.follows }
  receive_request-InOrder (Request.stop_after_round none) = record { follows = h.follows }
  receive_request-InOrder (Request.stop_after_round (some n)) = record { follows = h.follows }
  receive_request-InOrder (Request.start_at none) = record { follows = h.follows }
  receive_request-InOrder (Request.start_at (some n)) = record { follows = h.follows }
  receive_request-InOrder (Request.open_vulnbox_access_at none) = record { follows = h.follows }
  receive_request-InOrder (Request.open_vulnbox_access_at (some n)) = record { follows = h.follows }

  step-InOrder : (c : Command) → InOrder p (step c w)
  unfolding step Master.suspend_ctf_after_tick Master.stop_ctf_after_tick Master.set_tick_time
      Master.set_stop_after_tick Master.set_start_at Master.set_open_vulnbox_access_at
  step-InOrder (check_time t now) = check_time-InOrder t now
  step-InOrder (start_ctf now) = start_ctf-InOrder p w now h
  step-InOrder suspend_ctf_after_tick = updated-InOrder _ refl refl
  step-InOrder stop_ctf_after_tick = updated-InOrder _ refl refl
  step-InOrder (set_tick_time n) =
      let c = w.timer in
      updated_unless-InOrder (c.tick_time == n)
        (record c { tick_time = n; tick_end = Master.end_of c.tick_start n c.tick_end }) refl refl
  step-InOrder (set_stop_after_tick o) =
      updated_unless-InOrder (same w.timer.stop_after_tick o)
        (record w.timer { stop_after_tick = o }) refl refl
  step-InOrder (set_start_at o) =
      updated_unless-InOrder (same w.timer.start_at o) (record w.timer { start_at = o }) refl refl
  step-InOrder (set_open_vulnbox_access_at o) =
      updated_unless-InOrder (same w.timer.open_vulnbox_access_at o)
        (record w.timer { open_vulnbox_access_at = o }) refl refl
  step-InOrder (receive_request r) = receive_request-InOrder r

-- If the events that the master timer has sent so far are in the order of a game (a game starts,
-- ticks start and end in turn with consecutive numbers, the game pauses or ends between two ticks)
-- and lead to the phase that its state and tick number show, then this still holds after any
-- sequence of calls of its methods, of requests of slaves, and of calls of check_time at any
-- readings of the clock.
pub run-InOrder : (p : Phase) (cs : List Command) (w : World) → InOrder p w → InOrder p (run cs w)
unfolding run
run-InOrder p [] w h = h
run-InOrder p (c ∷ cs) w h = run-InOrder p cs (step c w) (step-InOrder p w h c)
