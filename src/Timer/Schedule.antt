-- ===== src/Timer/Schedule.antt =====
-- `start_at` of controlserver/timer.py and the calls of `check_time` that look at it.
use saarctf_gameserver.Prelude.{
  ℕ, ◌+◌, ◌≤◌, ◌<◌, ◌≡◌, false, ◌⊎◌, inl, inr, none, some, List, [], ◌∷◌, arith, if_ind,
}
use native.Mathlib.Decide.{dec_lt}
use saarctf_gameserver.Timer.State.{is_running, CtfTimer}
use saarctf_gameserver.Timer.Master.{
  World, on_update_times, on_open_vulnbox_access, update_tick_times, begin, on_start_tick,
  on_start_ctf, on_end_ctf, start_ctf, end_tick_at, next_tick, halt, check_time, or_zero, notify,
  tick_ends,
}
use saarctf_gameserver.Timer.View.{
  Checked, tick_over, wanted, scheduled, opening, waiting, check_time-Checked, take_start,
  take_opening,
}
use saarctf_gameserver.Timer.Phases.{timer-on_update_times}
use saarctf_gameserver.Timer.Limit.{loop}

-- The readings of the clock, from one after `last` on: each is at most five seconds after the one
-- before, up to one that is not before `at`.
abbrev pub Reaches : (at last : ℕ) → List (ℕ × ℕ) → Type 0
Reaches at last [] = ⊥
Reaches at last ((t, now) ∷ ts) = (last ≤ t) × (t ≤ last + 5) × ((at ≤ t) ⊎ Reaches at t ts)

later : {at t : ℕ} (ts : List (ℕ × ℕ)) → (at ≤ t) ⊎ Reaches at t ts → t < at → Reaches at t ts
later ts (inl le) lt = absurd (omega arith)
later ts (inr r) lt = r

begin_tick : (now : ℕ) (w : World) → (begin now w).timer.current_tick ≡ w.timer.current_tick + 1
unfolding begin on_start_tick on_start_ctf update_tick_times
begin_tick now w = ground arith

start_ctf_tick :
    (now : ℕ) (w : World)
    → is_running w.timer.state ≡ false
    → (start_ctf now w).timer.current_tick ≡ w.timer.current_tick + 1
unfolding start_ctf
start_ctf_tick now w rest = rw (rest, timer-on_update_times, begin_tick)

next_tick_tick :
    (t end : ℕ) (w : World) → (next_tick t end w).timer.current_tick ≡ w.timer.current_tick + 1
unfolding next_tick on_start_tick
next_tick_tick t end w = ground arith

halt_tick : (w : World) → (halt w).timer.current_tick ≡ w.timer.current_tick
unfolding halt on_end_ctf update_tick_times
halt_tick w = ground arith

abbrev opened : ℕ → ℕ → World → World
opened t now w = on_update_times (on_open_vulnbox_access (take_opening t now w))

opened_timer :
    (t now : ℕ) (w : World)
    → (opened t now w).timer ≡ record w.timer { open_vulnbox_access_at = none }
unfolding on_open_vulnbox_access update_tick_times
opened_timer t now w = rw timer-on_update_times (ground arith)

end_tick_at_tick :
    (t end : ℕ) (w : World) → w.timer.current_tick ≤ (end_tick_at t end w).timer.current_tick
unfolding end_tick_at
end_tick_at_tick t end w =
    let w1 = notify (tick_ends w.timer.current_tick) w in
    rw timer-on_update_times (
      if_ind (λ (u : World). w.timer.current_tick ≤ u.timer.current_tick)
        (is_running w.timer.desired_state) (next_tick t end w1) (halt w1)
        (λ _. omega (arith, next_tick_tick t end w1)) (λ _. omega (arith, halt_tick w1)))

check_time_tick :
    (t now : ℕ) (w : World) → w.timer.current_tick ≤ (check_time t now w).timer.current_tick
check_time_tick t now w = go (check_time-Checked t now w)
  where
    go : {u : World} → Checked t now w u → w.timer.current_tick ≤ u.timer.current_tick
    go (tick_over busy due e) = rw e (end_tick_at_tick t (or_zero w.timer.tick_end) w)
    go (wanted rest wish e) = rw e (omega (arith, start_ctf_tick now w rest))
    go (scheduled rest unwished due e) =
        rw e (omega (arith, start_ctf_tick now (take_start t now w) rest))
    go (opening rest due e) = rw (e, opened_timer t now w) (omega arith)
    go (waiting e) = rw e (omega arith)

loop_tick : (ts : List (ℕ × ℕ)) (w : World) → w.timer.current_tick ≤ (loop ts w).timer.current_tick
unfolding loop
loop_tick [] w = omega arith
loop_tick ((t, now) ∷ ts) w =
    omega (arith, check_time_tick t now w, loop_tick ts (check_time t now w))

-- The game does not run, nobody has asked for it, and it is scheduled for `at`.
pub record IsPending (at : ℕ) (c : CtfTimer) : Type 0 where
  pub rests : is_running c.state ≡ false
  pub unwished : is_running c.desired_state ≡ false
  pub scheduled : c.start_at ≡ some at

module _ (at : ℕ) (pos : 0 < at) where
  starts_in_window :
      (t now : ℕ) (w : World)
      → IsPending at w.timer
      → at ≤ t
      → t ≤ at + 4
      → (check_time t now w).timer.current_tick ≡ w.timer.current_tick + 1
  unfolding check_time
  starts_in_window t now w h le near =
      let e : check_time t now w ≡ start_ctf now (take_start t now w) =
        ground (arith, h.rests, h.unwished, h.scheduled) in
      rw e (start_ctf_tick now (take_start t now w) h.rests)

  waits_before :
      (t now : ℕ) (w : World)
      → IsPending at w.timer
      → t < at
      → IsPending at (check_time t now w).timer
  waits_before t now w h lt = go (check_time-Checked t now w)
    where
      go : {u : World} → Checked t now w u → IsPending at u.timer
      go (tick_over busy due e) = cc h.rests
      go (wanted rest wish e) = cc h.unwished
      go (Checked.scheduled rest unwished due e) = ground (arith, h.scheduled)
      go (opening rest due e) =
          rw (e, opened_timer t now w)
            (record { rests = h.rests; unwished = h.unwished; scheduled = h.scheduled })
      go (waiting e) = rw e h

  -- If the game does not run, nobody has asked for it and it is scheduled, and check_time is
  -- called before the scheduled time and then at readings that are at most five seconds apart up
  -- to one that is not before it, then a tick starts during these calls.
  pub scheduled_start :
      (last : ℕ) (ts : List (ℕ × ℕ)) (w : World)
      → IsPending at w.timer
      → last < at
      → Reaches at last ts
      → w.timer.current_tick < (loop ts w).timer.current_tick
  unfolding loop
  scheduled_start last [] w h lt r = absurd r
  scheduled_start last ((t, now) ∷ ts) w h lt r =
      let w1 = check_time t now w in
      elim (dec_lt t at) [
        | yes early ↦ omega (
          arith,
          check_time_tick t now w,
          scheduled_start t ts w1 (waits_before t now w h early) early (later ts r.2 early),
        )
        | no late ↦ omega (
          arith,
          starts_in_window t now w h (omega arith) (omega (arith, r.0, r.1)),
          loop_tick ts w1,
        )
      ]
