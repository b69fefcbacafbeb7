-- ===== src/Timer/Recovery.antt =====
-- What Redis knows of the master timer of controlserver/timer.py: the keys for a timer that is
-- restarted, and the messages for a slave.
use saarctf_gameserver.Prelude.{
  ℕ, ◌<◌, ◌≡◌, ◌≢◌, Bool, false, some, List, [], ◌∷◌, if_ind, ap, ◌∙◌, if◌then◌else◌, ◌==◌, arith,
}
use saarctf_gameserver.Timer.State.{running, is_running, CtfTimer}
use saarctf_gameserver.Timer.Redis.{Message, init_from_redis, receive_all}
use saarctf_gameserver.Timer.Master
use saarctf_gameserver.Timer.Master.{
  Effect, published, notified, tick_times, World, update_tick_times, publish_all, on_update_times,
  begin, next_tick, halt, end_tick_at, notify, on_open_vulnbox_access, or_zero, same,
}
use saarctf_gameserver.Timer.System.{
  Command, check_time, start_ctf, suspend_ctf_after_tick, stop_ctf_after_tick, set_tick_time,
  set_stop_after_tick, set_start_at, set_open_vulnbox_access_at, receive_request, step,
}
use saarctf_gameserver.Timer.View.{
  Checked, tick_over, wanted, scheduled, opening, waiting, check_time-Checked, take_start,
  take_opening,
}

-- A timer that starts from these keys, whatever it was before, is the one of `w`.
pub record IsSaved (w : World) : Type 0 where
  pub restores : (t : CtfTimer) → init_from_redis t w.redis ≡ some w.timer

-- The messages among the effects, the oldest first.
pub messages : List Message → List Effect → List Message
messages later [] = later
messages later (published m ∷ es) = messages (m ∷ later) es
messages later (notified e ∷ es) = messages later es
messages later (tick_times n s e d ∷ es) = messages later es

pub on_update_times-IsSaved : (w : World) → IsSaved (on_update_times w)
unfolding on_update_times update_tick_times publish_all init_from_redis
on_update_times-IsSaved w = record { restores = λ t. ground arith }

-- If ticks have a length, then a slave that receives the messages of on_update_times has exactly
-- the attributes of the master, whatever it had before.
pub on_update_times-replicates :
    (w : World) (slave : CtfTimer)
    → 0 < w.timer.tick_time
    → receive_all (messages [] (on_update_times (record w { effects = [] })).effects) slave
      ≡ some w.timer
unfolding on_update_times update_tick_times publish_all receive_all messages
on_update_times-replicates w slave pos = ground arith

start_ctf-IsSaved :
    (now : ℕ) (w : World) → is_running w.timer.state ≡ false → IsSaved (Master.start_ctf now w)
unfolding Master.start_ctf
start_ctf-IsSaved now w rest = rw rest (on_update_times-IsSaved (begin now _))

end_tick_at-IsSaved : (t end : ℕ) (w : World) → IsSaved (end_tick_at t end w)
unfolding end_tick_at
end_tick_at-IsSaved t end w = on_update_times-IsSaved _

check_time-IsSaved : (t now : ℕ) (w : World) → IsSaved w → IsSaved (Master.check_time t now w)
check_time-IsSaved t now w h = go (check_time-Checked t now w)
  where
    go : {u : World} → Checked t now w u → IsSaved u
    go (tick_over busy due e) = rw e (end_tick_at-IsSaved t (or_zero w.timer.tick_end) w)
    go (wanted rest wish e) = rw e (start_ctf-IsSaved now w rest)
    go (scheduled rest unwished due e) = rw e (start_ctf-IsSaved now (take_start t now w) rest)
    go (opening rest due e) =
        rw e (on_update_times-IsSaved (on_open_vulnbox_access (take_opening t now w)))
    go (waiting e) = rw e h

module _ (w : World) (h : IsSaved w) where
  updated_unless-IsSaved : (b : Bool) (u : World) → IsSaved (if b then w else on_update_times u)
  updated_unless-IsSaved b u =
      if_ind IsSaved b w (on_update_times u) (λ _. h) (λ _. on_update_times-IsSaved u)

-- The commands after which the master itself writes to Redis: not a start while the game is
-- running, and not the requests of slaves, which have written themselves.
abbrev pub Publishes : Command → World → Type 0
Publishes (start_ctf now) w = is_running w.timer.state ≡ false
Publishes (receive_request r) w = ⊥
Publishes _ w = Unit

-- If a restarted timer would find all attributes of the master in Redis, it would find them after
-- any step of the master as well, except the call of start_ctf while the game is running and the
-- arrival of a request of a slave.
pub step-IsSaved : (c : Command) (w : World) → Publishes c w → IsSaved w → IsSaved (step c w)
unfolding step Master.suspend_ctf_after_tick Master.stop_ctf_after_tick Master.set_tick_time
    Master.set_stop_after_tick Master.set_start_at Master.set_open_vulnbox_access_at
step-IsSaved (check_time t now) w _ h = check_time-IsSaved t now w h
step-IsSaved (start_ctf now) w rest h = start_ctf-IsSaved now w rest
step-IsSaved suspend_ctf_after_tick w _ h = on_update_times-IsSaved _
step-IsSaved stop_ctf_after_tick w _ h = on_update_times-IsSaved _
step-IsSaved (set_tick_time n) w _ h = updated_unless-IsSaved w h (w.timer.tick_time == n) _
step-IsSaved (set_stop_after_tick o) w _ h =
    updated_unless-IsSaved w h (same w.timer.stop_after_tick o) _
step-IsSaved (set_start_at o) w _ h = updated_unless-IsSaved w h (same w.timer.start_at o) _
step-IsSaved (set_open_vulnbox_access_at o) w _ h =
    updated_unless-IsSaved w h (same w.timer.open_vulnbox_access_at o) _
step-IsSaved (receive_request r) w nothing h = absurd nothing

start_ctf_running :
    (now : ℕ) (w : World)
    → w.timer.state ≡ running
    → Master.start_ctf now w ≡ record w { timer = record w.timer { desired_state = running } }
unfolding Master.start_ctf
start_ctf_running now w busy = ground arith

-- If a tick runs, a stop or a pause was asked for, and Redis has the attributes of the master,
-- then start_ctf takes the request back in the master, but a restarted timer would still find the
-- attributes from before.
pub start_ctf_unsaved :
    (now : ℕ) (w : World)
    → w.timer.state ≡ running
    → w.timer.desired_state ≢ running
    → IsSaved w
    → ((Master.start_ctf now w).timer.desired_state ≡ running)
      × ((t : CtfTimer) → init_from_redis t (Master.start_ctf now w).redis ≡ some w.timer)
      × ¬ (IsSaved (Master.start_ctf now w))
start_ctf_unsaved now w busy halting h =
    let e = start_ctf_running now w busy in
    (
      ap (λ (u : World). u.timer.desired_state) e,
      λ t. ap (λ (u : World). init_from_redis t u.redis) e ∙ h.restores t,
      λ saved. halting (
          cc (
            h.restores w.timer,
            ap (λ (u : World). init_from_redis w.timer u.redis) e,
            ap (λ (u : World). u.timer.desired_state) e,
            saved.restores w.timer,
          )),
    )
