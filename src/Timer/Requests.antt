-- ===== src/Timer/Requests.antt =====
-- A slave of controlserver/timer.py in place of the master: its setters and commands with their
-- messages, next to the master's own methods.
use saarctf_gameserver.Prelude.{ℕ, ◌<◌, ◌≡◌, false, Option, List, [], ◌∷◌, arith}
use saarctf_gameserver.Timer.State.{stopped, suspended, is_running, CtfTimer}
use saarctf_gameserver.Timer.Redis.{receive}
use saarctf_gameserver.Timer.Slave
use saarctf_gameserver.Timer.Slave.{Request}
use saarctf_gameserver.Timer.Master
use saarctf_gameserver.Timer.Master.{World}
use saarctf_gameserver.Timer.System.{receive_request, step}
use saarctf_gameserver.Timer.Phases.{timer-on_update_times}

pub deliver : List Request → World → World
unfolding step receive
deliver [] w = w
deliver (r ∷ rs) w = deliver rs (step (receive_request r) w)

-- The slave's copy and the master after the delivery, and the master after its own method.
pub record Agrees (call : CtfTimer × List Request) (w direct : World) : Type 0 where
  pub copy : call.0 ≡ direct.timer
  pub arrived : (deliver call.1 w).timer ≡ direct.timer

module _ (w : World) where
  set_tick_time-Agrees :
      (n : ℕ) → 0 < n → Agrees (Slave.set_tick_time n w.timer) w (Master.set_tick_time n w)
  unfolding Slave.set_tick_time Master.set_tick_time deliver Master.on_update_times
      Master.update_tick_times Master.publish_all
  set_tick_time-Agrees n pos = record { copy = ground arith; arrived = ground arith }

  set_stop_after_tick-Agrees :
      (o : Option ℕ)
      → Agrees (Slave.set_stop_after_tick o w.timer) w (Master.set_stop_after_tick o w)
  unfolding Slave.set_stop_after_tick Master.set_stop_after_tick deliver
  set_stop_after_tick-Agrees o =
      let same_timer =
        timer-on_update_times (record w { timer = record w.timer { stop_after_tick = o } }) in
      record { copy = ground (arith, same_timer); arrived = ground (arith, same_timer) }

  set_start_at-Agrees :
      (o : Option ℕ) → Agrees (Slave.set_start_at o w.timer) w (Master.set_start_at o w)
  unfolding Slave.set_start_at Master.set_start_at deliver
  set_start_at-Agrees o =
      let same_timer =
        timer-on_update_times (record w { timer = record w.timer { start_at = o } }) in
      record { copy = ground (arith, same_timer); arrived = ground (arith, same_timer) }

  set_open_vulnbox_access_at-Agrees :
      (o : Option ℕ)
      → Agrees
          (Slave.set_open_vulnbox_access_at o w.timer)
          w
          (Master.set_open_vulnbox_access_at o w)
  unfolding Slave.set_open_vulnbox_access_at Master.set_open_vulnbox_access_at deliver
  set_open_vulnbox_access_at-Agrees o =
      let same_timer =
        timer-on_update_times
          (record w { timer = record w.timer { open_vulnbox_access_at = o } }) in
      record { copy = ground (arith, same_timer); arrived = ground (arith, same_timer) }

  suspend_ctf_after_tick-Agrees :
      Agrees (Slave.suspend_ctf_after_tick w.timer) w (Master.suspend_ctf_after_tick w)
  unfolding Slave.suspend_ctf_after_tick Master.suspend_ctf_after_tick deliver
  suspend_ctf_after_tick-Agrees =
      let same_timer =
        timer-on_update_times (record w { timer = record w.timer { desired_state = suspended } }) in
      record { copy = ground (arith, same_timer); arrived = ground (arith, same_timer) }

  stop_ctf_after_tick-Agrees :
      Agrees (Slave.stop_ctf_after_tick w.timer) w (Master.stop_ctf_after_tick w)
  unfolding Slave.stop_ctf_after_tick Master.stop_ctf_after_tick deliver
  stop_ctf_after_tick-Agrees =
      let same_timer =
        timer-on_update_times (record w { timer = record w.timer { desired_state = stopped } }) in
      record { copy = ground (arith, same_timer); arrived = ground (arith, same_timer) }

-- A slave that has the attributes of the master can set the length of a tick (not to 0), the last
-- tick, the scheduled start and the opening of access to the vulnboxes, or ask to suspend or stop
-- the game: its own attributes, and those of the master once the messages have arrived, are then
-- as if the method of the master had been called.
pub slave_calls-Agree :
    (w : World) (n : ℕ) (o : Option ℕ)
    → 0 < n
    → Agrees (Slave.set_tick_time n w.timer) w (Master.set_tick_time n w)
      × Agrees (Slave.set_stop_after_tick o w.timer) w (Master.set_stop_after_tick o w)
      × Agrees (Slave.set_start_at o w.timer) w (Master.set_start_at o w)
      × Agrees
          (Slave.set_open_vulnbox_access_at o w.timer)
          w
          (Master.set_open_vulnbox_access_at o w)
      × Agrees (Slave.suspend_ctf_after_tick w.timer) w (Master.suspend_ctf_after_tick w)
      × Agrees (Slave.stop_ctf_after_tick w.timer) w (Master.stop_ctf_after_tick w)
slave_calls-Agree w n o pos = (
  set_tick_time-Agrees w n pos,
  set_stop_after_tick-Agrees w o,
  set_start_at-Agrees w o,
  set_open_vulnbox_access_at-Agrees w o,
  suspend_ctf_after_tick-Agrees w,
  stop_ctf_after_tick-Agrees w,
)

-- If the game does not run, then a start that a slave asks for happens at the next call of
-- check_time of the master, with the attributes that start_ctf of the master gives.
pub slave_start_ctf :
    (t now : ℕ) (w : World)
    → is_running w.timer.state ≡ false
    → (Master.check_time t now (deliver (Slave.start_ctf w.timer).1 w)).timer
      ≡ (Master.start_ctf now w).timer
unfolding Slave.start_ctf deliver Master.check_time Master.start_ctf
slave_start_ctf t now w rest = rw rest
