-- ===== src/Timer/System.antt =====
-- The master timer among its callers: what can happen to it, one command after the other. The
-- control panel calls its methods and setters, the main loop calls `check_time`, and the listener
-- of Redis hands it the requests of slaves.
use saarctf_gameserver.Prelude.{ℕ, Option, none, some, List, [], ◌∷◌}
use saarctf_gameserver.Timer.Redis.{receive}
use saarctf_gameserver.Timer.Slave.{Request, to_message}
use saarctf_gameserver.Timer.Master
use saarctf_gameserver.Timer.Master.{World}

pub data Command : Type 0 where
  check_time : (t now : ℕ) → Command
  start_ctf : (now : ℕ) → Command
  suspend_ctf_after_tick stop_ctf_after_tick : Command
  set_tick_time : ℕ → Command
  set_stop_after_tick set_start_at set_open_vulnbox_access_at : Option ℕ → Command
  receive_request : Request → Command

unfoldable pub step : Command → World → World
step (check_time t now) w = Master.check_time t now w
step (start_ctf now) w = Master.start_ctf now w
step suspend_ctf_after_tick w = Master.suspend_ctf_after_tick w
step stop_ctf_after_tick w = Master.stop_ctf_after_tick w
step (set_tick_time n) w = Master.set_tick_time n w
step (set_stop_after_tick o) w = Master.set_stop_after_tick o w
step (set_start_at o) w = Master.set_start_at o w
step (set_open_vulnbox_access_at o) w = Master.set_open_vulnbox_access_at o w
step (receive_request r) w = elim (receive (to_message r) w.timer) [
  | none ↦ w
  | some t ↦ record w { timer = t }
]

unfoldable pub run : List Command → World → World
run [] w = w
run (c ∷ cs) w = run cs (step c w)
