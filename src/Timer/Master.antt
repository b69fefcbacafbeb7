-- ===== src/Timer/Master.antt =====
-- controlserver/timer.py: `CTFTimer`, the clock that counts. Each method takes the state of the
-- world to the next one: the attributes of the timer, the keys in Redis, and what was sent. The
-- listeners are outside of the timer: a call of them is recorded as an event. `check_time` reads
-- the time twice, and so do the models (`t` is the first reading, `now` the one of `start_ctf`).
use saarctf_gameserver.Prelude.{
  ℕ, ◌+◌, Option, none, some, Bool, true, false, not, ◌&&◌, ◌==◌, ltb, leb, is_set, if◌then◌else◌,
  List, ◌∷◌,
}
use saarctf_gameserver.Timer.State.{
  stopped, suspended, running, is_running, is_stopped, is_suspended, CtfTimer,
}
use saarctf_gameserver.Timer.Redis.{Channel, Wire, Message, to_wire, Store, store}

-- The methods of `CTFEvents`, with the tick number where they take one.
pub data Event : Type 0 where
  tick_starts tick_ends : ℕ → Event
  ctf_starts ctf_suspends ctf_ends times_update vulnbox_access_opens : Event

pub data Effect : Type 0 where
  published : Message → Effect
  notified : Event → Effect
  -- the three keys `round:<tick>:*`
  tick_times : (tick : ℕ) (start end : Option ℕ) (time : ℕ) → Effect

pub record World : Type 0 where
  pub timer : CtfTimer
  pub redis : Store
  -- the newest first
  pub effects : List Effect

-- `redis_set_and_publish`
abbrev pub publish : Channel → Wire → World → World
publish c v w = record w { redis = store (c, v) w.redis; effects = published (c, v) ∷ w.effects }

abbrev pub notify : Event → World → World
notify e w = record w { effects = notified e ∷ w.effects }

unfoldable pub update_tick_times : World → World
update_tick_times w =
    if is_running w.timer.state
    then record w {
      effects =
          tick_times w.timer.current_tick w.timer.tick_start w.timer.tick_end w.timer.tick_time
          ∷ w.effects;
    }
    else w

unfoldable pub publish_all : World → World
publish_all w =
    let t = w.timer in
    let w1 = publish Channel.state (Wire.name t.state) w in
    let w2 = publish Channel.desired_state (Wire.name t.desired_state) w1 in
    let w3 = publish Channel.current_round (Wire.num t.current_tick) w2 in
    let w4 = publish Channel.round_start (to_wire t.tick_start) w3 in
    let w5 = publish Channel.round_end (to_wire t.tick_end) w4 in
    let w6 = publish Channel.round_time (Wire.num t.tick_time) w5 in
    let w7 = publish Channel.stop_after_round (to_wire t.stop_after_tick) w6 in
    let w8 = publish Channel.start_at (to_wire t.start_at) w7 in
    publish Channel.open_vulnbox_access_at (to_wire t.open_vulnbox_access_at) w8

unfoldable pub on_update_times : World → World
on_update_times w = notify times_update (update_tick_times (publish_all w))

abbrev stops_after : Option ℕ → ℕ → Bool
stops_after none tick = false
stops_after (some n) tick = is_set (some n) && n == tick

unfoldable pub on_start_tick : ℕ → World → World
on_start_tick tick w = notify (tick_starts tick) (
    if stops_after w.timer.stop_after_tick tick
    then record w { timer = record w.timer { desired_state = stopped; stop_after_tick = none } }
    else w)

unfoldable pub on_start_ctf : World → World
on_start_ctf w = notify ctf_starts (update_tick_times w)

unfoldable pub on_end_ctf : World → World
on_end_ctf w = notify ctf_ends (update_tick_times w)

unfoldable pub on_open_vulnbox_access : World → World
on_open_vulnbox_access w = notify vulnbox_access_opens (update_tick_times w)

-- the part of `start_ctf` that is run unless the game is running
unfoldable pub begin : ℕ → World → World
begin now w =
    let t = w.timer in
    let w1 = record w {
      timer = record t {
        current_tick = t.current_tick + 1;
        tick_start = some now;
        tick_end = some (now + t.tick_time);
        state = running;
      };
    } in
    on_start_tick (t.current_tick + 1) (if is_stopped t.state then on_start_ctf w1 else w1)

unfoldable pub start_ctf : ℕ → World → World
start_ctf now w =
    let w1 = record w { timer = record w.timer { desired_state = running } } in
    if is_running w.timer.state then w1 else on_update_times (begin now w1)

unfoldable pub suspend_ctf_after_tick : World → World
suspend_ctf_after_tick w =
    on_update_times (record w { timer = record w.timer { desired_state = suspended } })

unfoldable pub stop_ctf_after_tick : World → World
stop_ctf_after_tick w =
    on_update_times (record w { timer = record w.timer { desired_state = stopped } })

-- The start of a tick that follows one which was due to end at `end`: without a gap, unless the
-- clock is more than a second late.
abbrev pub next_start : ℕ → ℕ → ℕ
next_start t end = if ltb (end + 1) t then t else end

unfoldable pub next_tick : ℕ → ℕ → World → World
next_tick t end w =
    let s = next_start t end in
    let n = w.timer.current_tick + 1 in
    on_start_tick n (record w {
      timer = record w.timer {
        current_tick = n;
        tick_start = some s;
        tick_end = some (s + w.timer.tick_time);
      };
    })

unfoldable pub halt : World → World
halt w =
    let w1 = record w { timer = record w.timer { state = w.timer.desired_state } } in
    if is_suspended w.timer.desired_state then notify ctf_suspends w1 else on_end_ctf w1

-- the first branch of `check_time`
unfoldable pub end_tick_at : ℕ → ℕ → World → World
end_tick_at t end w =
    let w1 = notify (tick_ends w.timer.current_tick) w in
    on_update_times (if is_running w.timer.desired_state then next_tick t end w1 else halt w1)

-- `self._tick_end and t >= self._tick_end`
abbrev pub is_due : ℕ → Option ℕ → Bool
is_due t none = false
is_due t (some end) = is_set (some end) && leb end t

-- `x and x <= t <= x + 4`
abbrev pub in_window : ℕ → Option ℕ → Bool
in_window t none = false
in_window t (some at) = is_set (some at) && (leb at t && leb t (at + 4))

abbrev pub or_zero : Option ℕ → ℕ
or_zero none = 0
or_zero (some n) = n

unfoldable pub check_time : ℕ → ℕ → World → World
check_time t now w =
    let c = w.timer in
    if is_running c.state && is_due t c.tick_end
    then end_tick_at t (or_zero c.tick_end) w
    else if not (is_running c.state) && is_running c.desired_state
    then start_ctf now w
    else if not (is_running c.state) && in_window t c.start_at
    then start_ctf now (record w { timer = record c { start_at = none } })
    else if not (is_running c.state) && in_window t c.open_vulnbox_access_at
    then on_update_times
        (on_open_vulnbox_access (record w { timer = record c { open_vulnbox_access_at = none } }))
    else w

-- `==` of two `int | None`
abbrev pub same : Option ℕ → Option ℕ → Bool
same none none = true
same none (some n) = false
same (some m) none = false
same (some m) (some n) = m == n

abbrev pub end_of : Option ℕ → ℕ → Option ℕ → Option ℕ
end_of none time old = old
end_of (some start) time old = if is_set (some start) then some (start + time) else old

-- the setters of the properties
unfoldable pub set_tick_time : ℕ → World → World
set_tick_time time w =
    if w.timer.tick_time == time
    then w
    else on_update_times (record w {
      timer = record w.timer {
        tick_time = time;
        tick_end = end_of w.timer.tick_start time w.timer.tick_end;
      };
    })

unfoldable pub set_stop_after_tick : Option ℕ → World → World
set_stop_after_tick last w =
    if same w.timer.stop_after_tick last
    then w
    else on_update_times (record w { timer = record w.timer { stop_after_tick = last } })

unfoldable pub set_start_at : Option ℕ → World → World
set_start_at at w =
    if same w.timer.start_at at
    then w
    else on_update_times (record w { timer = record w.timer { start_at = at } })

unfoldable pub set_open_vulnbox_access_at : Option ℕ → World → World
set_open_vulnbox_access_at at w =
    if same w.timer.open_vulnbox_access_at at
    then w
    else on_update_times (record w { timer = record w.timer { open_vulnbox_access_at = at } })
