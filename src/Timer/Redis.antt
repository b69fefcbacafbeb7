-- ===== src/Timer/Redis.antt =====
-- controlserver/timer.py: the keys `timing:*` of Redis, which are also the channels on which
-- their values are published. A value on the wire is the name of a state, a decimal numeral or
-- the text `None`.
use saarctf_gameserver.Prelude.{
  ℕ, zero, suc, Option, none, some, Bool, ◌==◌, if◌then◌else◌, List, [], ◌∷◌,
}
use saarctf_gameserver.Timer.State.{CtfState, CtfTimer}

pub data Channel : Type 0 where
  state desired_state current_round round_start round_end round_time : Channel
  stop_after_round start_at open_vulnbox_access_at : Channel

pub data Wire : Type 0 where
  name : CtfState → Wire
  num : ℕ → Wire
  none_text : Wire

abbrev pub Message : Type 0
Message = Channel × Wire

-- `redis_set_and_publish` writes `None` as a text of its own.
abbrev pub to_wire : Option ℕ → Wire
to_wire none = none_text
to_wire (some n) = num n

abbrev channel_index : Channel → ℕ
channel_index state = 0
channel_index desired_state = 1
channel_index current_round = 2
channel_index round_start = 3
channel_index round_end = 4
channel_index round_time = 5
channel_index stop_after_round = 6
channel_index start_at = 7
channel_index open_vulnbox_access_at = 8

abbrev pub same_channel : Channel → Channel → Bool
same_channel c d = channel_index c == channel_index d

-- The values that Redis keeps under the keys.
abbrev pub Store : Type 0
Store = Channel → Option Wire

abbrev pub store : Message → Store → Store
store (c, w) redis d = if same_channel c d then some w else redis d

-- `to_int` of a value that `redis.get` returned: a missing key and `None` are no number. A state's
-- name is no numeral, so `int` raises.
abbrev pub to_int : Option Wire → Option (Option ℕ)
to_int none = some none
to_int (some none_text) = some none
to_int (some (num n)) = some (some n)
to_int (some (name s)) = none

-- `CTFState[...]` raises on what is no name of a state.
abbrev pub to_state : Option Wire → Option CtfState
to_state none = none
to_state (some none_text) = none
to_state (some (num n)) = none
to_state (some (name s)) = some s

-- `int(data)`
abbrev pub to_number : Option Wire → Option ℕ
to_number none = none
to_number (some none_text) = none
to_number (some (num n)) = some n
to_number (some (name s)) = none

abbrev or_zero : Option ℕ → ℕ
or_zero none = 0
or_zero (some n) = n

-- `int(tick_time or self._tick_time)`: a missing key keeps the old time.
abbrev tick_time_or : ℕ → Option Wire → Option ℕ
tick_time_or old none = some old
tick_time_or old (some w) = to_number (some w)

-- `int(item["data"]) or self._tick_time`
abbrev nonzero_or : ℕ → ℕ → ℕ
nonzero_or old zero = old
nonzero_or old (suc n) = suc n

infixl 5 ◌>>=◌
abbrev pub ◌>>=◌ {ℓ κ} : {A : Type ℓ} {B : Type κ} → Option A → (A → Option B) → Option B
none >>= f = none
some a >>= f = f a

-- `CTFTimerBase.init` on the values of `init_from_redis`; `none` is an exception.
init_values : CtfTimer → Wire → Store → Option CtfTimer
init_values t state_value redis = do
  s ← to_state (some state_value)
  desired ← to_state (redis desired_state)
  tick ← to_int (redis current_round)
  start ← to_int (redis round_start)
  end ← to_int (redis round_end)
  time ← tick_time_or t.tick_time (redis round_time)
  stop ← to_int (redis stop_after_round)
  at ← to_int (redis start_at)
  open_at ← to_int (redis open_vulnbox_access_at)
  some (record {
    state = s;
    desired_state = desired;
    current_tick = or_zero tick;
    tick_start = start;
    tick_end = end;
    tick_time = time;
    stop_after_tick = stop;
    start_at = at;
    open_vulnbox_access_at = open_at;
  })

-- `init_from_redis`: with no state stored the timer stays as it is.
unfoldable pub init_from_redis : CtfTimer → Store → Option CtfTimer
unfolding init_values
init_from_redis t redis = elim (redis state) [ none ↦ some t | some w ↦ init_values t w redis ]

-- The body of `__listen_for_redis_events`; `none` is an exception, which ends the listener.
unfoldable pub receive : Message → CtfTimer → Option CtfTimer
receive (state, w) t = do s ← to_state (some w); some (record t { state = s })
receive (desired_state, w) t = do s ← to_state (some w); some (record t { desired_state = s })
receive (current_round, w) t = do n ← to_number (some w); some (record t { current_tick = n })
receive (round_start, w) t = do o ← to_int (some w); some (record t { tick_start = o })
receive (round_end, w) t = do o ← to_int (some w); some (record t { tick_end = o })
receive (round_time, w) t = do
  n ← to_number (some w)
  some (record t { tick_time = nonzero_or t.tick_time n })
receive (stop_after_round, w) t = do o ← to_int (some w); some (record t { stop_after_tick = o })
receive (start_at, w) t = do o ← to_int (some w); some (record t { start_at = o })
receive (open_vulnbox_access_at, w) t = do
  o ← to_int (some w)
  some (record t { open_vulnbox_access_at = o })

-- The messages of a subscription, in the order in which they were published.
unfoldable pub receive_all : List Message → CtfTimer → Option CtfTimer
unfolding receive
receive_all [] t = some t
receive_all (m ∷ ms) t = do u ← receive m t; receive_all ms u
