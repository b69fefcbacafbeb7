-- ===== src/Vpn/Watch.antt =====
-- vpnboard/vpn_status_daemon.py: `VpnStatusThread`, which follows the state of the network and the
-- bans in Redis, and the pause of `run_loop`. A connection starts by reading Redis; the messages
-- that are published between that and the subscription are left out.
pub mod Following
use saarctf_gameserver.Prelude.{
  ℕ, zero, suc, ◌+◌, ◌-◌, ◌≡◌, Bool, true, false, Option, none, some, leb, if◌then◌else◌, List, [],
  ◌∷◌, max, min,
}
use saarctf_gameserver.Vpn.Network.{
  VpnStatus, off, on, teams_only, teams_only_no_vulnbox, Message, state, ban, unban, add_permission,
  remove_permission, Redis, add, discard,
}

pub record VpnStatusThread : Type 0 where
  pub vulnbox_connection_available : Bool
  pub banned_teams : List ℕ
  pub initialized : Bool

abbrev pub new_thread : VpnStatusThread
new_thread = record { vulnbox_connection_available = false; banned_teams = []; initialized = false }

-- `state == 'on' or state == 'team'`
unfoldable pub is_available : VpnStatus → Bool
is_available on = true
is_available teams_only = true
is_available off = false
is_available teams_only_no_vulnbox = false

unfoldable pub add_all : List ℕ → List ℕ → List ℕ
add_all [] ids = ids
add_all (i ∷ is) ids = add_all is (add i ids)

-- The state in Redis when it has none: it is set to off.
unfoldable pub read_state : Redis → Option VpnStatus → Redis × Bool
unfolding is_available
read_state r none = (record r { network_state = some off }, false)
read_state r (some s) = (r, is_available s)

-- `_watch_redis`, up to the subscription
unfoldable pub watch_redis : Redis → VpnStatusThread → Redis × VpnStatusThread
unfolding read_state add_all
watch_redis r t =
    let (r', available) = read_state r r.network_state in
    (
      r',
      record {
        vulnbox_connection_available = available;
        banned_teams = add_all r.banned t.banned_teams;
        initialized = true;
      },
    )

-- `for item in pubsub.listen()`
unfoldable pub listen : Message → VpnStatusThread → VpnStatusThread
unfolding is_available
listen (state s) t = record t { vulnbox_connection_available = is_available s }
listen (ban i) t = record t { banned_teams = add i t.banned_teams }
listen (unban i) t = record t { banned_teams = discard i t.banned_teams }
listen (add_permission i) t = t
listen (remove_permission i) t = t

-- the messages, the last one first
unfoldable pub listen_all : List Message → VpnStatusThread → VpnStatusThread
unfolding listen
listen_all [] t = t
listen_all (m ∷ ms) t = listen m (listen_all ms t)

-- `run`: the messages of each connection up to its error, and what Redis had at its start. `true`
-- is a normal end, `false` the exit after 18 connections.
pub record Connection : Type 0 where
  pub redis : Redis
  pub messages : List Message
  pub fails : Bool

unfoldable pub run_from : ℕ → List Connection → VpnStatusThread → VpnStatusThread × Bool
unfolding watch_redis listen_all
run_from zero cs t = (t, false)
run_from (suc n) [] t = (t, false)
run_from (suc n) (c ∷ cs) t =
    let t' = listen_all c.messages (watch_redis c.redis t).1 in
    let rest = run_from n cs t' in if c.fails then rest else (t', true)

unfoldable pub run : List Connection → VpnStatusThread → VpnStatusThread × Bool
unfolding run_from
run cs t = run_from 18 cs t

-- `min(60, max(5, round((60 if duration >= 25 else 30) - duration)))`, for whole seconds
unfoldable pub sleeptime : ℕ → ℕ
sleeptime duration = min 60 (max 5 ((if leb 25 duration then 60 else 30) - duration))
