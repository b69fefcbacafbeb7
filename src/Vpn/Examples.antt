-- ===== src/Vpn/Examples.antt =====
-- The theorems on the network (vpn, controlserver/vpncontrol.py) at concrete inputs, with lists of
-- rules for iptables and a function for systemd.
use saarctf_gameserver.Prelude.{
  ◌≡◌, refl, Bool, true, false, not, ◌&&◌, ◌||◌, ◌==◌, Option, none, some, if◌then◌else◌, List, [],
  ◌∷◌, ◌++◌, arith,
}
use saarctf_gameserver.Vpn.Network.{
  contains, Redis, get_state, ends_in, unban_for_tick, Call, ban_until, lift_ban, open_team,
  new_tick, end_ctf, calls, on,
}
use saarctf_gameserver.Vpn.Network.Bans.{unban_for_tick-banned}
use saarctf_gameserver.Vpn.Firewall.{
  Rule, ban_in, has_rule, remove_first, Iptables, IsDocumented, handle_all, start,
}
use saarctf_gameserver.Vpn.Firewall.Chain.{has}
use saarctf_gameserver.Vpn.Firewall.Exact.{is_wanted}
use saarctf_gameserver.Vpn.Firewall.Replica.{calls-followed}
use saarctf_gameserver.Vpn.Ctl.System
use saarctf_gameserver.Vpn.Ctl.System.{Service, Systemctl, VpnStatus, status_of}
use saarctf_gameserver.Vpn.Ctl.Check.{from_status, is_consistent, from_status-ok}
use saarctf_gameserver.Vpn.Ctl.Fix
use saarctf_gameserver.Vpn.Ctl.Fix.{World, command_fix, command_reset, active}
use saarctf_gameserver.Vpn.Ctl.Verdict.{is_repairable, command_fix-ok, command_reset-ok}
use saarctf_gameserver.Vpn.Connections
use saarctf_gameserver.Vpn.Connections.{
  new_team, Team, connect, cloud_connect, cloud_disconnect, cloud_down, disconnect,
}
use saarctf_gameserver.Vpn.Connections.Sessions.{
  Sessions, done, joins, leaves, comes_up, elsewhere, find_team, Shows, calls-Shows,
}

-- teams 1 and 2 are banned, team 1 until tick 7
abbrev redis : Redis
redis = record {
  network_state = some on;
  banned = 1 ∷ 2 ∷ [];
  banned_until = λ i. if i == 1 then some 7 else none;
  permissions = [];
  messages = [];
}

unban_for_tick-banned_example :
    contains (unban_for_tick 7 redis).banned 1
    ≡ (contains redis.banned 1 && not (ends_in 7 (redis.banned_until 1)))
unban_for_tick-banned_example = unban_for_tick-banned 7 1 redis

-- `-D` on a list of rules
abbrev delete_rule : Rule → List Rule → Option (List Rule)
delete_rule r c = if has_rule c r then some (remove_first r c) else none

abbrev lists : Iptables
lists = record {
  Chain = List Rule;
  append = λ r c. c ++ (r ∷ []);
  insert = λ r c. r ∷ c;
  delete = delete_rule;
  check = λ r c. has_rule c r;
  flush = λ c. [];
  rules = λ c. c;
}

lists-IsDocumented : IsDocumented lists
lists-IsDocumented = record {
  append_lem = λ r c. refl;
  insert_lem = λ r c. refl;
  check_lem = λ r c. refl;
  flush_lem = λ c. refl;
  delete_none = λ r c h. ground (arith, h);
  delete_some = λ r c c' h. ground (arith, h);
}

abbrev session : List Call
session = ban_until 3 (some 8) ∷ open_team 4 ∷ new_tick 7 ∷ end_ctf ∷ lift_ban 2 ∷ new_tick 8 ∷ []

calls-followed_example :
    has lists lists-IsDocumented
      (handle_all lists 5 (calls session redis).messages (start lists 5 redis [])).chain
      (ban_in 2 2)
    ≡ is_wanted 5
        (get_state (calls session redis))
        (calls session redis).banned
        (calls session redis).permissions
        (ban_in 2 2)
calls-followed_example =
    calls-followed 5 lists lists-IsDocumented session redis [] refl (ban_in 2 2)

abbrev services : Systemctl
services = record {
  State = Service → Bool;
  is_active = λ s u. s u;
  start = λ us s u. System.contains us u || s u;
  stop = λ us s u. not (System.contains us u) && s u;
  active-start = λ us s u. refl;
  active-stop = λ us s u. refl;
}

-- nothing runs, and team 1 hosts itself
abbrev down : World services
down = record {
  systemd = λ u. false;
  db = λ i. record { vpn_connected = i == 1; vpn2_connected = false; vpn_connection_count = 0 };
}

abbrev status : VpnStatus
status = status_of (active services down) down.db 1

from_status-ok_example :
    ((from_status status).ok ≡ is_consistent status)
    × ((from_status status).ok ≡ true
        → ((from_status status).messages ≡ [])
          × ((from_status status).fix_start_service ≡ [])
          × ((from_status status).fix_stop_service ≡ [])
          × ((from_status status).fix_needs_reset ≡ false))
from_status-ok_example = from_status-ok status

command_fix-ok_example :
    (from_status (
      status_of
        (active services (command_fix services false (1 ∷ 2 ∷ []) down))
        (command_fix services false (1 ∷ 2 ∷ []) down).db
        1)).ok
    ≡ is_repairable (status_of (active services down) down.db 1)
command_fix-ok_example =
    command_fix-ok services down (1 ∷ 2 ∷ []) 1 (unfold Fix.contains_id in refl)

command_reset-ok_example :
    (from_status (
      status_of
        (active services (command_reset services false (1 ∷ 2 ∷ []) down))
        (command_reset services false (1 ∷ 2 ∷ []) down).db
        1)).ok
    ≡ true
command_reset-ok_example =
    command_reset-ok services down (1 ∷ 2 ∷ []) 1 (unfold Fix.contains_id in refl)

abbrev no_sessions : Sessions
no_sessions = record { players = 0; self_up = false; cloud_up = false }

-- two players of team 1 join and one leaves, while team 2 connects
abbrev session_calls : List Connections.Call
session_calls =
    cloud_connect 1
    ∷ connect false 1000 2
    ∷ cloud_connect 1
    ∷ cloud_disconnect 1
    ∷ connect true 1010 1
    ∷ []

calls-Shows_example :
    Shows
      (record { players = 1; self_up = false; cloud_up = true })
      (find_team 1 (Connections.calls session_calls (new_team 1 ∷ [])))
calls-Shows_example =
    calls-Shows 1 no_sessions (record { players = 1; self_up = false; cloud_up = true })
      session_calls (new_team 1 ∷ [])
      (joins _ _ _ (
        elsewhere _ _ _ _ refl
          (joins _ _ _ (leaves _ _ 1 _ refl (comes_up _ _ true 1010 [] (done _))))))
      (unfold find_team in (refl, (refl, refl)))
