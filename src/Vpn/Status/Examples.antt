-- ===== src/Vpn/Status/Examples.antt =====
-- Tests of the status of the connections, and the theorems on the daemon at concrete inputs.
use saarctf_gameserver.Prelude.{◌≡◌, refl, true, false, ◌||◌, none, some, List, [], ◌∷◌}
use saarctf_gameserver.Vpn.Network.{Redis, ban_until, lift_ban, start_ctf, calls, contains}
use saarctf_gameserver.Vpn.Watch.{VpnStatusThread, new_thread, watch_redis, listen_all, sleeptime}
use saarctf_gameserver.Vpn.Watch.Following.{Follows, calls-Follows, watch_redis-keeps_bans}
use saarctf_gameserver.Vpn.Status.{
  PeerInfo, Team, Boxes, update_team_wireguard_status, reset_connection_status,
}
use saarctf_gameserver.Vpn.Status.Rows.{Shows, update_team_wireguard_status-Shows}

-- 10.32.1.2, 10.32.1.1 and 10.32.1.3
abbrev boxes : Boxes
boxes = record { vulnbox_ip = 169869570; gateway_ip = 169869569; testbox_ip = 169869571 }

abbrev infos : List PeerInfo
infos =
    record { allowed_ips = []; last_handshake_time = some 1 }
    ∷ record { allowed_ips = (169869570, 32) ∷ []; last_handshake_time = some 5000 }
    ∷ record { allowed_ips = (169869569, 32) ∷ []; last_handshake_time = some 4000 }
    ∷ []

abbrev offline : Team
offline = record {
  vpn_connected = false;
  vpn2_connected = false;
  wg_boxes_connected = false;
  wg_vulnbox_connected = false;
  vpn_connection_count = 0;
  vpn_last_connect = none;
  vpn_last_disconnect = none;
}

abbrev online : Team
online = record offline {
  wg_boxes_connected = true;
  wg_vulnbox_connected = true;
  vpn_connection_count = 1;
  vpn_last_connect = some 5000;
}

goes_online : update_team_wireguard_status 5100 true boxes (some infos) offline ≡ online
unfolding update_team_wireguard_status
goes_online = refl

goes_offline : update_team_wireguard_status 5300 true boxes (some infos) online ≡ record online {
  wg_boxes_connected = false;
  wg_vulnbox_connected = false;
  vpn_connection_count = 0;
  vpn_last_disconnect = some 5120;
}
unfolding update_team_wireguard_status
goes_offline = refl

rebooted : (reset_connection_status 6000 false online).vpn_last_disconnect ≡ some 6000
unfolding reset_connection_status
rebooted = refl

pauses : sleeptime 3 ≡ 27
unfolding sleeptime
pauses = refl

update_team_wireguard_status-Shows_example :
    Shows 5100 boxes infos offline
      (update_team_wireguard_status 5100 true boxes (some infos) offline)
update_team_wireguard_status-Shows_example =
    update_team_wireguard_status-Shows 5100 true boxes infos offline

abbrev redis : Redis
redis = record {
  network_state = none;
  banned = 3 ∷ [];
  banned_until = λ i. none;
  permissions = [];
  messages = [];
}

Follows-now :
    let (r0, t0) = watch_redis redis new_thread in
    let r' = calls (start_ctf ∷ ban_until 7 none ∷ lift_ban 3 ∷ []) r0 in
    Follows (listen_all r'.messages t0) r'
Follows-now = calls-Follows (start_ctf ∷ ban_until 7 none ∷ lift_ban 3 ∷ []) redis refl

-- A team whose ban was lifted while the connection was down.
abbrev stale : VpnStatusThread
stale = record { vulnbox_connection_available = true; banned_teams = 9 ∷ []; initialized = true }

keeps_bans_now :
    contains (watch_redis redis stale).1.banned_teams 9
    ≡ (contains redis.banned 9 || contains stale.banned_teams 9)
keeps_bans_now = watch_redis-keeps_bans redis stale 9
