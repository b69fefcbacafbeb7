-- ===== src/Vpn/Connections.antt =====
-- The scripts that OpenVPN calls: vpn/on-connect.py, on-disconnect.py, on-cloud-connect.py,
-- on-cloud-disconnect.py and on-cloud-down.py. Each updates the row of one team. The ids on their
-- command lines are numbers here; the calls of a script with an id of 0 create no team.
pub mod Sessions
use saarctf_gameserver.Prelude.{
  ℕ, ◌≡◌, Bool, true, false, not, ◌&&◌, ◌||◌, ◌==◌, Option, none, some, if◌then◌else◌, List, [],
  ◌∷◌, ◌++◌, ℤ, pos, succ, pred,
}

-- the columns of a team that the scripts use
pub record Team : Type 0 where
  pub id : ℕ
  pub vpn_connected : Bool
  pub vpn2_connected : Bool
  pub vpn_connection_count : ℤ
  pub vpn_last_connect : Option ℕ
  pub vpn_last_disconnect : Option ℕ

abbrev pub new_team : ℕ → Team
new_team i = record {
  id = i;
  vpn_connected = false;
  vpn2_connected = false;
  vpn_connection_count = pos 0;
  vpn_last_connect = none;
  vpn_last_disconnect = none;
}

unfoldable pub has_team : List Team → ℕ → Bool
has_team [] i = false
has_team (t ∷ ts) i = t.id == i || has_team ts i

-- `Team.query.filter(Team.id == team_id).update(...)`
unfoldable pub update : ℕ → (Team → Team) → List Team → List Team
update i f [] = []
update i f (t ∷ ts) = (if t.id == i then f t else t) ∷ update i f ts

-- The row is updated, or created if there is none.
unfoldable pub update_or_create : ℕ → (Team → Team) → List Team → List Team
update_or_create i f ts =
    if has_team ts i then update i f ts else if i == 0 then ts else ts ++ (f (new_team i) ∷ [])

abbrev pub connected : (is_vpn_2 : Bool) → ℕ → Team → Team
connected true now t = record t { vpn2_connected = true; vpn_last_connect = some now }
connected false now t = record t { vpn_connected = true; vpn_last_connect = some now }

-- the second filter of `on-disconnect.py`: the team is connected
abbrev pub disconnected : (is_vpn_2 : Bool) → ℕ → Team → Team
disconnected true now t =
    if t.vpn2_connected
    then record t { vpn2_connected = false; vpn_last_disconnect = some now }
    else t
disconnected false now t =
    if t.vpn_connected
    then record t { vpn_connected = false; vpn_last_disconnect = some now }
    else t

unfoldable pub on_connect : Bool → ℕ → ℕ → List Team → List Team
on_connect is_vpn_2 now i ts = update_or_create i (connected is_vpn_2 now) ts

unfoldable pub on_disconnect : Bool → ℕ → ℕ → List Team → List Team
on_disconnect is_vpn_2 now i ts = update i (disconnected is_vpn_2 now) ts

abbrev pub count_up : Team → Team
count_up t = record t { vpn_connection_count = succ t.vpn_connection_count }

abbrev pub count_down : Team → Team
count_down t = record t { vpn_connection_count = pred t.vpn_connection_count }

abbrev pub no_count : Team → Team
no_count t = record t { vpn_connection_count = pos 0 }

unfoldable pub on_cloud_connect : ℕ → List Team → List Team
on_cloud_connect i ts = update_or_create i count_up ts

unfoldable pub on_cloud_disconnect : ℕ → List Team → List Team
on_cloud_disconnect i ts = update i count_down ts

unfoldable pub on_cloud_down : ℕ → List Team → List Team
on_cloud_down i ts = update i no_count ts

-- the calls of the scripts
pub data Call : Type 0 where
  connect disconnect : (is_vpn_2 : Bool) (now i : ℕ) → Call
  cloud_connect cloud_disconnect cloud_down : (i : ℕ) → Call

unfoldable pub call : Call → List Team → List Team
call (connect v now i) ts = on_connect v now i ts
call (disconnect v now i) ts = on_disconnect v now i ts
call (cloud_connect i) ts = on_cloud_connect i ts
call (cloud_disconnect i) ts = on_cloud_disconnect i ts
call (cloud_down i) ts = on_cloud_down i ts

unfoldable pub calls : List Call → List Team → List Team
calls [] ts = ts
calls (c ∷ cs) ts = calls cs (call c ts)
