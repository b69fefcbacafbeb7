-- ===== src/Vpn/Ctl/System.antt =====
-- vpn/vpnctl.py: `SystemCtlUtils` and `VpnStatusFactory`. systemd is not part of the program: what
-- `systemctl` does is a parameter with its documented effect on the units. A unit that is neither
-- active nor inactive, such as a failed one, ends the program with an exception before it changes
-- anything; this is left out.
use saarctf_gameserver.Prelude.{ℕ, ◌≡◌, Bool, false, not, ◌&&◌, ◌||◌, ◌==◌, List, [], ◌∷◌, map}

-- The names `vpn@team<id>`, `vpn@team<id>-vulnbox` and `vpn2@team<id>-cloud`.
pub data Service : Type 0 where
  vpn_selfhosted vpn_cloudhosted vpn_cloud_players : (team_id : ℕ) → Service

abbrev pub same_service : Service → Service → Bool
same_service (vpn_selfhosted i) (vpn_selfhosted j) = i == j
same_service (vpn_cloudhosted i) (vpn_cloudhosted j) = i == j
same_service (vpn_cloud_players i) (vpn_cloud_players j) = i == j
same_service (vpn_selfhosted i) _ = false
same_service (vpn_cloudhosted i) _ = false
same_service (vpn_cloud_players i) _ = false

unfoldable pub contains : List Service → Service → Bool
contains [] u = false
contains (v ∷ vs) u = same_service v u || contains vs u

-- `systemctl is-active`, `start` and `stop`
pub record Systemctl : Type 1 where
  pub State : Type 0
  pub is_active : State → Service → Bool
  pub start : List Service → State → State
  pub stop : List Service → State → State
  pub active-start :
      (us : List Service) (s : State) (u : Service)
      → is_active (start us s) u ≡ (contains us u || is_active s u)
  pub active-stop :
      (us : List Service) (s : State) (u : Service)
      → is_active (stop us s) u ≡ (not (contains us u) && is_active s u)

-- The columns of a team that concern its VPN (controlserver/models.py).
pub record Team : Type 0 where
  pub vpn_connected : Bool
  pub vpn2_connected : Bool
  pub vpn_connection_count : ℕ

-- The teams in the database, by their ids.
abbrev pub Db : Type 0
Db = ℕ → Team

pub record VpnStatus : Type 0 where
  pub team_id : ℕ
  pub self_connected : Bool
  pub cloud_connected : Bool
  pub cloud_player_conns : ℕ
  pub self_active : Bool
  pub cloud_active : Bool
  pub cloud_players_active : Bool

-- One entry of `from_teams`, from the answers of `is_active`.
unfoldable pub status_of : (Service → Bool) → Db → ℕ → VpnStatus
status_of active db i = record {
  team_id = i;
  self_connected = (db i).vpn_connected;
  cloud_connected = (db i).vpn2_connected;
  cloud_player_conns = (db i).vpn_connection_count;
  self_active = active (vpn_selfhosted i);
  cloud_active = active (vpn_cloudhosted i);
  cloud_players_active = active (vpn_cloud_players i);
}

unfoldable pub from_teams : (Service → Bool) → Db → List ℕ → List VpnStatus
from_teams active db ids = map (status_of active db) ids

-- One entry of `for_future_teams`: a team that is not yet in the database.
unfoldable pub future_status : (Service → Bool) → ℕ → VpnStatus
future_status active i = record {
  team_id = i;
  self_connected = false;
  cloud_connected = false;
  cloud_player_conns = 0;
  self_active = active (vpn_selfhosted i);
  cloud_active = active (vpn_cloudhosted i);
  cloud_players_active = active (vpn_cloud_players i);
}
