-- ===== src/Vpn/Ctl/Check.antt =====
-- vpn/vpnctl.py: `VpnStatusCheck.from_status`, which judges the status of a team and says what
-- would repair it.
use saarctf_gameserver.Prelude.{
  ℕ, ◌≡◌, Bool, true, false, not, ◌&&◌, ltb, Option, none, some, if◌then◌else◌, List, [], ◌∷◌, ◌++◌,
  arith,
}
use saarctf_gameserver.Vpn.Ctl.System.{
  Service, vpn_selfhosted, vpn_cloudhosted, vpn_cloud_players, VpnStatus,
}

pub data Mode : Type 0 where
  self cloud : Mode

-- the texts of the errors
pub data Message : Type 0 where
  both_connected self_active_with_cloud cloud_connected_inactive players_inactive : Message
  self_with_player_connections self_connected_inactive cloud_inactive : Message
  players_active_with_self self_inactive : Message

pub record VpnStatusCheck : Type 0 where
  pub team_id : ℕ
  pub ok : Bool
  pub messages : List Message
  pub mode : Option Mode
  pub fix_start_service : List Service
  pub fix_stop_service : List Service
  pub fix_needs_reset : Bool

unfoldable pub add_error : Message → VpnStatusCheck → VpnStatusCheck
add_error m c = record c { ok = false; messages = c.messages ++ m ∷ [] }

unfoldable pub append_start : Service → VpnStatusCheck → VpnStatusCheck
append_start u c = record c { fix_start_service = c.fix_start_service ++ u ∷ [] }

unfoldable pub append_stop : Service → VpnStatusCheck → VpnStatusCheck
append_stop u c = record c { fix_stop_service = c.fix_stop_service ++ u ∷ [] }

unfoldable pub needs_reset : VpnStatusCheck → VpnStatusCheck
needs_reset c = record c { fix_needs_reset = true }

abbrev fresh : ℕ → Option Mode → VpnStatusCheck
fresh i mode = record {
  team_id = i;
  ok = true;
  messages = [];
  mode = mode;
  fix_start_service = [];
  fix_stop_service = [];
  fix_needs_reset = false;
}

-- the three branches of `from_status`
unfoldable pub check_cloud : VpnStatus → VpnStatusCheck
unfolding add_error append_start append_stop needs_reset
check_cloud s =
    let i = s.team_id in
    let c0 = fresh i (some cloud) in
    let c1 = if s.self_connected then needs_reset (add_error both_connected c0) else c0 in
    let c2 =
      if s.self_active
      then append_stop (vpn_selfhosted i) (add_error self_active_with_cloud c1)
      else c1 in
    let c3 =
      if not s.cloud_active
      then append_start (vpn_cloud_players i) (add_error cloud_connected_inactive c2)
      else c2 in
    if not s.cloud_players_active
    then append_start (vpn_cloud_players i) (add_error players_inactive c3)
    else c3

unfoldable pub check_self : VpnStatus → VpnStatusCheck
unfolding add_error append_start append_stop needs_reset
check_self s =
    let i = s.team_id in
    let c0 = fresh i (some self) in
    let c1 =
      if ltb 0 s.cloud_player_conns
      then (let e = add_error self_with_player_connections c0 in
          if s.cloud_players_active then append_stop (vpn_cloud_players i) e else needs_reset e)
      else c0 in
    let c2 = if not s.self_active then needs_reset (add_error self_connected_inactive c1) else c1 in
    let c3 =
      if not s.cloud_active
      then append_start (vpn_cloudhosted i) (add_error cloud_inactive c2)
      else c2 in
    if s.cloud_players_active
    then append_stop (vpn_cloud_players i) (add_error players_active_with_self c3)
    else c3

unfoldable pub check_off : VpnStatus → VpnStatusCheck
unfolding add_error append_start append_stop needs_reset
check_off s =
    let i = s.team_id in
    let c0 = fresh i none in
    let c1 =
      if not s.self_active
      then append_start (vpn_selfhosted i) (add_error self_inactive c0)
      else c0 in
    let c2 =
      if not s.cloud_active
      then append_start (vpn_cloudhosted i) (add_error cloud_inactive c1)
      else c1 in
    if not s.cloud_players_active
    then append_start (vpn_cloud_players i) (add_error players_inactive c2)
    else c2

unfoldable pub from_status : VpnStatus → VpnStatusCheck
unfolding check_cloud check_self check_off
from_status s =
    if s.cloud_connected
    then check_cloud s
    else if s.self_connected
    then check_self s
    else check_off s

-- The servers that shall run: for a team with its vulnbox in the cloud those of the cloud, for one
-- that hosts itself its own and the one of the cloud box, for one not yet connected all.
abbrev pub is_consistent : VpnStatus → Bool
is_consistent s =
    if s.cloud_connected
    then not s.self_connected && (not s.self_active && (s.cloud_active && s.cloud_players_active))
    else if s.self_connected
    then not (ltb 0 s.cloud_player_conns)
      && (s.self_active && (s.cloud_active && not s.cloud_players_active))
    else s.self_active && (s.cloud_active && s.cloud_players_active)

-- The check of a team accepts its status if and only if the servers that run are those for its
-- connections: for a vulnbox in the cloud the two of the cloud, for one that is hosted by the team
-- its own and the one of the cloud box without players in the cloud, and for a team that is not
-- connected all three. A status that is accepted has no message, no service to start or stop, and
-- no reset.
pub from_status-ok :
    (s : VpnStatus)
    → ((from_status s).ok ≡ is_consistent s)
      × ((from_status s).ok ≡ true
          → ((from_status s).messages ≡ [])
            × ((from_status s).fix_start_service ≡ [])
            × ((from_status s).fix_stop_service ≡ [])
            × ((from_status s).fix_needs_reset ≡ false))
unfolding from_status
from_status-ok s = (ground arith, λ h. (ground arith, ground arith, ground arith, ground arith))
