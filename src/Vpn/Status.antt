-- ===== src/Vpn/Status.antt =====
-- vpnboard/vpn_status_daemon.py: `update_team_wireguard_status` and the results of the pings, with
-- vpnboard/wg_status.py, and vpn/reset-connection-status.py. Times are seconds, an IPv4 address is
-- its 32-bit number, and the answers of WireGuard, the pings and the clock are arguments.
mod Rows
mod Examples
use saarctf_gameserver.Prelude.{
  ℕ, ◌+◌, ◌-◌, ◌/◌, ◌≡◌, Bool, true, false, not, ◌&&◌, ◌||◌, ◌==◌, ltb, Option, none, some,
  if◌then◌else◌, List, [], ◌∷◌, map,
}
use Prim.Native.Nat.{◌^◌}

-- A peer of an interface, as the kernel describes it: `none` is a missing attribute.
pub record PeerInfo : Type 0 where
  pub allowed_ips : List (ℕ × ℕ)
  pub last_handshake_time : Option ℕ

pub record WgPeerStatus : Type 0 where
  pub address : ℕ × ℕ
  pub connected : Bool
  pub last_handshake : Option ℕ

-- Two handshakes are missed after 245 seconds.
unfoldable pub is_recent : ℕ → ℕ → Bool
is_recent now t = ltb 0 t && ltb now (t + 245)

-- `none` is a KeyError or an IndexError.
unfoldable pub read_peer : ℕ → List (ℕ × ℕ) → Option ℕ → Option WgPeerStatus
unfolding is_recent
read_peer now [] t = none
read_peer now (a ∷ _) none = none
read_peer now (a ∷ _) (some t) = some (record {
  address = a;
  connected = is_recent now t;
  last_handshake = if ltb 0 t then some t else none;
})

unfoldable pub peer_status : ℕ → PeerInfo → Option WgPeerStatus
unfolding read_peer
peer_status now p = read_peer now p.allowed_ips p.last_handshake_time

abbrev pub cons_some {ℓ} : {A : Type ℓ} → Option A → List A → List A
cons_some none xs = xs
cons_some (some x) xs = x ∷ xs

-- `get_wireguard_status`. `none` is a ValueError: the interface has no readable status.
unfoldable pub peers_of : ℕ → List PeerInfo → List WgPeerStatus
unfolding peer_status
peers_of now [] = []
peers_of now (p ∷ ps) = cons_some (peer_status now p) (peers_of now ps)

unfoldable pub get_wireguard_status : ℕ → Option (List PeerInfo) → Option (List WgPeerStatus)
unfolding peers_of
get_wireguard_status now none = none
get_wireguard_status now (some ps) = some (peers_of now ps)

unfoldable pub connection_count : List WgPeerStatus → ℕ
connection_count [] = 0
connection_count (p ∷ ps) = (if p.connected then 1 else 0) + connection_count ps

-- `addr in IPv4Network(peer.address, strict=False)`
unfoldable pub contains_ip : ℕ × ℕ → ℕ → Bool
contains_ip (net, prefix) ip = ip / 2 ^ (32 - prefix) == net / 2 ^ (32 - prefix)

unfoldable pub get_peer_for : List WgPeerStatus → ℕ → Option WgPeerStatus
unfolding contains_ip
get_peer_for [] ip = none
get_peer_for (p ∷ ps) ip = if contains_ip p.address ip then some p else get_peer_for ps ip

-- the columns of a team
pub record Team : Type 0 where
  pub vpn_connected : Bool
  pub vpn2_connected : Bool
  pub wg_boxes_connected : Bool
  pub wg_vulnbox_connected : Bool
  pub vpn_connection_count : ℕ
  pub vpn_last_connect : Option ℕ
  pub vpn_last_disconnect : Option ℕ

-- `team_id_to_vulnbox_ip` and so on, of the team
pub record Boxes : Type 0 where
  pub vulnbox_ip : ℕ
  pub gateway_ip : ℕ
  pub testbox_ip : ℕ

-- `p is not None and p.connected`
abbrev pub is_up : Option WgPeerStatus → Bool
is_up none = false
is_up (some p) = p.connected

abbrev disconnect_time : ℕ → Option ℕ → ℕ
disconnect_time now none = now
disconnect_time now (some t) = t + 120

unfoldable pub check_vulnbox : ℕ → Option WgPeerStatus → Team → Team
check_vulnbox now (some p) t =
    if not t.wg_vulnbox_connected && p.connected
    then record t { wg_vulnbox_connected = true; vpn_last_connect = p.last_handshake }
    else (if t.wg_vulnbox_connected && not p.connected
        then record t {
          wg_vulnbox_connected = false;
          vpn_last_disconnect = some (disconnect_time now p.last_handshake);
        }
        else t)
check_vulnbox now none t =
    if t.wg_vulnbox_connected then record t { wg_vulnbox_connected = false } else t

unfoldable pub check_boxes : Bool → Team → Team
check_boxes up t = record t { wg_boxes_connected = up }

unfoldable pub check_count : ℕ → Team → Team
check_count cc t = record t { vpn_connection_count = cc }

-- The interface disappeared: only the daemon that sees all interfaces may say so.
unfoldable pub no_interface : Bool → Team → Team
no_interface complete t =
    if complete && (t.wg_boxes_connected || t.wg_vulnbox_connected)
    then record t {
      wg_boxes_connected = false;
      wg_vulnbox_connected = false;
      vpn_connection_count = 0;
    }
    else t

unfoldable pub with_status : ℕ → Bool → Boxes → Option (List WgPeerStatus) → Team → Team
unfolding get_peer_for connection_count check_vulnbox check_boxes check_count no_interface
with_status now complete b none t = no_interface complete t
with_status now complete b (some ps) t =
    let vulnbox = get_peer_for ps b.vulnbox_ip in
    let up =
      is_up vulnbox
      || is_up (get_peer_for ps b.gateway_ip)
      || is_up (get_peer_for ps b.testbox_ip) in
    check_count (connection_count ps) (check_boxes up (check_vulnbox now vulnbox t))

unfoldable pub update_team_wireguard_status :
    ℕ → Bool → Boxes → Option (List PeerInfo) → Team → Team
unfolding with_status get_wireguard_status
update_team_wireguard_status now complete b infos t =
    with_status now complete b (get_wireguard_status now infos) t

-- `VpnStatus.connected`: the teams that are pinged
unfoldable pub connected : Team → Bool
connected t = t.vpn_connected || t.vpn2_connected || t.wg_boxes_connected

-- vpn/reset-connection-status.py, for a team: `vpn_last_connect < last_boot` does not hold of NULL.
abbrev before_boot : ℕ → Option ℕ → Bool
before_boot last_boot none = false
before_boot last_boot (some t) = ltb t last_boot

unfoldable pub reset_connection_status : ℕ → (all : Bool) → Team → Team
reset_connection_status last_boot all t =
    let any =
      t.vpn_connected || t.vpn2_connected || t.wg_boxes_connected || t.wg_vulnbox_connected in
    let t1 =
      if any && before_boot last_boot t.vpn_last_connect
      then record t {
        vpn_connected = false;
        vpn2_connected = false;
        wg_boxes_connected = false;
        wg_vulnbox_connected = false;
        vpn_last_disconnect = some last_boot;
      }
      else t in
    if all then record t1 { vpn_connection_count = 0 } else t1
