-- ===== src/Vpn/Network.antt =====
-- controlserver/vpncontrol.py: `VPNControl`, the wanted state of the network in Redis and the
-- messages to the VPN servers; and `VPNCTFEvents` of controlserver/events_impl.py. Logging and the
-- delay after a change are left out. Sets are lists, and the numbers in them stand for the texts.
pub mod Bans
use saarctf_gameserver.Prelude.{
  ℕ, zero, suc, ◌≡◌, Bool, true, false, not, ◌&&◌, ◌||◌, ◌==◌, Option, none, some, if◌then◌else◌,
  List, [], ◌∷◌, ◌++◌,
}

pub data VpnStatus : Type 0 where
  off on teams_only teams_only_no_vulnbox : VpnStatus

abbrev pub is_on : VpnStatus → Bool
is_on on = true
is_on _ = false

pub data Message : Type 0 where
  state : VpnStatus → Message
  ban unban add_permission remove_permission : ℕ → Message

unfoldable pub contains : List ℕ → ℕ → Bool
contains [] i = false
contains (j ∷ js) i = j == i || contains js i

-- `SADD` and `set.add`, `SREM` and `set.discard`
unfoldable pub add : ℕ → List ℕ → List ℕ
add i ids = if contains ids i then ids else i ∷ ids

unfoldable pub discard : ℕ → List ℕ → List ℕ
discard i [] = []
discard i (j ∷ js) = if j == i then discard i js else j ∷ discard i js

-- What Redis has of the network, and the messages published, the last one first.
pub record Redis : Type 0 where
  pub network_state : Option VpnStatus
  pub banned : List ℕ
  pub banned_until : ℕ → Option ℕ
  pub permissions : List ℕ
  pub messages : List Message

-- `get_state`
unfoldable pub get_state : Redis → VpnStatus
get_state r = elim r.network_state [ none ↦ off | some s ↦ s ]

unfoldable pub set_state : VpnStatus → Redis → Redis
set_state s r = record r { network_state = some s; messages = state s ∷ r.messages }

-- an end of the ban in tick 0 is no end
abbrev pub no_zero : Option ℕ → Option ℕ
no_zero none = none
no_zero (some zero) = none
no_zero (some (suc n)) = some (suc n)

abbrev pub set_until : ℕ → Option ℕ → (ℕ → Option ℕ) → ℕ → Option ℕ
set_until i u f j = if i == j then u else f j

unfoldable pub ban_team : ℕ → Option ℕ → Redis → Redis
ban_team i until r = if i == 0 then r else record r {
  banned = add i r.banned;
  banned_until = set_until i (no_zero until) r.banned_until;
  messages = ban i ∷ r.messages;
}

unfoldable pub unban_team : ℕ → Redis → Redis
unban_team i r = record r {
  banned = discard i r.banned;
  banned_until = set_until i none r.banned_until;
  messages = unban i ∷ r.messages;
}

-- `until and int(until) == tick`
abbrev pub ends_in : ℕ → Option ℕ → Bool
ends_in tick none = false
ends_in tick (some t) = t == tick

-- `unban_for_tick`: the loop over the banned teams
unfoldable pub unban_all : ℕ → List ℕ → Redis → Redis
unban_all tick [] r = r
unban_all tick (i ∷ ids) r =
    unban_all tick ids (if ends_in tick (r.banned_until i) then unban_team i r else r)

unfoldable pub unban_for_tick : ℕ → Redis → Redis
unban_for_tick tick r = unban_all tick r.banned r

unfoldable pub add_permission_team : ℕ → Redis → Redis
add_permission_team i r =
    if i == 0
    then r
    else record r { permissions = add i r.permissions; messages = add_permission i ∷ r.messages }

unfoldable pub remove_permission_team : ℕ → Redis → Redis
remove_permission_team i r = record r {
  permissions = discard i r.permissions;
  messages = remove_permission i ∷ r.messages;
}

-- `VPNCTFEvents`
unfoldable pub on_start_tick : ℕ → Redis → Redis
on_start_tick tick r = unban_for_tick tick r

unfoldable pub on_start_ctf : Redis → Redis
on_start_ctf r = set_state on r

unfoldable pub on_end_ctf : Redis → Redis
on_end_ctf r = if is_on (get_state r) then set_state teams_only r else r

unfoldable pub on_open_vulnbox_access : Redis → Redis
on_open_vulnbox_access r = if is_on (get_state r) then r else set_state teams_only r

-- the calls of the control server
pub data Call : Type 0 where
  set : VpnStatus → Call
  ban_until : ℕ → Option ℕ → Call
  lift_ban open_team close_team new_tick : ℕ → Call
  start_ctf end_ctf open_vulnbox_access : Call

unfoldable pub call : Call → Redis → Redis
call (set s) r = set_state s r
call (ban_until i t) r = ban_team i t r
call (lift_ban i) r = unban_team i r
call (open_team i) r = add_permission_team i r
call (close_team i) r = remove_permission_team i r
call (new_tick t) r = on_start_tick t r
call start_ctf r = on_start_ctf r
call end_ctf r = on_end_ctf r
call open_vulnbox_access r = on_open_vulnbox_access r

unfoldable pub calls : List Call → Redis → Redis
calls [] r = r
calls (c ∷ cs) r = calls cs (call c r)
