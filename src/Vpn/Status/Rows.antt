-- ===== src/Vpn/Status/Rows.antt =====
-- What the row of a team says after the daemon has looked at its interface.
use saarctf_gameserver.Prelude.{
  ℕ, ◌+◌, ◌≡◌, refl, Bool, true, false, ◌&&◌, ◌||◌, ltb, if◌then◌else◌, ap, Option, none, some,
  List, [], ◌∷◌, arith, sym, ◌∙◌, ◌⊎◌, inl, inr,
}
use saarctf_gameserver.Vpn.Status.{
  PeerInfo, WgPeerStatus, read_peer, cons_some, contains_ip, peer_status, peers_of, is_recent,
  connection_count, get_peer_for, Team, Boxes, is_up, check_vulnbox, check_boxes, check_count,
  no_interface, update_team_wireguard_status, reset_connection_status,
}

-- What the kernel says of the last handshake with an address, 0 for none: the first peer counts that
-- has an allowed range and a time, and whose first range has the address.
abbrev handshake : ℕ → List (ℕ × ℕ) → Option ℕ → ℕ → ℕ
handshake ip (range ∷ _) (some t) others = if contains_ip range ip then t else others
handshake ip (range ∷ _) none others = others
handshake ip [] t others = others

abbrev pub handshake_of : ℕ → List PeerInfo → ℕ
handshake_of ip [] = 0
handshake_of ip (p ∷ ps) = handshake ip p.allowed_ips p.last_handshake_time (handshake_of ip ps)

-- A handshake took place less than 245 seconds ago.
abbrev pub met : ℕ → ℕ → Bool
met now t = ltb 0 t && ltb now (t + 245)

abbrev met_peer : ℕ → List (ℕ × ℕ) → Option ℕ → ℕ
met_peer now (_ ∷ _) (some t) = if met now t then 1 else 0
met_peer now (_ ∷ _) none = 0
met_peer now [] t = 0

abbrev pub count_met : ℕ → List PeerInfo → ℕ
count_met now [] = 0
count_met now (p ∷ ps) = met_peer now p.allowed_ips p.last_handshake_time + count_met now ps

-- The row agrees with what the kernel says of the peers, and has the times of the changes.
pub record Shows (now : ℕ) (b : Boxes) (ps : List PeerInfo) (old new : Team) : Type 0 where
  pub vulnbox : new.wg_vulnbox_connected ≡ met now (handshake_of b.vulnbox_ip ps)
  pub boxes : new.wg_boxes_connected ≡ (
      met now (handshake_of b.vulnbox_ip ps)
      || met now (handshake_of b.gateway_ip ps)
      || met now (handshake_of b.testbox_ip ps))
  pub count : new.vpn_connection_count ≡ count_met now ps
  pub connects :
      old.wg_vulnbox_connected ≡ false
      → new.wg_vulnbox_connected ≡ true
      → new.vpn_last_connect ≡ some (handshake_of b.vulnbox_ip ps)
  pub stays :
      (old.wg_vulnbox_connected ≡ true) ⊎ (new.wg_vulnbox_connected ≡ false)
      → new.vpn_last_connect ≡ old.vpn_last_connect

abbrev last_of : Option WgPeerStatus → Option ℕ
last_of none = none
last_of (some p) = p.last_handshake

-- A peer that was found has the connection and the time that the handshake calls for.
abbrev Reads : ℕ → ℕ → Option WgPeerStatus → Type 0
Reads now t o = (is_up o ≡ met now t) × (is_up o ≡ true → last_of o ≡ some t)

read_peer-Reads :
    (now ip t : ℕ) (a : ℕ × ℕ) (as' : List (ℕ × ℕ)) (ps : List WgPeerStatus) (rest : ℕ)
    → Reads now rest (get_peer_for ps ip)
    → Reads now
        (if contains_ip a ip then t else rest)
        (get_peer_for (cons_some (read_peer now (a ∷ as') (some t)) ps) ip)
unfolding get_peer_for read_peer is_recent
read_peer-Reads now ip t a as' ps rest h = go h (contains_ip a ip)
  where
    found : WgPeerStatus
    found = record {
      address = a;
      connected = is_recent now t;
      last_handshake = if ltb 0 t then some t else none;
    }

    go :
        Reads now rest (get_peer_for ps ip)
        → (b : Bool)
        → Reads now (if b then t else rest) (if b then some found else get_peer_for ps ip)
    go h true = (refl, λ up. ground (arith, up))
    go h false = h

get_peer_for-Reads :
    (now ip : ℕ) (ps : List PeerInfo)
    → Reads now (handshake_of ip ps) (get_peer_for (peers_of now ps) ip)
unfolding get_peer_for peers_of peer_status read_peer
get_peer_for-Reads now ip [] = (refl, λ up. absurd (ground (arith, up)))
get_peer_for-Reads now ip (p ∷ ps) =
    cons-Reads p.allowed_ips p.last_handshake_time (get_peer_for-Reads now ip ps)
  where
    cons-Reads :
        (ranges : List (ℕ × ℕ)) (t : Option ℕ)
        → Reads now (handshake_of ip ps) (get_peer_for (peers_of now ps) ip)
        → Reads now
            (handshake ip ranges t (handshake_of ip ps))
            (get_peer_for (cons_some (read_peer now ranges t) (peers_of now ps)) ip)
    cons-Reads [] t h = h
    cons-Reads (a ∷ as') none h = h
    cons-Reads (a ∷ as') (some t) h = read_peer-Reads now ip t a as' (peers_of now ps) _ h

connection_count-count_met :
    (now : ℕ) (ps : List PeerInfo) → connection_count (peers_of now ps) ≡ count_met now ps
unfolding connection_count peers_of peer_status read_peer is_recent
connection_count-count_met now [] = refl
connection_count-count_met now (p ∷ ps) =
    cons-count p.allowed_ips p.last_handshake_time (connection_count-count_met now ps)
  where
    cons-count :
        (ranges : List (ℕ × ℕ)) (t : Option ℕ)
        → connection_count (peers_of now ps) ≡ count_met now ps
        → connection_count (cons_some (read_peer now ranges t) (peers_of now ps))
          ≡ met_peer now ranges t + count_met now ps
    cons-count [] t h = omega (arith, h)
    cons-count (a ∷ as') none h = omega (arith, h)
    cons-count (a ∷ as') (some t) h = ap (λ n. (if met now t then 1 else 0) + n) h

-- The column of the vulnbox follows its peer.
check_vulnbox-follows :
    (now : ℕ) (o : Option WgPeerStatus) (t : Team)
    → (check_vulnbox now o t).wg_vulnbox_connected ≡ is_up o
unfolding check_vulnbox
check_vulnbox-follows now none t = ground arith
check_vulnbox-follows now (some p) t = ground arith

check_vulnbox-connects :
    (now : ℕ) (o : Option WgPeerStatus) (t : Team)
    → t.wg_vulnbox_connected ≡ false
    → is_up o ≡ true
    → (check_vulnbox now o t).vpn_last_connect ≡ last_of o
unfolding check_vulnbox
check_vulnbox-connects now none t e up = absurd (ground arith)
check_vulnbox-connects now (some p) t e up = ground arith

check_vulnbox-stays :
    (now : ℕ) (o : Option WgPeerStatus) (t : Team)
    → (t.wg_vulnbox_connected ≡ true) ⊎ (is_up o ≡ false)
    → (check_vulnbox now o t).vpn_last_connect ≡ t.vpn_last_connect
unfolding check_vulnbox
check_vulnbox-stays now none t h = ground arith
check_vulnbox-stays now (some p) t h = ground arith

-- When the interface of a team can be read, the row of the team afterwards agrees with the
-- handshakes in the kernel's answer, where a peer counts if it has an allowed range and a time,
-- and an address belongs to the first such peer whose first range has it: the vulnbox is connected
-- if and only if the handshake for its address was less than 245 seconds ago, some box is if and
-- only if that of the vulnbox, the gateway or the testbox was, and the count is the number of
-- peers with such a handshake. If the vulnbox was not connected before and is now, the time of its
-- last connection is that of its handshake; otherwise the time stays.
pub update_team_wireguard_status-Shows :
    (now : ℕ) (complete : Bool) (b : Boxes) (ps : List PeerInfo) (t : Team)
    → Shows now b ps t (update_team_wireguard_status now complete b (some ps) t)
unfolding update_team_wireguard_status check_boxes check_count
update_team_wireguard_status-Shows now complete b ps t =
    let o = get_peer_for (peers_of now ps) b.vulnbox_ip in
    let follows = check_vulnbox-follows now o t in
    let (up, last) = get_peer_for-Reads now b.vulnbox_ip ps in
    let (gateway, _) = get_peer_for-Reads now b.gateway_ip ps in
    let (testbox, _) = get_peer_for-Reads now b.testbox_ip ps in
    record {
      vulnbox = follows ∙ up;
      boxes = λ i. up i || gateway i || testbox i;
      count = connection_count-count_met now ps;
      connects = λ old new.
          check_vulnbox-connects now o t old (sym follows ∙ new) ∙ last (sym follows ∙ new);
      stays = λ h.
          check_vulnbox-stays now o t
            (elim h [ inl was ↦ inl was | inr down ↦ inr (sym follows ∙ down) ]);
    }

-- If the vulnbox counts as connected, the boxes of the team do as well.
abbrev pub IsConsistent : Team → Type 0
IsConsistent t = t.wg_vulnbox_connected ≡ true → t.wg_boxes_connected ≡ true

pub update-IsConsistent :
    (now : ℕ) (complete : Bool) (b : Boxes) (infos : Option (List PeerInfo)) (t : Team)
    → IsConsistent t
    → IsConsistent (update_team_wireguard_status now complete b infos t)
unfolding update_team_wireguard_status no_interface
update-IsConsistent now complete b none t h = ground (arith, h)
update-IsConsistent now complete b (some ps) t h =
    let s = update_team_wireguard_status-Shows now complete b ps t in
    λ v. ground (arith, sym s.vulnbox ∙ v, s.boxes)

pub reset-IsConsistent :
    (boot : ℕ) (all : Bool) (t : Team)
    → IsConsistent t
    → IsConsistent (reset_connection_status boot all t)
unfolding reset_connection_status
reset-IsConsistent boot all t h = ground (arith, h)
