-- ===== src/Wireguard/Peers.antt =====
-- wireguard_sync/network_lib.py: `sync_peers`, over the WireGuard of the kernel as a parameter.
-- A set is a list without order, and the numbers of a peer stand for the texts of its key and cidr.
-- `get_peers` is the list of the peers of the state: how it reads the answer of the kernel, with peers
-- that have no or several allowed networks, is left out.
pub mod Exact
use saarctf_gameserver.Prelude.{
  ℕ, ◌≡◌, Bool, true, false, not, ◌&&◌, ◌||◌, ◌==◌, Option, none, some, if◌then◌else◌, List, [],
  ◌∷◌,
}

pub record Peer : Type 0 where
  pub public_key : ℕ
  pub cidr : ℕ

abbrev pub same_peer : Peer → Peer → Bool
same_peer p q = p.public_key == q.public_key && p.cidr == q.cidr

abbrev pub contains_peer : List Peer → Peer → Bool
contains_peer [] q = false
contains_peer (p ∷ ps) q = same_peer p q || contains_peer ps q

-- `a.difference(b)`
unfoldable pub difference : List Peer → List Peer → List Peer
difference [] bs = []
difference (a ∷ as') bs =
    let rest = difference as' bs in if contains_peer bs a then rest else a ∷ rest

-- `WireGuard` of pyroute2 for one interface: what `get_peers` reads, and the two uses of `set`.
-- `none` is a ValueError.
pub record WireGuard : Type 1 where
  pub State : Type 0
  pub peers : State → List Peer
  pub set_peer : Peer → State → Option State
  pub set_remove : ℕ → State → Option State

module _ (wg : WireGuard) where
  -- A ValueError is logged.
  abbrev pub unless_refused : wg.State → Option wg.State → wg.State
  unless_refused s none = s
  unless_refused s (some s') = s'

  unfoldable pub add_peer : Peer → wg.State → wg.State
  add_peer p s = unless_refused s (wg.set_peer p s)

  unfoldable pub remove_peer : Peer → wg.State → wg.State
  remove_peer p s = unless_refused s (wg.set_remove p.public_key s)

  unfoldable pub remove_all : List Peer → wg.State → wg.State
  remove_all [] s = s
  remove_all (p ∷ ps) s = remove_all ps (remove_peer p s)

  unfoldable pub add_all : List Peer → wg.State → wg.State
  add_all [] s = s
  add_all (p ∷ ps) s = add_all ps (add_peer p s)

  unfoldable pub sync_peers : List Peer → wg.State → wg.State
  sync_peers requested s =
      let existing = wg.peers s in
      add_all (difference requested existing) (remove_all (difference existing requested) s)

  abbrev pub has_peer : wg.State → Peer → Bool
  has_peer s q = contains_peer (wg.peers s) q

  -- Two peers that an interface can have beside each other.
  abbrev pub Apart : Peer → Peer → Type 0
  Apart p q = ((p.public_key == q.public_key) ≡ false) × ((p.cidr == q.cidr) ≡ false)

  -- What the documentation of WireGuard says: a peer has one key and an address belongs to one
  -- peer, a new peer changes no other one if it shares neither, and a peer is removed by its key.
  pub record IsWireGuard : Type 0 where
    pub own_key :
        (s : wg.State) (p q : Peer)
        → has_peer s p ≡ true
        → has_peer s q ≡ true
        → same_peer p q ≡ false
        → Apart p q
    pub add_lem :
        (s : wg.State) (p : Peer)
        → ((q : Peer) → has_peer s q ≡ true → Apart p q)
        → (q : Peer) → has_peer (add_peer p s) q ≡ (same_peer p q || has_peer s q)
    pub remove_lem :
        (s : wg.State) (p q : Peer)
        → has_peer (remove_peer p s) q ≡ (not (p.public_key == q.public_key) && has_peer s q)
