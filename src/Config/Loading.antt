-- ===== src/Config/Loading.antt =====
-- Reading and writing the configuration of the network.
use saarctf_gameserver.Prelude.{
  ℕ, is_set, zero, suc, ◌≡◌, refl, ◌≢◌, true, Option, none, some, List, [], ◌∷◌, ◌++◌, map,
  if◌then◌else◌, length, arith,
}
use saarctf_gameserver.Config.{
  Component, Octet, parts, number, NetworkConfig, parse_network_def, take, get_elem?, is_size,
  with_size, from_dict, to_dict,
}

-- What `from_dict` makes sure of, and the dictionaries can express.
pub record IsLoaded (n : NetworkConfig) : Type 0 where
  pub size : is_size n.network_size ≡ true
  pub octets : length n.network_ip ≡ 4
  pub server : n.gameserver_ip ≢ some 0

parse-parts : (os : List Octet) → parse_network_def (map parts os) ≡ os
unfolding parse_network_def
parse-parts [] = refl
parse-parts (o ∷ os) = ground (arith, parse-parts os)

kept_server : (s : Option ℕ) → s ≢ some 0 → (if is_set s then s else none) ≡ s
kept_server none h = refl
kept_server (some zero) h = absurd (h refl)
kept_server (some (suc k)) h = refl

take-append_four :
    (os : List Octet) (c : Component)
    → length os ≡ 4
    → (take 4 (map parts os ++ (c ∷ [])) ≡ map parts os)
      × (get_elem? (map parts os ++ (c ∷ [])) 4 ≡ some c)
take-append_four (a ∷ b ∷ c ∷ d ∷ []) x h = (refl, refl)
take-append_four [] x h = absurd (omega arith)
take-append_four (a ∷ []) x h = absurd (omega arith)
take-append_four (a ∷ b ∷ []) x h = absurd (omega arith)
take-append_four (a ∷ b ∷ c ∷ []) x h = absurd (omega arith)
take-append_four (a ∷ b ∷ c ∷ d ∷ e ∷ os) x h = absurd (omega arith)

-- Reading what `to_dict` writes gives the configuration back.
pub from_dict-to_dict : (n : NetworkConfig) → IsLoaded n → from_dict (to_dict n) ≡ some n
unfolding from_dict to_dict with_size
from_dict-to_dict n l = ground (
  arith,
  take-append_four n.network_ip (number n.network_size) l.octets,
  parse-parts n.vulnbox_ip,
  parse-parts n.gateway_ip,
  parse-parts n.testbox_ip,
  parse-parts n.network_ip,
  parse-parts n.vpn_peer_ip,
  kept_server n.gameserver_ip l.server,
)
