-- ===== src/Config/Examples.antt =====
-- Tests of the configuration of the network, and its theorems at a concrete network.
use saarctf_gameserver.Prelude.{ℕ, ◌≡◌, refl, ◌≢◌, none, some, [], ◌∷◌, arith, pos, ◌+ℤ◌, ◌-ℤ◌}
use saarctf_gameserver.Config.{
  Octet, NetworkConfig, from_dict, to_dict, address, team_id_to_network_range,
  team_id_to_vulnbox_ip, team_id_to_vpn_peers, network_ip_to_id, team, index_error, out_of_fuel,
  search_all, search, intervals, interval, max_start, min_end, raise, raise_start,
}
use saarctf_gameserver.Config.Loading.{from_dict-to_dict}
use saarctf_gameserver.Config.Addresses.{
  IsFirstTeam, network_ip_to_id-IsFirstTeam, network_ip_to_id_total,
}

abbrev o : ℕ → ℕ → ℕ → Octet
o a b c = record { divisor = a; modulus = b; offset = c }

-- The network of the sample configuration: 10.(32 + id / 200).(id % 200).0/24
abbrev network : NetworkConfig
network = record {
  vulnbox_ip = o 1 1 10 ∷ o 200 256 32 ∷ o 1 200 0 ∷ o 1 1 2 ∷ [];
  gateway_ip = o 1 1 10 ∷ o 200 256 32 ∷ o 1 200 0 ∷ o 1 1 1 ∷ [];
  testbox_ip = o 1 1 10 ∷ o 200 256 32 ∷ o 1 200 0 ∷ o 1 1 3 ∷ [];
  network_ip = o 1 1 10 ∷ o 200 256 32 ∷ o 1 200 0 ∷ o 1 1 0 ∷ [];
  vpn_peer_ip = o 1 1 10 ∷ o 200 256 48 ∷ o 1 200 0 ∷ o 1 1 1 ∷ [];
  network_size = 24;
  gameserver_ip = none;
}

vulnbox_of_407 : team_id_to_vulnbox_ip network 407 ≡ some (10 ∷ 34 ∷ 7 ∷ 2 ∷ [])
unfolding team_id_to_vulnbox_ip address
vulnbox_of_407 = refl

peers_of_407 :
    team_id_to_vpn_peers network 407
    ≡ some (some (10 ∷ 50 ∷ 7 ∷ 1 ∷ []), some (10 ∷ 50 ∷ 7 ∷ 2 ∷ []))
unfolding team_id_to_vpn_peers address
peers_of_407 = refl

id_of_407 : network_ip_to_id network (10 ∷ 34 ∷ 7 ∷ 2 ∷ []) ≡ team (pos 407)
unfolding network_ip_to_id search_all search intervals interval max_start min_end raise raise_start
    ◌+ℤ◌ ◌-ℤ◌
id_of_407 = refl

-- An address below the first network belongs to no team, and gets an id whose own network would
-- be 10.287.0.0/24.
id_below : network_ip_to_id network (10 ∷ 31 ∷ 0 ∷ 2 ∷ []) ≡ team (pos 51000)
unfolding network_ip_to_id search_all search intervals interval max_start min_end raise raise_start
    ◌+ℤ◌ ◌-ℤ◌
id_below = refl

range_of_51000 : team_id_to_network_range network 51000 ≡ some (10 ∷ 287 ∷ 0 ∷ 0 ∷ [], 24)
unfolding team_id_to_network_range address
range_of_51000 = refl

-- Tests of errors.
short_address : network_ip_to_id network (10 ∷ 31 ∷ []) ≡ index_error
unfolding network_ip_to_id search_all intervals interval
short_address = refl

range_lem : team_id_to_network_range network 407 ≡ some (10 ∷ 34 ∷ 7 ∷ 0 ∷ [], 24)
unfolding team_id_to_network_range address
range_lem = refl

read_back : from_dict (to_dict network) ≡ some network
read_back = from_dict-to_dict network (record { size = refl; octets = refl; server = λ h. cc })

network_ip_to_id-IsFirstTeam_example :
    (r : ℕ) × (network_ip_to_id network (10 ∷ 34 ∷ 7 ∷ 0 ∷ []) ≡ team (pos r))
    × IsFirstTeam network 407 r
network_ip_to_id-IsFirstTeam_example =
    network_ip_to_id-IsFirstTeam network 407 (10 ∷ 34 ∷ 7 ∷ 0 ∷ []) 24 range_lem (omega arith)
      (omega arith) refl

outside_address_ends : network_ip_to_id network (10 ∷ 31 ∷ 0 ∷ 2 ∷ []) ≢ out_of_fuel
outside_address_ends = network_ip_to_id_total network (10 ∷ 31 ∷ 0 ∷ 2 ∷ []) (omega arith)
