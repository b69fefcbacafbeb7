-- ===== src/Config.antt =====
-- saarctf_commons/config.py: `NetworkConfig`, the addresses of the teams and the search for the
-- team of an address. An address is the list of the numbers between its dots, and a number stands
-- for the text of `gameserver_ip`, 0 for the empty one.
mod Loading
mod Intervals
mod Search
mod Teams
mod Addresses
mod Examples
use saarctf_gameserver.Prelude.{
  ℕ, zero, suc, ◌+◌, ◌*◌, ◌/◌, ◌%◌, ◌≡◌, Bool, true, false, ◌||◌, ltb, ◌==◌, Option, none, some,
  is_set, if◌then◌else◌, List, [], ◌∷◌, ◌++◌, map, ℤ, pos, pos_part, neg_part, sub_ℕ, mul_ℕ, ◌+ℤ◌,
  ◌-ℤ◌, ltb_ℤ, leb_ℤ,
}

-- `(a, b, c)`: the number `id // a % b + c` of an address
pub record Octet : Type 0 where
  pub divisor : ℕ
  pub modulus : ℕ
  pub offset : ℕ

-- What a configuration file has for one: a number, or a list of three.
pub data Component : Type 0 where
  number : ℕ → Component
  parts : Octet → Component

pub record NetworkConfig : Type 0 where
  pub vulnbox_ip : List Octet
  pub gateway_ip : List Octet
  pub testbox_ip : List Octet
  pub network_ip : List Octet
  pub vpn_peer_ip : List Octet
  pub network_size : ℕ
  pub gameserver_ip : Option ℕ

pub record NetworkDict : Type 0 where
  pub vulnbox_ip : List Component
  pub gateway_ip : List Component
  pub testbox_ip : List Component
  pub vpn_peer_ips : List Component
  pub team_range : List Component
  pub gameserver_ip : Option ℕ

unfoldable pub parse_component : Component → Octet
parse_component (number c) = record { divisor = 1; modulus = 1; offset = c }
parse_component (parts o) = o

unfoldable pub parse_network_def : List Component → List Octet
unfolding parse_component
parse_network_def = map parse_component

-- `x[:n]` and `x[n]`
abbrev pub take {ℓ} : {A : Type ℓ} → ℕ → List A → List A
take zero xs = []
take (suc n) [] = []
take (suc n) (x ∷ xs) = x ∷ take n xs

abbrev pub get_elem? {ℓ} : {A : Type ℓ} → List A → ℕ → Option A
get_elem? [] n = none
get_elem? (x ∷ xs) zero = some x
get_elem? (x ∷ xs) (suc n) = get_elem? xs n

abbrev pub is_size : ℕ → Bool
is_size n = n == 8 || n == 16 || n == 24 || n == 32

unfoldable pub with_size : NetworkDict → Component → Option NetworkConfig
unfolding parse_network_def
with_size d (parts o) = none
with_size d (number n) =
    if is_size n
    then some (record {
      vulnbox_ip = parse_network_def d.vulnbox_ip;
      gateway_ip = parse_network_def d.gateway_ip;
      testbox_ip = parse_network_def d.testbox_ip;
      network_ip = parse_network_def (take 4 d.team_range);
      vpn_peer_ip = parse_network_def d.vpn_peer_ips;
      network_size = n;
      gameserver_ip = d.gameserver_ip;
    })
    else none

-- `none` is an exception: no fifth element, or another size of a network.
unfoldable pub from_dict : NetworkDict → Option NetworkConfig
unfolding with_size
from_dict d = elim (get_elem? d.team_range 4) [ none ↦ none | some c ↦ with_size d c ]

unfoldable pub to_dict : NetworkConfig → NetworkDict
to_dict n = record {
  vulnbox_ip = map parts n.vulnbox_ip;
  gateway_ip = map parts n.gateway_ip;
  testbox_ip = map parts n.testbox_ip;
  vpn_peer_ips = map parts n.vpn_peer_ip;
  team_range = map parts n.network_ip ++ (number n.network_size ∷ []);
  gameserver_ip = if is_set n.gameserver_ip then n.gameserver_ip else none;
}

-- The number in an address, for positive `a` and `b`.
abbrev pub octet_of : ℕ → Octet → ℕ
octet_of i o = i / o.divisor % o.modulus + o.offset

-- `none` is a division by zero.
unfoldable pub address : List Octet → ℕ → Option (List ℕ)
address [] i = some []
address (o ∷ os) i =
    if o.divisor == 0 || o.modulus == 0
    then none
    else elim (address os i) [ none ↦ none | some ds ↦ some (octet_of i o ∷ ds) ]

unfoldable pub team_id_to_vulnbox_ip : NetworkConfig → ℕ → Option (List ℕ)
team_id_to_vulnbox_ip n i = address n.vulnbox_ip i

unfoldable pub team_id_to_gateway_ip : NetworkConfig → ℕ → Option (List ℕ)
team_id_to_gateway_ip n i = address n.gateway_ip i

unfoldable pub team_id_to_testbox_ip : NetworkConfig → ℕ → Option (List ℕ)
team_id_to_testbox_ip n i = address n.testbox_ip i

unfoldable pub team_id_to_network_range : NetworkConfig → ℕ → Option (List ℕ × ℕ)
unfolding address
team_id_to_network_range n i = elim (address n.network_ip i) [
  | none ↦ none
  | some ds ↦ some (ds, n.network_size)
]

abbrev add_last : List Octet → Option (List Octet)
add_last [] = none
add_last (o ∷ []) = some (record o { offset = o.offset + 1 } ∷ [])
add_last (o ∷ p ∷ os) = elim (add_last (p ∷ os)) [ none ↦ none | some qs ↦ some (o ∷ qs) ]

-- `none` is an index out of range.
unfoldable pub team_id_to_vpn_peers : NetworkConfig → ℕ → Option (Option (List ℕ) × Option (List ℕ))
unfolding address
team_id_to_vpn_peers n i = elim (add_last n.vpn_peer_ip) [
  | none ↦ none
  | some os ↦ some (address n.vpn_peer_ip i, address os i)
]

-- One of the intervals that the search moves: `pos_i`, `a_i` and `b_i`.
pub record Interval : Type 0 where
  pub start : ℤ
  pub size : ℕ
  pub count : ℕ

unfoldable pub interval : Octet → ℕ → Interval
interval o d = record {
  start = mul_ℕ (sub_ℕ d o.offset) o.divisor;
  size = o.divisor;
  count = o.modulus;
}

abbrev pub cons? {ℓ} : {A : Type ℓ} → A → Option (List A) → Option (List A)
cons? x none = none
cons? x (some xs) = some (x ∷ xs)

-- The intervals of the first numbers of an address. `none` is an index out of range.
unfoldable pub intervals : ℕ → List Octet → List ℕ → Option (List Interval)
unfolding interval
intervals zero os ds = some []
intervals (suc n) [] ds = none
intervals (suc n) (o ∷ os) [] = if ltb 1 o.modulus then none else intervals n os []
intervals (suc n) (o ∷ os) (d ∷ ds) =
    let rest = intervals n os ds in if ltb 1 o.modulus then cons? (interval o d) rest else rest

-- the first number behind an interval
abbrev pub end_of : Interval → ℤ
end_of j = j.start +ℤ pos j.size

abbrev pub max_ℤ : ℤ → ℤ → ℤ
max_ℤ a b = if ltb_ℤ a b then b else a

abbrev pub min_ℤ : ℤ → ℤ → ℤ
min_ℤ a b = if ltb_ℤ b a then b else a

unfoldable pub max_start : Interval → List Interval → ℤ
max_start i [] = i.start
max_start i (j ∷ js) = max_ℤ i.start (max_start j js)

unfoldable pub min_end : Interval → List Interval → ℤ
min_end i [] = end_of i
min_end i (j ∷ js) = min_ℤ (end_of i) (min_end j js)

-- `while pos[i] + a[i] <= smallest: pos[i] += a[i] * b[i]`
unfoldable pub raise_start : ℕ → ℤ → Interval → Interval
raise_start zero s j = j
raise_start (suc fuel) s j =
    let rest = raise_start fuel s (record j { start = j.start +ℤ pos (j.size * j.count) }) in
    if leb_ℤ (end_of j) s then rest else j

-- Each round adds at least 1, so there are at most as many as the end is below `smallest`.
unfoldable pub raise : ℤ → Interval → Interval
raise s j = raise_start (suc (pos_part (s -ℤ j.start))) s j

pub data Lookup : Type 0 where
  team : ℤ → Lookup
  not_found index_error value_error out_of_fuel : Lookup

-- `while True`
unfoldable pub search : ℕ → Interval → List Interval → Lookup
unfolding max_start min_end raise
search zero i is = out_of_fuel
search (suc fuel) i is =
    let s = max_start i is in
    let rest = search fuel (raise s i) (map (raise s) is) in
    if leb_ℤ (pos 0xFFFF) s then not_found else if ltb_ℤ s (min_end i is) then team s else rest

unfoldable pub search_all : Option (List Interval) → Lookup
unfolding search max_start
search_all none = index_error
search_all (some []) = value_error
search_all (some (i ∷ is)) = search (suc (suc (0xFFFF + neg_part (max_start i is)))) i is

unfoldable pub network_ip_to_id : NetworkConfig → List ℕ → Lookup
unfolding search_all intervals
network_ip_to_id n ip = search_all (intervals (n.network_size / 8) n.network_ip ip)
