-- ===== src/Vpn/Firewall.antt =====
-- vpn/manage-iptables.py: the script on a VPN server that keeps the `vpn-blocking` chain of iptables.
-- The program `iptables` is a parameter. Teams are numbers here, where the script has texts.
pub mod Chain
pub mod Exact
pub mod Replica
use saarctf_gameserver.Prelude.{
  ℕ, zero, suc, ◌+◌, ◌≡◌, Bool, true, false, not, ◌&&◌, ◌||◌, ◌==◌, Option, none, some,
  if◌then◌else◌, List, [], ◌∷◌, ◌++◌,
}
use saarctf_gameserver.Vpn.Network
use saarctf_gameserver.Vpn.Network.{
  VpnStatus, Message, off, on, teams_only, teams_only_no_vulnbox, contains, add, discard, Redis,
}

-- The rules that the script makes: two for the state, those for vulnboxes, those against a team on
-- an interface `tun…`, in both directions, and those for a team and the game servers.
pub data Rule : Type 0 where
  net_closed net_team_only : Rule
  from_vulnbox to_vulnbox : ℕ → Rule
  ban_in ban_out : ℕ → ℕ → Rule
  to_gameserver from_gameserver : ℕ → Rule

-- The words of a rule: what it is for, its interface, and its team.
unfoldable pub kind : Rule → ℕ
kind net_closed = 0
kind net_team_only = 1
kind (from_vulnbox i) = 2
kind (to_vulnbox i) = 3
kind (ban_in n i) = 4
kind (ban_out n i) = 5
kind (to_gameserver i) = 6
kind (from_gameserver i) = 7

unfoldable pub interface : Rule → ℕ
interface (ban_in n i) = n
interface (ban_out n i) = n
interface _ = 0

unfoldable pub team : Rule → ℕ
team net_closed = 0
team net_team_only = 0
team (from_vulnbox i) = i
team (to_vulnbox i) = i
team (ban_in n i) = i
team (ban_out n i) = i
team (to_gameserver i) = i
team (from_gameserver i) = i

abbrev pub same : Rule → Rule → Bool
same q r = kind q == kind r && (interface q == interface r && team q == team r)

unfoldable pub has_rule : List Rule → Rule → Bool
has_rule [] r = false
has_rule (q ∷ qs) r = same q r || has_rule qs r

unfoldable pub remove_first : Rule → List Rule → List Rule
remove_first r [] = []
remove_first r (q ∷ qs) = if same q r then qs else q ∷ remove_first r qs

-- `iptables -A`, `-I … 1`, `-D`, `-C` and `-F` on the chain: a call that fails returns `none`.
pub record Iptables : Type 1 where
  pub Chain : Type 0
  pub append : Rule → Chain → Chain
  pub insert : Rule → Chain → Chain
  pub delete : Rule → Chain → Option Chain
  pub check : Rule → Chain → Bool
  pub flush : Chain → Chain
  -- `-S`
  pub rules : Chain → List Rule

-- what the manual says of them
pub record IsDocumented (I : Iptables) : Type 0 where
  pub append_lem : (r : Rule) (c : I.Chain) → I.rules (I.append r c) ≡ I.rules c ++ (r ∷ [])
  pub insert_lem : (r : Rule) (c : I.Chain) → I.rules (I.insert r c) ≡ r ∷ I.rules c
  pub check_lem : (r : Rule) (c : I.Chain) → I.check r c ≡ has_rule (I.rules c) r
  pub flush_lem : (c : I.Chain) → I.rules (I.flush c) ≡ []
  pub delete_none : (r : Rule) (c : I.Chain) → I.delete r c ≡ none → has_rule (I.rules c) r ≡ false
  pub delete_some :
      (r : Rule) (c c' : I.Chain)
      → I.delete r c ≡ some c'
      → (has_rule (I.rules c) r ≡ true) × (I.rules c' ≡ remove_first r (I.rules c))

unfoldable pub count_rule : Rule → List Rule → ℕ
count_rule r [] = 0
count_rule r (q ∷ qs) = let rest = count_rule r qs in if same q r then suc rest else rest

module _ (I : Iptables) where
  unfoldable pub iptables_add : Rule → I.Chain → I.Chain
  iptables_add r c = if I.check r c then c else I.append r c

  unfoldable pub iptables_insert : Rule → I.Chain → I.Chain
  iptables_insert r c = if I.check r c then c else I.insert r c

  -- The loop ends: each round removes one of the rules, which the fuel counts.
  unfoldable pub remove_loop : ℕ → Rule → I.Chain → I.Chain
  remove_loop zero r c = c
  remove_loop (suc fuel) r c = elim (I.delete r c) [ none ↦ c | some c' ↦ remove_loop fuel r c' ]

  unfoldable pub iptables_remove : Rule → I.Chain → I.Chain
  iptables_remove r c = remove_loop (suc (count_rule r (I.rules c))) r c

  -- `IpTablesManager`
  pub record Manager : Type 0 where
    pub chain : I.Chain
    pub state : VpnStatus
    pub banned : List ℕ
    pub allowed : List ℕ

  -- the loop of `_insert_no_vulnbox_rules`, for the team ids from `i` on
  unfoldable pub insert_vulnbox_rules : ℕ → ℕ → I.Chain → I.Chain
  insert_vulnbox_rules zero i c = c
  insert_vulnbox_rules (suc n) i c =
      insert_vulnbox_rules n (suc i)
        (iptables_insert (to_vulnbox i) (iptables_insert (from_vulnbox i) c))

  unfoldable pub ban_rules : ℕ → I.Chain → I.Chain
  ban_rules i c =
      let c1 = iptables_add (ban_out i i) (iptables_add (ban_in i i) c) in
      let c2 = iptables_add (ban_out (1000 + i) i) (iptables_add (ban_in (1000 + i) i) c1) in
      iptables_add (ban_out (2000 + i) i) (iptables_add (ban_in (2000 + i) i) c2)

  unfoldable pub unban_rules : ℕ → I.Chain → I.Chain
  unban_rules i c =
      let c1 = iptables_remove (ban_out i i) (iptables_remove (ban_in i i) c) in
      let c2 = iptables_remove (ban_out (1000 + i) i) (iptables_remove (ban_in (1000 + i) i) c1) in
      iptables_remove (ban_out (2000 + i) i) (iptables_remove (ban_in (2000 + i) i) c2)

  unfoldable pub allow_rules : ℕ → I.Chain → I.Chain
  allow_rules i c = iptables_insert (to_gameserver i) (iptables_insert (from_gameserver i) c)

  unfoldable pub disallow_rules : ℕ → I.Chain → I.Chain
  disallow_rules i c = iptables_remove (from_gameserver i) (iptables_remove (to_gameserver i) c)

  unfoldable pub ban_all : List ℕ → I.Chain → I.Chain
  ban_all [] c = c
  ban_all (i ∷ ids) c = ban_all ids (ban_rules i c)

  unfoldable pub allow_all : List ℕ → I.Chain → I.Chain
  allow_all [] c = c
  allow_all (i ∷ ids) c = allow_all ids (allow_rules i c)

  -- the largest id of a team, from the database
  module _ (max_id : ℕ) where
    -- the first part of `rewrite_chain`
    unfoldable pub state_rules : VpnStatus → I.Chain → I.Chain
    state_rules on c = I.flush c
    state_rules teams_only c = iptables_add net_closed (iptables_add net_team_only (I.flush c))
    state_rules teams_only_no_vulnbox c =
        insert_vulnbox_rules (suc max_id) 1
          (iptables_insert net_team_only (iptables_add net_closed (I.flush c)))
    state_rules off c = iptables_add net_closed (I.flush c)

    unfoldable pub rewrite_chain : Manager → Manager
    rewrite_chain m = record m {
      chain = allow_all m.allowed (ban_all m.banned (state_rules m.state m.chain));
    }

    unfoldable pub init_firewall : VpnStatus → List ℕ → List ℕ → I.Chain → Manager
    init_firewall s banned allowed c =
        rewrite_chain (record { chain = I.flush c; state = s; banned = banned; allowed = allowed })

    unfoldable pub update_state : VpnStatus → Manager → Manager
    update_state s m = rewrite_chain (record m { state = s })

    unfoldable pub ban_team : ℕ → Manager → Manager
    ban_team i m = record m { banned = add i m.banned; chain = ban_rules i m.chain }

    unfoldable pub unban_team : ℕ → Manager → Manager
    unban_team i m = record m { banned = discard i m.banned; chain = unban_rules i m.chain }

    unfoldable pub add_network_team : ℕ → Manager → Manager
    add_network_team i m = record m { allowed = add i m.allowed; chain = allow_rules i m.chain }

    unfoldable pub remove_network_team : ℕ → Manager → Manager
    remove_network_team i m = record m {
      allowed = discard i m.allowed;
      chain = disallow_rules i m.chain;
    }

    -- the body of the loop of `manage_iptables`
    unfoldable pub handle : Message → Manager → Manager
    handle (Message.state s) m = update_state s m
    handle (Message.ban i) m = ban_team i m
    handle (Message.unban i) m = unban_team i m
    handle (Message.add_permission i) m = add_network_team i m
    handle (Message.remove_permission i) m = remove_network_team i m

    -- the messages, the last one first
    unfoldable pub handle_all : List Message → Manager → Manager
    handle_all [] m = m
    handle_all (x ∷ xs) m = handle x (handle_all xs m)

    -- The first part of `manage_iptables`: what it starts with, and leaves in Redis.
    unfoldable pub start : Redis → I.Chain → Manager
    start r c = init_firewall (Network.get_state r) r.banned r.permissions c

    unfoldable pub with_state : Redis → Redis
    with_state r = record r { network_state = some (Network.get_state r) }
