-- ===== src/Vpn/Firewall/Exact.antt =====
-- The rules of the chain that vpn/manage-iptables.py keeps, after the messages so far.
use saarctf_gameserver.Prelude.{
  ℕ, suc, ◌+◌, ◌≡◌, Bool, true, false, ◌&&◌, ◌||◌, ◌==◌, leb, ltb, List, [], ◌∷◌, arith,
}
use saarctf_gameserver.Vpn.Network.{
  VpnStatus, off, on, teams_only, teams_only_no_vulnbox, Message, state, ban, unban, add_permission,
  remove_permission,
}
use saarctf_gameserver.Vpn.Network.Bans.{contains-add, contains-discard}
use saarctf_gameserver.Vpn.Firewall.{
  Rule, net_closed, net_team_only, kind, interface, team, same, Iptables, IsDocumented, Manager,
  iptables_add, iptables_insert, ban_all, state_rules, rewrite_chain, update_state, ban_team,
  unban_team, add_network_team, remove_network_team, handle, handle_all,
}
use saarctf_gameserver.Vpn.Firewall.Chain.{
  has, has-flush, has-iptables_add, has-iptables_insert, has-insert_vulnbox_rules, bans, allows,
  has-ban_rules, has-unban_rules, has-allow_rules, has-disallow_rules, has-ban_all, has-allow_all,
}

module _ (max_id : ℕ) where
  -- a rule against the vulnbox of a team with an id from 1 to one above the largest
  abbrev pub is_vulnbox_rule : Rule → Bool
  is_vulnbox_rule r =
      (kind r == 2 || kind r == 3)
      && (interface r == 0 && (leb 1 (team r) && ltb (team r) (1 + suc max_id)))

  -- the rules that a state calls for
  unfoldable pub is_state_rule : VpnStatus → Rule → Bool
  is_state_rule on r = false
  is_state_rule off r = same net_closed r
  is_state_rule teams_only r = same net_closed r || same net_team_only r
  is_state_rule teams_only_no_vulnbox r =
      is_vulnbox_rule r || (same net_team_only r || same net_closed r)

  -- The rules that the chain should have: those of the state, and those of each banned team and of
  -- each team with a permission.
  unfoldable pub is_wanted : VpnStatus → List ℕ → List ℕ → Rule → Bool
  is_wanted s banned allowed r = is_state_rule s r || (bans banned r || allows allowed r)

  module _ (I : Iptables) (doc : IsDocumented I) where
    abbrev pub IsExact : Manager I → Type 0
    IsExact m = (r : Rule) → has I doc m.chain r ≡ is_wanted m.state m.banned m.allowed r

    has-state_rules :
        (s : VpnStatus) (r : Rule) (c : I.Chain)
        → has I doc (state_rules I max_id s c) r ≡ is_state_rule s r
    unfolding state_rules is_state_rule
    has-state_rules on r c = has-flush I doc c r
    has-state_rules off r c =
        ground (arith, has-iptables_add I doc net_closed r (I.flush c), has-flush I doc c r)
    has-state_rules teams_only r c = ground (
      arith,
      has-iptables_add I doc net_closed r (iptables_add I net_team_only (I.flush c)),
      has-iptables_add I doc net_team_only r (I.flush c),
      has-flush I doc c r,
    )
    has-state_rules teams_only_no_vulnbox r c = ground (
      arith,
      has-insert_vulnbox_rules I doc (suc max_id) 1 r
          (iptables_insert I net_team_only (iptables_add I net_closed (I.flush c))),
      has-iptables_insert I doc net_team_only r (iptables_add I net_closed (I.flush c)),
      has-iptables_add I doc net_closed r (I.flush c),
      has-flush I doc c r,
    )

    pub rewrite_chain-IsExact : (m : Manager I) → IsExact (rewrite_chain I max_id m)
    unfolding rewrite_chain is_wanted
    rewrite_chain-IsExact m r = ground (
      arith,
      has-allow_all I doc m.allowed r (ban_all I m.banned (state_rules I max_id m.state m.chain)),
      has-ban_all I doc m.banned r (state_rules I max_id m.state m.chain),
      has-state_rules m.state r m.chain,
    )

    state-no_team_rule :
        (s : VpnStatus) (r : Rule) → is_state_rule s r ≡ true → leb (kind r) 3 ≡ true
    unfolding is_state_rule kind
    state-no_team_rule on r h = ground (arith, h)
    state-no_team_rule off r h = ground (arith, h)
    state-no_team_rule teams_only r h = ground (arith, h)
    state-no_team_rule teams_only_no_vulnbox r h = ground (arith, h)

    handle-IsExact : (x : Message) (m : Manager I) → IsExact m → IsExact (handle I max_id x m)
    unfolding handle update_state ban_team unban_team add_network_team remove_network_team is_wanted
    handle-IsExact (state s) m h r = rewrite_chain-IsExact (record m { state = s }) r
    handle-IsExact (ban i) m h r =
        ground (arith, h r, has-ban_rules I doc i r m.chain, contains-add i (team r) m.banned)
    handle-IsExact (unban i) m h r = ground (
      arith,
      h r,
      has-unban_rules I doc i r m.chain,
      contains-discard i (team r) m.banned,
      state-no_team_rule m.state r,
    )
    handle-IsExact (add_permission i) m h r =
        ground (arith, h r, has-allow_rules I doc i r m.chain, contains-add i (team r) m.allowed)
    handle-IsExact (remove_permission i) m h r = ground (
      arith,
      h r,
      has-disallow_rules I doc i r m.chain,
      contains-discard i (team r) m.allowed,
      state-no_team_rule m.state r,
    )

    pub handle_all-IsExact :
        (xs : List Message) (m : Manager I) → IsExact m → IsExact (handle_all I max_id xs m)
    unfolding handle_all
    handle_all-IsExact [] m h = h
    handle_all-IsExact (x ∷ xs) m h =
        handle-IsExact x (handle_all I max_id xs m) (handle_all-IsExact xs m h)
