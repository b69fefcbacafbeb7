-- ===== src/Vpn/Firewall/Replica.antt =====
-- controlserver/vpncontrol.py and vpn/manage-iptables.py together.
use saarctf_gameserver.Prelude.{
  ℕ, ◌≡◌, refl, ◌==◌, Option, List, [], ◌∷◌, arith, if_ind, sym, subst,
}
use saarctf_gameserver.Vpn.Network
use saarctf_gameserver.Vpn.Network.{
  VpnStatus, on, off, teams_only, teams_only_no_vulnbox, is_on, Message, contains, Redis, get_state,
  set_state, unban_all, unban_for_tick, ends_in, on_start_tick, on_start_ctf, on_end_ctf,
  on_open_vulnbox_access, add_permission_team, remove_permission_team, Call, set, ban_until,
  lift_ban, open_team, close_team, new_tick, start_ctf, end_ctf, open_vulnbox_access, call, calls,
}
use saarctf_gameserver.Vpn.Network.Bans.{contains-add, contains-discard}
use saarctf_gameserver.Vpn.Firewall
use saarctf_gameserver.Vpn.Firewall.{
  Rule, team, Iptables, IsDocumented, Manager, rewrite_chain, init_firewall, update_state, handle,
  handle_all, start,
}
use saarctf_gameserver.Vpn.Firewall.Chain.{has}
use saarctf_gameserver.Vpn.Firewall.Exact.{is_wanted, rewrite_chain-IsExact, handle_all-IsExact}

module _ (max_id : ℕ) (I : Iptables) where
  -- the same state, the same banned teams, and the same permissions
  record Agree (m : Manager I) (r : Redis) : Type 0 where
    same_state : m.state ≡ get_state r
    same_banned : (i : ℕ) → contains m.banned i ≡ contains r.banned i
    same_allowed : (i : ℕ) → contains m.allowed i ≡ contains r.permissions i

  module _ (m0 : Manager I) where
    abbrev InSync : Redis → Type 0
    InSync r = Agree (handle_all I max_id r.messages m0) r

    set_state-InSync : (s : VpnStatus) (r : Redis) → InSync r → InSync (set_state s r)
    unfolding set_state get_state handle_all handle update_state rewrite_chain
    set_state-InSync s r h = record {
      same_state = refl;
      same_banned = h.same_banned;
      same_allowed = h.same_allowed;
    }

    ban_team-InSync :
        (i : ℕ) (u : Option ℕ) (r : Redis) → InSync r → InSync (Network.ban_team i u r)
    unfolding Network.ban_team get_state handle_all handle Firewall.ban_team
    ban_team-InSync i u r h =
        if_ind InSync (i == 0) r _ (λ _. h)
          λ _. record {
            same_state = h.same_state;
            same_banned = λ j. ground (
              arith,
              h.same_banned j,
              contains-add i j r.banned,
              contains-add i j (handle_all I max_id r.messages m0).banned,
            );
            same_allowed = h.same_allowed;
          }

    unban_team-InSync : (i : ℕ) (r : Redis) → InSync r → InSync (Network.unban_team i r)
    unfolding Network.unban_team get_state handle_all handle Firewall.unban_team
    unban_team-InSync i r h = record {
      same_state = h.same_state;
      same_banned = λ j. ground (
        arith,
        h.same_banned j,
        contains-discard i j r.banned,
        contains-discard i j (handle_all I max_id r.messages m0).banned,
      );
      same_allowed = h.same_allowed;
    }

    unban_all-InSync :
        (tick : ℕ) (ids : List ℕ) (r : Redis) → InSync r → InSync (unban_all tick ids r)
    unfolding unban_all
    unban_all-InSync tick [] r h = h
    unban_all-InSync tick (i ∷ ids) r h = unban_all-InSync tick ids _ (
        if_ind InSync (ends_in tick (r.banned_until i)) _ r (λ _. unban_team-InSync i r h) (λ _. h))

    add_permission-InSync : (i : ℕ) (r : Redis) → InSync r → InSync (add_permission_team i r)
    unfolding add_permission_team get_state handle_all handle Firewall.add_network_team
    add_permission-InSync i r h =
        if_ind InSync (i == 0) r _ (λ _. h)
          λ _. record {
            same_state = h.same_state;
            same_banned = h.same_banned;
            same_allowed = λ j. ground (
              arith,
              h.same_allowed j,
              contains-add i j r.permissions,
              contains-add i j (handle_all I max_id r.messages m0).allowed,
            );
          }

    remove_permission-InSync : (i : ℕ) (r : Redis) → InSync r → InSync (remove_permission_team i r)
    unfolding remove_permission_team get_state handle_all handle Firewall.remove_network_team
    remove_permission-InSync i r h = record {
      same_state = h.same_state;
      same_banned = h.same_banned;
      same_allowed = λ j. ground (
        arith,
        h.same_allowed j,
        contains-discard i j r.permissions,
        contains-discard i j (handle_all I max_id r.messages m0).allowed,
      );
    }

    call-InSync : (c : Call) (r : Redis) → InSync r → InSync (call c r)
    unfolding call on_start_tick unban_for_tick on_start_ctf on_end_ctf on_open_vulnbox_access
    call-InSync (set s) r h = set_state-InSync s r h
    call-InSync (ban_until i t) r h = ban_team-InSync i t r h
    call-InSync (lift_ban i) r h = unban_team-InSync i r h
    call-InSync (open_team i) r h = add_permission-InSync i r h
    call-InSync (close_team i) r h = remove_permission-InSync i r h
    call-InSync (new_tick t) r h = unban_all-InSync t r.banned r h
    call-InSync start_ctf r h = set_state-InSync on r h
    call-InSync end_ctf r h =
        if_ind InSync (is_on (get_state r)) _ r (λ _. set_state-InSync teams_only r h) (λ _. h)
    call-InSync open_vulnbox_access r h =
        if_ind InSync (is_on (get_state r)) r _ (λ _. h) (λ _. set_state-InSync teams_only r h)

    calls-InSync : (cs : List Call) (r : Redis) → InSync r → InSync (calls cs r)
    unfolding calls
    calls-InSync [] r h = h
    calls-InSync (c ∷ cs) r h = calls-InSync cs (call c r) (call-InSync c r h)

  start-InSync :
      (r : Redis) (c : I.Chain)
      → r.messages ≡ []
      → Agree (handle_all I max_id r.messages (start I max_id r c)) r
  unfolding start init_firewall rewrite_chain handle_all
  start-InSync r c e =
      subst (λ ms. Agree (handle_all I max_id ms (start I max_id r c)) r) (sym e)
        (record { same_state = refl; same_banned = λ i. refl; same_allowed = λ i. refl })

  -- The firewall script starts with what Redis has of the network, before there are messages, and
  -- the control server then makes any calls (states, bans, permissions, and the events of the
  -- game). When the script has handled their messages, a rule is in the chain if and only if Redis
  -- calls for it: the rules of the state of the network, and those of the teams that are banned or
  -- have a permission now. It is assumed that iptables does what its manual says, and that the
  -- largest id of a team does not change.
  pub calls-followed :
      (doc : IsDocumented I) (cs : List Call) (r : Redis) (c : I.Chain)
      → r.messages ≡ []
      → (q : Rule)
      → let r' = calls cs r in
        has I doc (handle_all I max_id r'.messages (start I max_id r c)).chain q
        ≡ is_wanted max_id (get_state r') r'.banned r'.permissions q
  unfolding start init_firewall is_wanted
  calls-followed doc cs r c e q =
      let r' = calls cs r in
      let m0 = start I max_id r c in
      let h = calls-InSync m0 cs r (start-InSync r c e) in
      ground (
        arith,
        handle_all-IsExact max_id I doc r'.messages m0
            (rewrite_chain-IsExact max_id I doc (record {
              chain = I.flush c;
              state = get_state r;
              banned = r.banned;
              allowed = r.permissions;
            }))
            q,
        h.same_state,
        h.same_banned (team q),
        h.same_allowed (team q),
      )
