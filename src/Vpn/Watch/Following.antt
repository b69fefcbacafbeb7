-- ===== src/Vpn/Watch/Following.antt =====
-- The thread of vpnboard/vpn_status_daemon.py next to the control server.
use saarctf_gameserver.Prelude.{
  ℕ, ◌≡◌, refl, ◌||◌, ◌==◌, Option, none, some, if_ind, List, [], ◌∷◌, arith, sym, subst, ◌∙◌,
}
use saarctf_gameserver.Vpn.Network.{
  VpnStatus, on, teams_only, is_on, contains, Redis, get_state, add, set_state, ban_team,
  unban_team, unban_all, unban_for_tick, ends_in, on_start_tick, on_start_ctf, on_end_ctf,
  on_open_vulnbox_access, add_permission_team, remove_permission_team, Call, set, ban_until,
  lift_ban, open_team, close_team, new_tick, start_ctf, end_ctf, open_vulnbox_access, call, calls,
}
use saarctf_gameserver.Vpn.Network.Bans.{contains-add, contains-discard}
use saarctf_gameserver.Vpn.Watch.{
  VpnStatusThread, new_thread, is_available, add_all, read_state, watch_redis, listen, listen_all,
}

-- the teams that Redis has banned, and whether the state lets teams reach the vulnboxes
pub record Follows (t : VpnStatusThread) (r : Redis) : Type 0 where
  pub same_banned : (i : ℕ) → contains t.banned_teams i ≡ contains r.banned i
  pub available : t.vulnbox_connection_available ≡ is_available (get_state r)

contains-add_all :
    (is ids : List ℕ) (i : ℕ) → contains (add_all is ids) i ≡ (contains is i || contains ids i)
unfolding add_all contains
contains-add_all [] ids i = refl
contains-add_all (j ∷ is) ids i =
    ground (arith, contains-add_all is (add j ids) i, contains-add j i ids)

-- Setting the state to off changes nothing else.
read_state_keeps :
    (r : Redis) (o : Option VpnStatus)
    → ((read_state r o).0.banned ≡ r.banned) × ((read_state r o).0.messages ≡ r.messages)
unfolding read_state
read_state_keeps r none = (refl, refl)
read_state_keeps r (some s) = (refl, refl)

read_state_available :
    (r : Redis) (o : Option VpnStatus)
    → r.network_state ≡ o
    → (read_state r o).1 ≡ is_available (get_state (read_state r o).0)
unfolding read_state get_state is_available
read_state_available r none e = refl
read_state_available r (some s) e = ground (arith, e)

watch_redis-Follows :
    (r : Redis) → Follows (watch_redis r new_thread).1 (watch_redis r new_thread).0
unfolding watch_redis contains
watch_redis-Follows r = record {
  same_banned =
      λ i. contains-add_all r.banned [] i ∙ ground (arith, (read_state_keeps r r.network_state).0);
  available = read_state_available r r.network_state refl;
}

module _ (t0 : VpnStatusThread) where
  abbrev InSync : Redis → Type 0
  InSync r = Follows (listen_all r.messages t0) r

  set_state-InSync : (s : VpnStatus) (r : Redis) → InSync r → InSync (set_state s r)
  unfolding set_state get_state listen_all listen
  set_state-InSync s r h = record { same_banned = h.same_banned; available = refl }

  ban_team-InSync : (i : ℕ) (u : Option ℕ) (r : Redis) → InSync r → InSync (ban_team i u r)
  unfolding ban_team get_state listen_all listen
  ban_team-InSync i u r h =
      if_ind InSync (i == 0) r _ (λ _. h)
        λ _. record {
          same_banned = λ j. ground (
            arith,
            h.same_banned j,
            contains-add i j r.banned,
            contains-add i j (listen_all r.messages t0).banned_teams,
          );
          available = h.available;
        }

  unban_team-InSync : (i : ℕ) (r : Redis) → InSync r → InSync (unban_team i r)
  unfolding unban_team get_state listen_all listen
  unban_team-InSync i r h = record {
    same_banned = λ j. ground (
      arith,
      h.same_banned j,
      contains-discard i j r.banned,
      contains-discard i j (listen_all r.messages t0).banned_teams,
    );
    available = h.available;
  }

  unban_all-InSync :
      (tick : ℕ) (ids : List ℕ) (r : Redis) → InSync r → InSync (unban_all tick ids r)
  unfolding unban_all
  unban_all-InSync tick [] r h = h
  unban_all-InSync tick (i ∷ ids) r h =
      unban_all-InSync tick ids _ (
        if_ind InSync (ends_in tick (r.banned_until i)) _ r (λ _. unban_team-InSync i r h) (λ _. h))

  permission-InSync :
      (r : Redis) (i : ℕ)
      → InSync r
      → InSync (add_permission_team i r) × InSync (remove_permission_team i r)
  unfolding add_permission_team remove_permission_team get_state listen_all listen
  permission-InSync r i h = (
    if_ind InSync (i == 0) r _ (λ _. h)
        (λ _. record { same_banned = h.same_banned; available = h.available }),
    record { same_banned = h.same_banned; available = h.available },
  )

  call-InSync : (c : Call) (r : Redis) → InSync r → InSync (call c r)
  unfolding call on_start_tick unban_for_tick on_start_ctf on_end_ctf on_open_vulnbox_access
  call-InSync (set s) r h = set_state-InSync s r h
  call-InSync (ban_until i t) r h = ban_team-InSync i t r h
  call-InSync (lift_ban i) r h = unban_team-InSync i r h
  call-InSync (open_team i) r h = (permission-InSync r i h).0
  call-InSync (close_team i) r h = (permission-InSync r i h).1
  call-InSync (new_tick t) r h = unban_all-InSync t r.banned r h
  call-InSync start_ctf r h = set_state-InSync on r h
  call-InSync end_ctf r h =
      if_ind InSync (is_on (get_state r)) _ r (λ _. set_state-InSync teams_only r h) (λ _. h)
  call-InSync open_vulnbox_access r h =
      if_ind InSync (is_on (get_state r)) r _ (λ _. h) (λ _. set_state-InSync teams_only r h)

  calls-InSync : (cs : List Call) (r : Redis) → InSync r → InSync (calls cs r)
  unfolding calls
  calls-InSync [] r h = h
  calls-InSync (c ∷ cs) r h = calls-InSync cs (call c r) (call-InSync c r h)

-- A thread that starts while there are no messages has, after any calls of the control server, the
-- bans of Redis, and knows whether teams may reach the vulnboxes.
pub calls-Follows :
    (cs : List Call) (r : Redis)
    → r.messages ≡ []
    → let (r0, t0) = watch_redis r new_thread in
      let r' = calls cs r0 in Follows (listen_all r'.messages t0) r'
calls-Follows cs r e =
    let (r0, t0) = watch_redis r new_thread in
    calls-InSync t0 cs r0 (
      subst (λ ms. Follows (listen_all ms t0) r0) (sym (unread r e))
        (unfold listen_all in watch_redis-Follows r))
  where
    unread : (r : Redis) → r.messages ≡ [] → (watch_redis r new_thread).0.messages ≡ []
    unread r e = unfold watch_redis in ((read_state_keeps r r.network_state).1 ∙ e)

-- A new connection adds the bans in Redis to those that the thread has.
pub watch_redis-keeps_bans :
    (r : Redis) (t : VpnStatusThread) (i : ℕ)
    → contains (watch_redis r t).1.banned_teams i
      ≡ (contains r.banned i || contains t.banned_teams i)
unfolding watch_redis
watch_redis-keeps_bans r t i = contains-add_all r.banned t.banned_teams i
