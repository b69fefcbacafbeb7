-- ===== src/Vpn/Ctl/Verdict.antt =====
-- The teams after the commands `fix` and `reset` of vpn/vpnctl.py.
use saarctf_gameserver.Prelude.{
  ℕ, ◌≡◌, refl, [], ◌∷◌, Bool, true, false, not, ◌&&◌, ◌||◌, if◌then◌else◌, List, arith, ◌∙◌,
}
use saarctf_gameserver.Vpn.Ctl.System.{
  Service, vpn_selfhosted, vpn_cloudhosted, vpn_cloud_players, contains, Systemctl, VpnStatus,
  status_of, from_teams,
}
use saarctf_gameserver.Vpn.Ctl.Check.{from_status, is_consistent, from_status-ok}
use saarctf_gameserver.Vpn.Ctl.Fix.{
  contains_id, World, active, command_fix, command_reset, ids_of, disconnect,
}
use saarctf_gameserver.Vpn.Ctl.Repairs.{active-reset, db-reset, active-command_fix, db-command_fix}
use saarctf_gameserver.Vpn.Ctl.Plan.{checks, team_id-from_status, team_id-status_of}

-- What is beyond `fix` without a reset: for a team whose vulnbox is in the cloud, to start the server
-- of its vulnbox.
abbrev pub is_repairable : VpnStatus → Bool
is_repairable s = (from_status s).fix_needs_reset || (not s.cloud_connected || s.cloud_active)

module _ (s : VpnStatus) where
  abbrev repaired : Service → Bool → Bool
  repaired u old =
      if (from_status s).fix_needs_reset
      then true
      else not (contains (from_status s).fix_stop_service u)
        && (contains (from_status s).fix_start_service u || old)

  abbrev down : Service → Bool → Bool
  down u old =
      contains (from_status s).fix_stop_service u
      && (contains (from_status s).fix_start_service u || old)

  -- the status of the team after the repair
  abbrev next_status : VpnStatus
  next_status =
      let reset = (from_status s).fix_needs_reset in
      record {
        team_id = s.team_id;
        self_connected =
            if reset
            then false
            else s.self_connected && not (down (vpn_selfhosted s.team_id) s.self_active);
        cloud_connected =
            if reset
            then false
            else s.cloud_connected && not (down (vpn_cloudhosted s.team_id) s.cloud_active);
        cloud_player_conns =
            if reset
            then 0
            else if down (vpn_cloud_players s.team_id) s.cloud_players_active
            then 0
            else s.cloud_player_conns;
        self_active = repaired (vpn_selfhosted s.team_id) s.self_active;
        cloud_active = repaired (vpn_cloudhosted s.team_id) s.cloud_active;
        cloud_players_active = repaired (vpn_cloud_players s.team_id) s.cloud_players_active;
      }

  is_consistent-next_status : is_consistent next_status ≡ is_repairable s
  unfolding from_status contains
  is_consistent-next_status = ground arith

module _ (S : Systemctl) (w : World S) (ids : List ℕ) (i : ℕ)
    (listed : contains_id ids i ≡ true) where
  abbrev old_status : VpnStatus
  old_status = status_of (active S w) w.db i

  abbrev new_status : VpnStatus
  new_status = let w' = command_fix S false ids w in status_of (active S w') w'.db i

  new_status-eq-next_status : new_status ≡ next_status old_status
  unfolding status_of
  new_status-eq-next_status = ground (
    arith,
    active-command_fix S w ids (vpn_selfhosted i) listed,
    active-command_fix S w ids (vpn_cloudhosted i) listed,
    active-command_fix S w ids (vpn_cloud_players i) listed,
    db-command_fix S w ids i listed,
  )

  -- After the command fix, a team that it was called for is in order if and only if it needed a
  -- reset, or its vulnbox is not in the cloud, or the server of its vulnbox was running. It is
  -- assumed that systemctl starts and stops what it is told to.
  pub command_fix-ok : (from_status new_status).ok ≡ is_repairable old_status
  command_fix-ok =
      (from_status-ok new_status).0
      ∙ (rw new_status-eq-next_status (is_consistent-next_status old_status))

  contains_id-ids_of :
      (js : List ℕ) → contains_id (ids_of (checks (active S w) w.db js)) i ≡ contains_id js i
  unfolding contains_id from_teams
  contains_id-ids_of [] = refl
  contains_id-ids_of (j ∷ js) = ground (
    arith,
    contains_id-ids_of js,
    team_id-from_status (status_of (active S w) w.db j),
    team_id-status_of (active S w) w.db j,
  )

  abbrev reset_world : World S
  reset_world = command_reset S false ids w

  -- After the command reset every team that it was called for is in order. It is assumed that
  -- systemctl starts and stops what it is told to.
  pub command_reset-ok : (from_status (status_of (active S reset_world) reset_world.db i)).ok ≡ true
  unfolding command_reset status_of disconnect
  command_reset-ok =
      let cs = checks (active S w) w.db ids in
      let same = contains_id-ids_of ids in
      (from_status-ok (status_of (active S reset_world) reset_world.db i)).0
      ∙ ground (
        arith,
        listed,
        same,
        active-reset S cs w (vpn_selfhosted i),
        active-reset S cs w (vpn_cloudhosted i),
        active-reset S cs w (vpn_cloud_players i),
        db-reset S cs w i,
      )
