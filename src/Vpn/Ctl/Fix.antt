-- ===== src/Vpn/Ctl/Fix.antt =====
-- vpn/vpnctl.py: `VpnStatusFixer` and the commands `fix`, `reset`, `set` and `startup`. With the
-- option `--dry` nothing is executed or committed. What the servers' scripts write to the database
-- when a server stops is part of `stop`; that vpn/on-disconnect.sh then starts another server, and
-- the scripts that run when a client connects later, are left out.
use saarctf_gameserver.Prelude.{
  ℕ, Bool, false, not, ◌&&◌, ◌||◌, ◌==◌, if◌then◌else◌, List, [], ◌∷◌, ◌++◌, map,
}
use saarctf_gameserver.Vpn.Ctl.System.{
  Service, vpn_selfhosted, vpn_cloudhosted, vpn_cloud_players, contains, Systemctl, Team, Db,
  from_teams, future_status,
}
use saarctf_gameserver.Vpn.Ctl.Check.{VpnStatusCheck, from_status}

-- the checks that ask for a reset, and the services of the others
unfoldable pub reset_checks : List VpnStatusCheck → List VpnStatusCheck
reset_checks [] = []
reset_checks (c ∷ cs) = let rest = reset_checks cs in if c.fix_needs_reset then c ∷ rest else rest

unfoldable pub start_services : List VpnStatusCheck → List Service
start_services [] = []
start_services (c ∷ cs) =
    let rest = start_services cs in if c.fix_needs_reset then rest else c.fix_start_service ++ rest

unfoldable pub stop_services : List VpnStatusCheck → List Service
stop_services [] = []
stop_services (c ∷ cs) =
    let rest = stop_services cs in if c.fix_needs_reset then rest else c.fix_stop_service ++ rest

unfoldable pub all_services : List ℕ → List Service
all_services [] = []
all_services (i ∷ is) = vpn_selfhosted i ∷ vpn_cloudhosted i ∷ vpn_cloud_players i ∷ all_services is

unfoldable pub contains_id : List ℕ → ℕ → Bool
contains_id [] i = false
contains_id (j ∷ js) i = j == i || contains_id js i

abbrev pub disconnected : Team
disconnected = record { vpn_connected = false; vpn2_connected = false; vpn_connection_count = 0 }

-- `Team.query.filter(Team.id.in_(ids)).update(...)`
unfoldable pub disconnect : List ℕ → Db → Db
disconnect ids db i = if contains_id ids i then disconnected else db i

abbrev pub ids_of : List VpnStatusCheck → List ℕ
ids_of cs = map (λ c. c.team_id) cs

unfoldable pub start_all : List VpnStatusCheck → List Service
start_all [] = []
start_all (c ∷ cs) = c.fix_start_service ++ start_all cs

-- the modes of `command_set`
pub data Setting : Type 0 where
  self cloud off : Setting

-- What the `down` scripts of a team's servers write: vpn/on-disconnect.py for the two of its
-- vulnbox, vpn/on-cloud-down.py for the one of the players.
abbrev pub with_down : (own vulnbox players : Bool) → Team → Team
with_down own vulnbox players t = record {
  vpn_connected = t.vpn_connected && not own;
  vpn2_connected = t.vpn2_connected && not vulnbox;
  vpn_connection_count = if players then 0 else t.vpn_connection_count;
}

-- They run when systemd stops a server that is running.
unfoldable pub run_down_scripts : List Service → (Service → Bool) → Db → Db
unfolding contains
run_down_scripts us active db i =
    let down = λ (u : Service). contains us u && active u in
    with_down (down (vpn_selfhosted i)) (down (vpn_cloudhosted i)) (down (vpn_cloud_players i))
      (db i)

module _ (S : Systemctl) where
  pub record World : Type 0 where
    pub systemd : S.State
    pub db : Db

  abbrev pub active : World → Service → Bool
  active w = S.is_active w.systemd

  -- `SystemCtlUtils.start` and `stop`: no service, no call
  unfoldable pub start : Bool → List Service → World → World
  start dry [] w = w
  start dry (u ∷ us) w = if dry then w else record w { systemd = S.start (u ∷ us) w.systemd }

  unfoldable pub stop : Bool → List Service → World → World
  unfolding run_down_scripts
  stop dry [] w = w
  stop dry (u ∷ us) w = if dry then w else record w {
    systemd = S.stop (u ∷ us) w.systemd;
    db = run_down_scripts (u ∷ us) (active w) w.db;
  }

  unfoldable pub reset : Bool → List VpnStatusCheck → World → World
  reset dry checks w =
      let services = all_services (ids_of checks) in
      let w1 = stop dry services w in
      let w2 = if dry then w1 else record w1 { db = disconnect (ids_of checks) w1.db } in
      start dry services w2

  -- `if len(reset_checks) > 0`
  unfoldable pub reset_some : Bool → List VpnStatusCheck → World → World
  reset_some dry [] w = w
  reset_some dry (c ∷ cs) w = reset dry (c ∷ cs) w

  unfoldable pub fix : Bool → List VpnStatusCheck → World → World
  fix dry checks w =
      let w1 = reset_some dry (reset_checks checks) w in
      stop dry (stop_services checks) (start dry (start_services checks) w1)

  -- `command_fix` and `command_reset` for the teams of these ids
  unfoldable pub command_fix : Bool → List ℕ → World → World
  command_fix dry ids w = fix dry (map from_status (from_teams (active w) w.db ids)) w

  unfoldable pub command_reset : Bool → List ℕ → World → World
  command_reset dry ids w = reset dry (map from_status (from_teams (active w) w.db ids)) w

  unfoldable pub command_set : Bool → Setting → List ℕ → World → World
  command_set dry self ids w =
      start dry (map vpn_selfhosted ids)
        (stop dry (map vpn_cloud_players ids ++ map vpn_cloudhosted ids) w)
  command_set dry cloud ids w =
      start dry (map vpn_cloud_players ids ++ map vpn_cloudhosted ids)
        (stop dry (map vpn_selfhosted ids) w)
  command_set dry off ids w =
      stop dry (map vpn_selfhosted ids ++ (map vpn_cloudhosted ids ++ map vpn_cloud_players ids)) w

  -- `command_startup`: the teams of the database, and those that only have a configuration
  unfoldable pub command_startup : Bool → (known future : List ℕ) → World → World
  command_startup dry known future w =
      let statuses = from_teams (active w) w.db known ++ map (future_status (active w)) future in
      start dry (start_all (map from_status statuses)) w
