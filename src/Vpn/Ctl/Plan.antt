-- ===== src/Vpn/Ctl/Plan.antt =====
-- What `VpnStatusFixer.fix` of vpn/vpnctl.py plans for the services of each team.
use mathlib.Core.Bool.{not, ◌&&◌}
use saarctf_gameserver.Prelude.{
  ℕ, ◌≡◌, refl, Bool, false, ◌||◌, ◌==◌, List, [], ◌∷◌, ◌++◌, map, arith,
}
use saarctf_gameserver.Vpn.Ctl.System.{
  Service, vpn_selfhosted, vpn_cloudhosted, vpn_cloud_players, contains, Db, VpnStatus, status_of,
  from_teams,
}
use saarctf_gameserver.Vpn.Ctl.Check.{VpnStatusCheck, from_status}
use saarctf_gameserver.Vpn.Ctl.Fix.{
  reset_checks, start_services, stop_services, all_services, contains_id, ids_of,
}

abbrev pub team_of : Service → ℕ
team_of (vpn_selfhosted i) = i
team_of (vpn_cloudhosted i) = i
team_of (vpn_cloud_players i) = i

contains-append :
    (us vs : List Service) (u : Service) → contains (us ++ vs) u ≡ (contains us u || contains vs u)
unfolding contains
contains-append [] vs u = refl
contains-append (v ∷ us) vs u = ground (arith, contains-append us vs u)

-- A check names only services of its own team.
start_of_team :
    (s : VpnStatus) (u : Service)
    → (s.team_id == team_of u) ≡ false
    → contains (from_status s).fix_start_service u ≡ false
unfolding from_status contains
start_of_team s (vpn_selfhosted i) h = ground arith
start_of_team s (vpn_cloudhosted i) h = ground arith
start_of_team s (vpn_cloud_players i) h = ground arith

stop_of_team :
    (s : VpnStatus) (u : Service)
    → (s.team_id == team_of u) ≡ false
    → contains (from_status s).fix_stop_service u ≡ false
unfolding from_status contains
stop_of_team s (vpn_selfhosted i) h = ground arith
stop_of_team s (vpn_cloudhosted i) h = ground arith
stop_of_team s (vpn_cloud_players i) h = ground arith

pub contains-all_services :
    (is : List ℕ) (u : Service) → contains (all_services is) u ≡ contains_id is (team_of u)
unfolding contains all_services contains_id
contains-all_services [] u = refl
contains-all_services (i ∷ is) (vpn_selfhosted j) =
    ground (arith, contains-all_services is (vpn_selfhosted j))
contains-all_services (i ∷ is) (vpn_cloudhosted j) =
    ground (arith, contains-all_services is (vpn_cloudhosted j))
contains-all_services (i ∷ is) (vpn_cloud_players j) =
    ground (arith, contains-all_services is (vpn_cloud_players j))

pub team_id-from_status : (s : VpnStatus) → (from_status s).team_id ≡ s.team_id
unfolding from_status
team_id-from_status s = ground arith

pub team_id-status_of : (act : Service → Bool) (db : Db) (i : ℕ) → (status_of act db i).team_id ≡ i
unfolding status_of
team_id-status_of act db i = refl

module _ (act : Service → Bool) (db : Db) where
  abbrev pub check : ℕ → VpnStatusCheck
  check j = from_status (status_of act db j)

  abbrev pub checks : List ℕ → List VpnStatusCheck
  checks ids = map from_status (from_teams act db ids)

  pub own_start :
      (j : ℕ) (u : Service)
      → (j == team_of u) ≡ false
      → contains (check j).fix_start_service u ≡ false
  unfolding status_of
  own_start j u h = start_of_team (status_of act db j) u h

  pub contains-start_services :
      (ids : List ℕ) (u : Service)
      → contains (start_services (checks ids)) u ≡ (
          contains_id ids (team_of u)
          && (not (check (team_of u)).fix_needs_reset
              && contains (check (team_of u)).fix_start_service u))
  unfolding start_services from_teams contains_id
  contains-start_services [] u = unfold contains in refl
  contains-start_services (j ∷ js) u = ground (
    arith,
    contains-append (check j).fix_start_service (start_services (checks js)) u,
    contains-start_services js u,
    own_start j u,
  )

  pub own_stop :
      (j : ℕ) (u : Service)
      → (j == team_of u) ≡ false
      → contains (check j).fix_stop_service u ≡ false
  unfolding status_of
  own_stop j u h = stop_of_team (status_of act db j) u h

  pub contains-stop_services :
      (ids : List ℕ) (u : Service)
      → contains (stop_services (checks ids)) u ≡ (
          contains_id ids (team_of u)
          && (not (check (team_of u)).fix_needs_reset
              && contains (check (team_of u)).fix_stop_service u))
  unfolding stop_services from_teams contains_id
  contains-stop_services [] u = unfold contains in refl
  contains-stop_services (j ∷ js) u = ground (
    arith,
    contains-append (check j).fix_stop_service (stop_services (checks js)) u,
    contains-stop_services js u,
    own_stop j u,
  )

  pub contains_id-reset_checks :
      (ids : List ℕ) (i : ℕ)
      → contains_id (ids_of (reset_checks (checks ids))) i
        ≡ (contains_id ids i && (check i).fix_needs_reset)
  unfolding reset_checks from_teams contains_id
  contains_id-reset_checks [] i = refl
  contains_id-reset_checks (j ∷ js) i = ground (
    arith,
    contains_id-reset_checks js i,
    team_id-from_status (status_of act db j),
    team_id-status_of act db j,
  )
