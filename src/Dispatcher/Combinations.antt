-- ===== src/Dispatcher/Combinations.antt =====
-- Which checker scripts `dispatch_checker_scripts` of controlserver/dispatcher.py starts.
use saarctf_gameserver.Prelude.{
  ℕ, ◌≡◌, refl, Bool, false, not, ◌&&◌, ◌||◌, ◌==◌, List, [], ◌∷◌, ◌++◌, arith,
}
use saarctf_gameserver.Dispatcher.{
  Team, Service, Combination, is_connected, considered_teams, considered_services, with_services,
  product, dispatch_checker_scripts,
}
use saarctf_gameserver.Dispatcher.Results.{has_combination}

-- A team that is connected to the VPN, if that is asked for, and a service with an enabled checker.
unfoldable pub is_playing : Bool → List Team → ℕ → Bool
is_playing check_vpn [] i = false
is_playing check_vpn (t ∷ ts) i =
    (t.id == i && (not check_vpn || is_connected t)) || is_playing check_vpn ts i

unfoldable pub is_checked : List Service → ℕ → Bool
is_checked [] i = false
is_checked (s ∷ ss) i = (s.id == i && s.checker_enabled) || is_checked ss i

has_team : List Team → ℕ → Bool
has_team [] i = false
has_team (t ∷ ts) i = t.id == i || has_team ts i

has_service : List Service → ℕ → Bool
has_service [] i = false
has_service (s ∷ ss) i = s.id == i || has_service ss i

has-append :
    (ks ls : List Combination) (c : Combination)
    → has_combination (ks ++ ls) c ≡ (has_combination ks c || has_combination ls c)
unfolding has_combination
has-append [] ls c = refl
has-append (k ∷ ks) ls c = ground (arith, has-append ks ls c)

has-considered_teams :
    (check_vpn : Bool) (ts : List Team) (i : ℕ)
    → has_team (considered_teams check_vpn ts) i ≡ is_playing check_vpn ts i
unfolding considered_teams is_playing has_team
has-considered_teams check_vpn [] i = refl
has-considered_teams check_vpn (t ∷ ts) i = ground (arith, has-considered_teams check_vpn ts i)

has-considered_services :
    (ss : List Service) (i : ℕ) → has_service (considered_services ss) i ≡ is_checked ss i
unfolding considered_services is_checked has_service
has-considered_services [] i = refl
has-considered_services (s ∷ ss) i = ground (arith, has-considered_services ss i)

module _ (tick : ℕ) (c : Combination) where
  has-with_services :
      (t : Team) (ss : List Service)
      → has_combination (with_services tick t ss) c
        ≡ (t.id == c.team_id && (has_service ss c.service_id && tick == c.tick))
  unfolding with_services has_combination has_service
  has-with_services t [] = ground arith
  has-with_services t (s ∷ ss) = ground (arith, has-with_services t ss)

  has-product :
      (ts : List Team) (ss : List Service)
      → has_combination (product tick ts ss) c
        ≡ (has_team ts c.team_id && (has_service ss c.service_id && tick == c.tick))
  unfolding product has_combination has_team
  has-product [] ss = refl
  has-product (t ∷ ts) ss = ground (
    arith,
    has-append (with_services tick t ss) (product tick ts ss) c,
    has-with_services t ss,
    has-product ts ss,
  )

  -- A checker script is started for a team, a service and a tick if and only if the team is
  -- connected (or connections are not checked), the checker of the service is enabled, and it is
  -- the tick. It is assumed that shuffling keeps the elements of a list.
  pub dispatch_checker_scripts-exact :
      (shuffle : List Combination → List Combination)
      → ((ks : List Combination) → has_combination (shuffle ks) c ≡ has_combination ks c)
      → (check_vpn : Bool) (ts : List Team) (ss : List Service)
      → has_combination (dispatch_checker_scripts shuffle check_vpn ts ss tick) c
        ≡ (is_playing check_vpn ts c.team_id && (is_checked ss c.service_id && tick == c.tick))
  unfolding dispatch_checker_scripts
  dispatch_checker_scripts-exact shuffle keeps check_vpn ts ss = ground (
    arith,
    keeps (product tick (considered_teams check_vpn ts) (considered_services ss)),
    has-product (considered_teams check_vpn ts) (considered_services ss),
    has-considered_teams check_vpn ts c.team_id,
    has-considered_services ss c.service_id,
  )
