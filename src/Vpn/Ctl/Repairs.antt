-- ===== src/Vpn/Ctl/Repairs.antt =====
-- The services and the database after the command `fix` of vpn/vpnctl.py.
use saarctf_gameserver.Prelude.{
  ℕ, ◌≡◌, refl, Bool, true, false, not, ◌&&◌, ◌||◌, if◌then◌else◌, List, [], ◌∷◌, arith, ap, ◌∙◌,
}
use saarctf_gameserver.Vpn.Ctl.System.{
  Service, vpn_selfhosted, vpn_cloudhosted, vpn_cloud_players, Team, contains, Systemctl, Db,
}
use saarctf_gameserver.Vpn.Ctl.Check.{VpnStatusCheck}
use saarctf_gameserver.Vpn.Ctl.Fix.{
  run_down_scripts, with_down, disconnected, reset_checks, start_services, stop_services,
  all_services, contains_id, disconnect, ids_of, World, active, start, stop, reset, reset_some, fix,
  command_fix,
}
use saarctf_gameserver.Vpn.Ctl.Plan.{
  team_of, contains-all_services, contains-start_services, contains-stop_services,
  contains_id-reset_checks, check, checks,
}

unreached :
    (c a b d : Bool) (t : Team)
    → (e f g : Bool) → a ≡ (c && e)
    → b ≡ (c && f)
    → d ≡ (c && g)
    → (if c then disconnected else with_down a b d t) ≡ (if c then disconnected else t)
unreached c a b d t e f g ha hb hd = ground (arith, ha, hb, hd)

with_down-reset :
    (r a b d : Bool) (t : Team)
    → with_down (not r && a) (not r && b) (not r && d) (if r then disconnected else t)
      ≡ (if r then disconnected else with_down a b d t)
with_down-reset true a b d t = refl
with_down-reset false a b d t = refl

module _ (S : Systemctl) where
  active-start :
      (us : List Service) (w : World S) (u : Service)
      → active S (start S false us w) u ≡ (contains us u || active S w u)
  unfolding start contains
  active-start [] w u = refl
  active-start (v ∷ us) w u = unfold contains in S.active-start (v ∷ us) w.systemd u

  active-stop :
      (us : List Service) (w : World S) (u : Service)
      → active S (stop S false us w) u ≡ (not (contains us u) && active S w u)
  unfolding stop contains
  active-stop [] w u = refl
  active-stop (v ∷ us) w u = S.active-stop (v ∷ us) w.systemd u

  db-start : (us : List Service) (w : World S) → (start S false us w).db ≡ w.db
  unfolding start
  db-start [] w = refl
  db-start (v ∷ us) w = refl

  db-stop :
      (us : List Service) (w : World S) (i : ℕ)
      → (stop S false us w).db i ≡ run_down_scripts us (active S w) w.db i
  unfolding stop run_down_scripts contains
  db-stop [] w i = ground arith
  db-stop (v ∷ us) w i = refl

  pub active-reset :
      (cs : List VpnStatusCheck) (w : World S) (u : Service)
      → active S (reset S false cs w) u ≡ (contains_id (ids_of cs) (team_of u) || active S w u)
  unfolding reset
  active-reset cs w u =
      let services = all_services (ids_of cs) in
      let w1 = stop S false services w in
      let w2 = record w1 { db = disconnect (ids_of cs) w1.db } in
      ground (
        arith,
        active-start services w2 u,
        active-stop services w u,
        contains-all_services (ids_of cs) u,
      )

  pub db-reset :
      (cs : List VpnStatusCheck) (w : World S) (i : ℕ)
      → (reset S false cs w).db i ≡ disconnect (ids_of cs) w.db i
  unfolding reset disconnect run_down_scripts
  db-reset cs w i =
      let services = all_services (ids_of cs) in
      let w1 = stop S false services w in
      let w2 = record w1 { db = disconnect (ids_of cs) w1.db } in
      ap (λ (db : Db). db i) (db-start services w2)
      ∙ ap (λ t. if contains_id (ids_of cs) i then disconnected else t) (db-stop services w i)
      ∙ unreached (contains_id (ids_of cs) i) _ _ _ (w.db i) _ _ _ (reached (vpn_selfhosted i) refl)
          (reached (vpn_cloudhosted i) refl) (reached (vpn_cloud_players i) refl)
    where
      reached :
          (u : Service)
          → team_of u ≡ i
          → (contains (all_services (ids_of cs)) u && active S w u)
            ≡ (contains_id (ids_of cs) i && active S w u)
      reached u e =
          ap (λ b. b && active S w u) (contains-all_services (ids_of cs) u)
          ∙ ap (λ j. contains_id (ids_of cs) j && active S w u) e

  active-reset_some :
      (cs : List VpnStatusCheck) (w : World S) (u : Service)
      → active S (reset_some S false cs w) u ≡ (contains_id (ids_of cs) (team_of u) || active S w u)
  unfolding reset_some
  active-reset_some [] w u = unfold contains_id in refl
  active-reset_some (c ∷ cs) w u = active-reset (c ∷ cs) w u

  db-reset_some :
      (cs : List VpnStatusCheck) (w : World S) (i : ℕ)
      → (reset_some S false cs w).db i ≡ disconnect (ids_of cs) w.db i
  unfolding reset_some
  db-reset_some [] w i = unfold disconnect contains_id in refl
  db-reset_some (c ∷ cs) w i = db-reset (c ∷ cs) w i

  module _ (w : World S) (ids : List ℕ) where
    abbrev pub before : ℕ → VpnStatusCheck
    before = check (active S w) w.db

    abbrev pub after : World S
    after = command_fix S false ids w

    -- What `fix` does to a service of one of the teams.
    pub active-command_fix :
        (u : Service)
        → contains_id ids (team_of u) ≡ true
        → active S after u ≡ (
            if (before (team_of u)).fix_needs_reset
            then true
            else not (contains (before (team_of u)).fix_stop_service u)
              && (contains (before (team_of u)).fix_start_service u || active S w u))
    unfolding command_fix fix
    active-command_fix u h =
        let cs = checks (active S w) w.db ids in
        let w1 = reset_some S false (reset_checks cs) w in
        let w2 = start S false (start_services cs) w1 in
        ground (
          arith,
          active-stop (stop_services cs) w2 u,
          active-start (start_services cs) w1 u,
          active-reset_some (reset_checks cs) w u,
          contains-stop_services (active S w) w.db ids u,
          contains-start_services (active S w) w.db ids u,
          contains_id-reset_checks (active S w) w.db ids (team_of u),
        )

    -- a server that `fix` stops while it runs
    abbrev pub stopped : ℕ → Service → Bool
    stopped i u =
        contains (before i).fix_stop_service u
        && (contains (before i).fix_start_service u || active S w u)

    abbrev started : World S
    started =
        let cs = checks (active S w) w.db ids in
        start S false (start_services cs) (reset_some S false (reset_checks cs) w)

    active-stopped :
        (u : Service)
        → contains_id ids (team_of u) ≡ true
        → (contains (stop_services (checks (active S w) w.db ids)) u && active S started u)
          ≡ (not (before (team_of u)).fix_needs_reset && stopped (team_of u) u)
    active-stopped u h =
        let cs = checks (active S w) w.db ids in
        ground (
          arith,
          active-start (start_services cs) (reset_some S false (reset_checks cs) w) u,
          active-reset_some (reset_checks cs) w u,
          contains-stop_services (active S w) w.db ids u,
          contains-start_services (active S w) w.db ids u,
          contains_id-reset_checks (active S w) w.db ids (team_of u),
        )

    db-reset_checks :
        (i : ℕ)
        → contains_id ids i ≡ true
        → (reset_some S false (reset_checks (checks (active S w) w.db ids)) w).db i
          ≡ (if (before i).fix_needs_reset then disconnected else w.db i)
    unfolding disconnect
    db-reset_checks i h =
        let cs = checks (active S w) w.db ids in
        db-reset_some (reset_checks cs) w i
        ∙ ap (λ b. if b then disconnected else w.db i)
            (contains_id-reset_checks (active S w) w.db ids i
              ∙ ap (λ b. b && (before i).fix_needs_reset) h)

    pub db-command_fix :
        (i : ℕ)
        → contains_id ids i ≡ true
        → after.db i ≡ (
            if (before i).fix_needs_reset
            then disconnected
            else with_down
                (stopped i (vpn_selfhosted i))
                (stopped i (vpn_cloudhosted i))
                (stopped i (vpn_cloud_players i))
                (w.db i))
    unfolding command_fix fix run_down_scripts
    db-command_fix i h =
        let cs = checks (active S w) w.db ids in
        let w1 = reset_some S false (reset_checks cs) w in
        let w2 = start S false (start_services cs) w1 in
        db-stop (stop_services cs) w2 i
        ∙ ap (λ (db : Db). run_down_scripts (stop_services cs) (active S w2) db i)
            (db-start (start_services cs) w1)
        ∙ (λ k.
            with_down (active-stopped (vpn_selfhosted i) h k)
              (active-stopped (vpn_cloudhosted i) h k) (active-stopped (vpn_cloud_players i) h k)
              (db-reset_checks i h k))
        ∙ with_down-reset (before i).fix_needs_reset (stopped i (vpn_selfhosted i))
            (stopped i (vpn_cloudhosted i)) (stopped i (vpn_cloud_players i)) (w.db i)
