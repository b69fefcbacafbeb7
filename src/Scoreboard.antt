-- ===== src/Scoreboard.antt =====
-- controlserver/scoring/scoreboard.py: the files of the scoreboard as data. Numbers stand for texts,
-- floats are a parameter. The points of a pair of a team and a service are a function, since
-- `get_results_for_tick_lite` has all pairs. Locks, logos and static files are left out.
mod FirstBloods
pub mod Statistics
pub mod Entries
pub mod Frozen
mod Examples
unfoldable pub use FirstBloods.*
use saarctf_gameserver.Prelude.{
  ℕ, zero, suc, ◌+◌, ◌-◌, ◌≤◌, ◌≡◌, Bool, true, false, not, ◌&&◌, ◌||◌, ltb, leb, ◌==◌, Option,
  none, some, if◌then◌else◌, List, [], ◌∷◌, ◌++◌, length, ℤ, pos, negsuc, pred, sub_ℕ, leb_ℤ, ltb_ℤ,
}
use saarctf_gameserver.Scoring.Float.{Float}
use saarctf_gameserver.Scoring.Ranking.{TeamRanking}

module _ (F : Float) where
  open F use {Real, of_ℕ, add, sub, lt}

  pub record TeamPointsLite : Type 0 where
    pub flag_captured_count : ℕ
    pub flag_stolen_count : ℕ
    pub off_points : Real
    pub def_points : Real
    pub sla_points : Real

  -- `keys` are the pairs in the dictionary of the points.
  pub record TickInformation : Type 0 where
    pub ticknumber : ℤ
    pub ranking : List (TeamRanking F)
    pub keys : List (ℕ × ℕ)
    pub team_points : ℕ → ℕ → TeamPointsLite
    pub checker_results : ℕ → ℕ → CheckerResultLite

  -- `ranking_by_team_id`: the last one of a team stays. `none` is a KeyError.
  unfoldable pub ranking_by_team_id : List (TeamRanking F) → ℕ → Option (TeamRanking F)
  ranking_by_team_id [] i = none
  ranking_by_team_id (r ∷ rs) i = elim (ranking_by_team_id rs i) [
    | some q ↦ some q
    | none ↦ if r.team_id == i then some r else none
  ]

  -- `get_attacker_victim_count`, for a service: teams with more flags than before
  unfoldable pub count_more :
      (TeamPointsLite → ℕ) → ℕ → TickInformation → TickInformation → List (ℕ × ℕ) → ℕ
  count_more column service info previous [] = 0
  count_more column service info previous ((t, s) ∷ keys) =
      let more =
        s == service && ltb (column (previous.team_points t s)) (column (info.team_points t s)) in
      (if more then 1 else 0) + count_more column service info previous keys

  abbrev pub attackers : ℕ → TickInformation → TickInformation → ℕ
  attackers service info previous =
      count_more (λ p. p.flag_captured_count) service info previous info.keys

  abbrev pub victims : ℕ → TickInformation → TickInformation → ℕ
  victims service info previous =
      count_more (λ p. p.flag_stolen_count) service info previous info.keys

  -- the entry of a team and a service: `do`, `dst` and so on are the differences
  pub record ServiceEntry : Type 0 where
    pub o : Real
    pub d : Real
    pub s : Real
    pub d_o : Real
    pub d_d : Real
    pub d_s : Real
    pub st : ℕ
    pub cap : ℕ
    pub d_st : ℤ
    pub d_cap : ℤ
    pub c : ℕ
    pub m : ℕ
    pub dc : List ℕ

  pub record TeamEntry : Type 0 where
    pub team_id : ℕ
    pub rank : ℕ
    pub points : Real
    pub services : List ServiceEntry
    pub o : Real
    pub d : Real
    pub s : Real
    pub d_o : Real
    pub d_d : Real
    pub d_s : Real

  -- `none` is a question mark.
  pub record ServiceInfo : Type 0 where
    pub name : Option ℕ
    pub attackers : Option ℕ
    pub victims : Option ℕ
    pub first_blood : List FirstBlood
    pub flag_stores : ℕ
    pub flag_stores_exploited : ℕ

  abbrev sum3 : (TeamPointsLite → Real) → List TeamPointsLite → Real → Real
  sum3 column [] sum = sum
  sum3 column (p ∷ ps) sum = sum3 column ps (add sum (column p))

  -- `x += ...` over the services, from 0
  unfoldable pub total : (TeamPointsLite → Real) → List TeamPointsLite → Real
  total column ps = sum3 column ps (of_ℕ 0)

  abbrev diff : ℕ → ℕ → ℤ
  diff a b = sub_ℕ a b

  abbrev pub results_of : TickInformation → ℕ → List Service → List TeamPointsLite
  results_of info t [] = []
  results_of info t (s ∷ ss) = info.team_points t s.id ∷ results_of info t ss

  -- the results of the last checkers, for a team and a service
  abbrev pub CheckerResults : Type 0
  CheckerResults = ℕ → ℕ → CheckerResultLite

  abbrev statuses : List CheckerResults → ℕ → ℕ → List ℕ
  statuses [] t s = []
  statuses (r ∷ rs) t s = (r t s).status ∷ statuses rs t s

  unfoldable pub service_entry :
      Bool → TeamPointsLite → TeamPointsLite → CheckerResultLite → List ℕ → ServiceEntry
  service_entry true pts prev_pts check dc = record {
    o = prev_pts.off_points;
    d = prev_pts.def_points;
    s = prev_pts.sla_points;
    d_o = of_ℕ 0;
    d_d = of_ℕ 0;
    d_s = of_ℕ 0;
    st = prev_pts.flag_stolen_count;
    cap = prev_pts.flag_captured_count;
    d_st = pos 0;
    d_cap = pos 0;
    c = check.status;
    m = check.message;
    dc = dc;
  }
  service_entry false pts prev_pts check dc = record {
    o = pts.off_points;
    d = pts.def_points;
    s = pts.sla_points;
    d_o = sub pts.off_points prev_pts.off_points;
    d_d = sub pts.def_points prev_pts.def_points;
    d_s = sub pts.sla_points prev_pts.sla_points;
    st = pts.flag_stolen_count;
    cap = pts.flag_captured_count;
    d_st = diff pts.flag_stolen_count prev_pts.flag_stolen_count;
    d_cap = diff pts.flag_captured_count prev_pts.flag_captured_count;
    c = check.status;
    m = check.message;
    dc = dc;
  }

  unfoldable pub service_entries :
      Bool
      → TickInformation
      → TickInformation
      → List CheckerResults
      → ℕ
      → List Service
      → List ServiceEntry
  unfolding service_entry
  service_entries frozen info previous last t [] = []
  service_entries frozen info previous last t (s ∷ ss) =
      service_entry frozen (info.team_points t s.id) (previous.team_points t s.id)
        (info.checker_results t s.id) (statuses last t s.id)
      ∷ service_entries frozen info previous last t ss

  -- The entry of a team in a frozen scoreboard. `none` is a KeyError, or a ValueError as there are
  -- no services.
  unfoldable pub frozen_entry :
      TickInformation → List Service → List ServiceEntry → Option (TeamRanking F) → Option TeamEntry
  unfolding total
  frozen_entry previous services entries none = none
  frozen_entry previous [] entries (some q) = none
  frozen_entry previous (s ∷ ss) entries (some q) =
      let results = results_of previous q.team_id (s ∷ ss) in
      some (record {
        team_id = q.team_id;
        rank = q.rank;
        points = q.points;
        services = entries;
        o = total (λ p. p.off_points) results;
        d = total (λ p. p.def_points) results;
        s = total (λ p. p.sla_points) results;
        d_o = of_ℕ 0;
        d_d = of_ℕ 0;
        d_s = of_ℕ 0;
      })

  unfoldable pub live_entry :
      TickInformation
      → TickInformation
      → List Service
      → List ServiceEntry
      → TeamRanking F
      → TeamEntry
  unfolding total
  live_entry info previous services entries r =
      let now = results_of info r.team_id services in
      let before = results_of previous r.team_id services in
      let o = total (λ p. p.off_points) now in
      let d = total (λ p. p.def_points) now in
      let s = total (λ p. p.sla_points) now in
      record {
        team_id = r.team_id;
        rank = r.rank;
        points = r.points;
        services = entries;
        o = o;
        d = d;
        s = s;
        d_o = sub o (total (λ p. p.off_points) before);
        d_d = sub d (total (λ p. p.def_points) before);
        d_s = sub s (total (λ p. p.sla_points) before);
      }

  unfoldable pub team_entry :
      Bool
      → TickInformation
      → TickInformation
      → List CheckerResults
      → List Service
      → TeamRanking F
      → Option TeamEntry
  unfolding service_entries frozen_entry live_entry ranking_by_team_id
  team_entry true info previous last services r =
      frozen_entry previous services (service_entries true info previous last r.team_id services)
        (ranking_by_team_id previous.ranking r.team_id)
  team_entry false info previous last services r = some (
      live_entry info previous services
        (service_entries false info previous last r.team_id services) r)

  abbrev pub cons? {ℓ} : {A : Type ℓ} → Option A → Option (List A) → Option (List A)
  cons? none xs = none
  cons? (some x) none = none
  cons? (some x) (some xs) = some (x ∷ xs)

  unfoldable pub team_entries :
      Bool
      → TickInformation
      → TickInformation
      → List CheckerResults
      → List Service
      → List (TeamRanking F)
      → Option (List TeamEntry)
  unfolding team_entry
  team_entries frozen info previous last services [] = some []
  team_entries frozen info previous last services (r ∷ rs) =
      cons? (team_entry frozen info previous last services r)
        (team_entries frozen info previous last services rs)

  -- `sort(key=points, reverse=True)` keeps the order of entries with equal points.
  unfoldable pub insert_entry : TeamEntry → List TeamEntry → List TeamEntry
  insert_entry e [] = e ∷ []
  insert_entry e (q ∷ qs) = if lt e.points q.points then q ∷ insert_entry e qs else e ∷ q ∷ qs

  unfoldable pub sort_entries : List TeamEntry → List TeamEntry
  unfolding insert_entry
  sort_entries [] = []
  sort_entries (e ∷ es) = insert_entry e (sort_entries es)

  abbrev exploited : ℕ → List ℕ → ℕ
  exploited num_payloads payloads =
      if ltb 1 num_payloads then length payloads else elim payloads [ [] ↦ 0 | _ ∷ _ ↦ 1 ]

  -- The flags are in the database; `level` is `self.firstblood_level`.
  unfoldable pub service_info :
      Bool → ℕ → List SubmittedFlag → TickInformation → TickInformation → Service → ServiceInfo
  unfolding get_first_blood_info count_more
  service_info true level flags info previous s =
      let (entries, payloads) = get_first_blood_info level previous.ticknumber flags s.id in
      record {
        name = some s.name;
        attackers = none;
        victims = none;
        first_blood = entries;
        flag_stores = if ltb 1 s.num_payloads then s.num_payloads else 1;
        flag_stores_exploited = exploited s.num_payloads payloads;
      }
  service_info false level flags info previous s =
      let (entries, payloads) = get_first_blood_info level info.ticknumber flags s.id in
      record {
        name = if leb_ℤ (pos 0) info.ticknumber then some s.name else none;
        attackers = some (attackers s.id info previous);
        victims = some (victims s.id info previous);
        first_blood = entries;
        flag_stores = if ltb 1 s.num_payloads then s.num_payloads else 1;
        flag_stores_exploited = exploited s.num_payloads payloads;
      }

  pub record RoundJson : Type 0 where
    pub tick : ℤ
    pub scoreboard : List TeamEntry
    pub services : List ServiceInfo

  abbrev service_infos :
      Bool
      → ℕ
      → List SubmittedFlag
      → TickInformation
      → TickInformation
      → List Service
      → List ServiceInfo
  service_infos frozen level flags info previous [] = []
  service_infos frozen level flags info previous (s ∷ ss) =
      service_info frozen level flags info previous s
      ∷ service_infos frozen level flags info previous ss

  unfoldable pub with_entries :
      Bool
      → ℕ
      → List SubmittedFlag
      → TickInformation
      → TickInformation
      → List Service
      → Option (List TeamEntry)
      → Option RoundJson
  unfolding service_info sort_entries
  with_entries frozen level flags info previous services none = none
  with_entries frozen level flags info previous services (some es) = some (record {
    tick = info.ticknumber;
    scoreboard = if frozen then sort_entries es else es;
    services = service_infos frozen level flags info previous services;
  })

  -- `__create_json_for_tick`
  unfoldable pub create_json_for_tick :
      ℕ
      → List SubmittedFlag
      → List Service
      → TickInformation
      → TickInformation
      → List CheckerResults
      → Bool
      → Option RoundJson
  unfolding with_entries team_entries
  create_json_for_tick level flags services info previous last frozen =
      with_entries frozen level flags info previous services
        (team_entries frozen info previous last services info.ranking)

  -- What a scoreboard reads from the database, by the tick (`__fetch_data`).
  pub record Data : Type 0 where
    pub fetch : ℤ → TickInformation
    pub flags : List SubmittedFlag
    pub services : List Service

  pub record Scoreboard : Type 0 where
    pub public : Bool
    pub firstblood_level : ℕ
    pub freeze : Option ℕ

  -- `if scoreboard_is_frozen and config.SCOREBOARD_FREEZE`: a freeze after tick 0 counts as none.
  unfoldable pub previous_info : Scoreboard → Data → ℤ → TickInformation
  unfolding is_frozen
  previous_info b db tick =
      let previous = db.fetch (pred tick) in
      elim b.freeze [
        | none ↦ previous
        | some freeze ↦
            if is_frozen b.freeze tick b.public && ltb 0 freeze
            then db.fetch (pos freeze)
            else previous
      ]

  abbrev pub last_checker_results : Data → ℤ → List CheckerResults
  last_checker_results db tick =
      (db.fetch (pred tick)).checker_results
      ∷ (db.fetch (pred (pred tick))).checker_results
      ∷ (db.fetch (pred (pred (pred tick)))).checker_results
      ∷ []

  -- the file of a round that `create_scoreboard` writes
  unfoldable pub create_scoreboard : Scoreboard → Data → ℤ → Option RoundJson
  unfolding create_json_for_tick previous_info
  create_scoreboard b db tick =
      create_json_for_tick b.firstblood_level db.flags db.services (db.fetch tick)
        (previous_info b db tick) (last_checker_results db tick) (is_frozen b.freeze tick b.public)
