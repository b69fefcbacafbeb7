-- ===== src/Scoreboard/Frozen.antt =====
-- controlserver/scoring/scoreboard.py: what the files of a frozen scoreboard depend on.
use saarctf_gameserver.Prelude.{
  ℕ, ◌<◌, ◌≡◌, refl, sym, ◌∙◌, ap, subst, true, Option, none, some, List, [], ◌∷◌, arith, ℤ, pos,
  pred,
}
use mathlib.Core.List.Permᴰ
use mathlib.Core.List.{Permᴰ}
use saarctf_gameserver.Scoring.Float.{Float, IsOrdered}
use saarctf_gameserver.Scoreboard.Entries.{
  collect, SameEntries, collect-perm, ShowsSame, sort_entries-perm, sort_entries-IsSorted,
}
use saarctf_gameserver.Scoring.Ranking.{TeamRanking}
use saarctf_gameserver.Scoreboard.{
  is_frozen, SubmittedFlag, Service, shown_flags, first_bloods, order_flags, get_first_blood_info,
  TickInformation, CheckerResults, statuses, service_entry, service_entries, frozen_entry,
  team_entry, ranking_by_team_id, cons?, team_entries, service_info, service_infos, with_entries,
  create_json_for_tick, Data, Scoreboard, previous_info, last_checker_results, create_scoreboard,
  TeamEntry,
}

module _ (F : Float) where
  abbrev team_ids : List (TeamRanking F) → List ℕ
  team_ids [] = []
  team_ids (r ∷ rs) = r.team_id ∷ team_ids rs

  service_entries_frozen :
      (info info' previous : TickInformation F) (last : List (CheckerResults F)) (t : ℕ)
      (services : List Service)
      → info.checker_results ≡ info'.checker_results
      → service_entries F true info previous last t services
        ≡ service_entries F true info' previous last t services
  unfolding service_entries service_entry
  service_entries_frozen info info' previous last t [] e = refl
  service_entries_frozen info info' previous last t (s ∷ ss) e = λ i.
      service_entry F true (info.team_points t s.id) (previous.team_points t s.id) (e i t s.id)
        (statuses F last t s.id)
      ∷ service_entries_frozen info info' previous last t ss e i

  -- The entry of a team in a frozen file, and the entries of a list of teams.
  abbrev entry :
      TickInformation F
      → TickInformation F
      → List (CheckerResults F)
      → List Service
      → ℕ
      → Option (TeamEntry F)
  entry info previous last services t =
      frozen_entry F previous services (service_entries F true info previous last t services)
        (ranking_by_team_id F previous.ranking t)

  team_entries-collect :
      (info previous : TickInformation F) (last : List (CheckerResults F)) (services : List Service)
      (rs : List (TeamRanking F))
      → team_entries F true info previous last services rs
        ≡ collect F (entry info previous last services) (team_ids rs)
  unfolding team_entries team_entry
  team_entries-collect info previous last services [] = refl
  team_entries-collect info previous last services (r ∷ rs) =
      ap (cons? F (entry info previous last services r.team_id))
        (team_entries-collect info previous last services rs)

  -- If the same teams are listed, their entries are the same, in another order.
  team_entries_frozen :
      (info info' previous : TickInformation F) (last : List (CheckerResults F))
      (services : List Service)
      → info.checker_results ≡ info'.checker_results
      → Permᴰ (team_ids info.ranking) (team_ids info'.ranking)
      → SameEntries F
          (team_entries F true info previous last services info.ranking)
          (team_entries F true info' previous last services info'.ranking)
  team_entries_frozen info info' previous last services c p =
      let same : (t : ℕ)
          → entry info previous last services t ≡ entry info' previous last services t =
        λ t.
          ap (λ es. frozen_entry F previous services es (ranking_by_team_id F previous.ranking t))
            (service_entries_frozen info info' previous last t services c) in
      subst (λ o. SameEntries F o (team_entries F true info' previous last services info'.ranking))
        (sym (
          team_entries-collect info previous last services info.ranking
          ∙ (λ i. collect F (λ t. same t i) (team_ids info.ranking))))
        (subst
          (SameEntries F (collect F (entry info' previous last services) (team_ids info.ranking)))
          (sym (team_entries-collect info' previous last services info'.ranking))
          (collect-perm F (entry info' previous last services) p))

  -- The flags that the two databases have up to the freeze are the same.
  service_infos_frozen :
      (level : ℕ) (flags flags' : List SubmittedFlag) (info info' previous : TickInformation F)
      (services : List Service)
      → shown_flags level previous.ticknumber flags ≡ shown_flags level previous.ticknumber flags'
      → service_infos F true level flags info previous services
        ≡ service_infos F true level flags' info' previous services
  unfolding service_info get_first_blood_info
  service_infos_frozen level flags flags' info info' previous [] h = refl
  service_infos_frozen level flags flags' info info' previous (s ∷ ss) h =
      let same = ap (λ fs. first_bloods level s.id (order_flags fs) [] []) h in
      ground (arith, same, service_infos_frozen level flags flags' info info' previous ss h)

  module _ (ordered : IsOrdered F) where
    with_entries_frozen :
        (level : ℕ) (flags flags' : List SubmittedFlag) (services : List Service)
        (info info' previous : TickInformation F) (o o' : Option (List (TeamEntry F)))
        → shown_flags level previous.ticknumber flags ≡ shown_flags level previous.ticknumber flags'
        → info.ticknumber ≡ info'.ticknumber
        → SameEntries F o o'
        → ShowsSame F
            (with_entries F true level flags info previous services o)
            (with_entries F true level flags' info' previous services o')
    unfolding with_entries
    with_entries_frozen level flags flags' services info info' previous none none f t p = tt
    with_entries_frozen level flags flags' services info info' previous none (some es') f t p =
        elim p [ ]
    with_entries_frozen level flags flags' services info info' previous (some es) none f t p =
        elim p [ ]
    with_entries_frozen level flags flags' services info info' previous (some es) (some es') f t p =
        record {
          same_tick = t;
          same_services = service_infos_frozen level flags flags' info info' previous services f;
          same_teams =
              Permᴰ.trans (sort_entries-perm F es)
                (Permᴰ.trans p (Permᴰ.symm (sort_entries-perm F es')));
          first_sorted = sort_entries-IsSorted F ordered es;
          second_sorted = sort_entries-IsSorted F ordered es';
        }

    create_json_frozen :
        (level : ℕ) (flags flags' : List SubmittedFlag) (services : List Service)
        (info info' previous : TickInformation F) (last : List (CheckerResults F))
        → shown_flags level previous.ticknumber flags ≡ shown_flags level previous.ticknumber flags'
        → info.ticknumber ≡ info'.ticknumber
        → info.checker_results ≡ info'.checker_results
        → Permᴰ (team_ids info.ranking) (team_ids info'.ranking)
        → ShowsSame F
            (create_json_for_tick F level flags services info previous last true)
            (create_json_for_tick F level flags' services info' previous last true)
    unfolding create_json_for_tick
    create_json_frozen level flags flags' services info info' previous last f t c r =
        with_entries_frozen level flags flags' services info info' previous _ _ f t
          (team_entries_frozen info info' previous last services c r)

  -- What a frozen scoreboard of a tick may read: the data at the freeze, which teams there
  -- are, the results of checkers in the last four ticks, and the flags up to the freeze.
  pub record Agree (level freeze : ℕ) (tick : ℤ) (db db' : Data F) : Type 0 where
    pub at_freeze : db.fetch (pos freeze) ≡ db'.fetch (pos freeze)
    pub ticknumber : (db.fetch tick).ticknumber ≡ (db'.fetch tick).ticknumber
    pub teams : Permᴰ (team_ids (db.fetch tick).ranking) (team_ids (db'.fetch tick).ranking)
    pub checks : (db.fetch tick).checker_results ≡ (db'.fetch tick).checker_results
    pub checks_1 : (db.fetch (pred tick)).checker_results ≡ (db'.fetch (pred tick)).checker_results
    pub checks_2 :
        (db.fetch (pred (pred tick))).checker_results
        ≡ (db'.fetch (pred (pred tick))).checker_results
    pub checks_3 :
        (db.fetch (pred (pred (pred tick)))).checker_results
        ≡ (db'.fetch (pred (pred (pred tick)))).checker_results
    pub services : db.services ≡ db'.services
    pub flags :
        shown_flags level (db.fetch (pos freeze)).ticknumber db.flags
        ≡ shown_flags level (db.fetch (pos freeze)).ticknumber db'.flags

  previous_info_frozen :
      (b : Scoreboard F) (freeze : ℕ) (db : Data F) (tick : ℤ)
      → is_frozen b.freeze tick b.public ≡ true
      → b.freeze ≡ some freeze
      → 0 < freeze
      → previous_info F b db tick ≡ db.fetch (pos freeze)
  unfolding previous_info
  previous_info_frozen b freeze db tick frozen f h = ground arith

  -- Let two databases agree on the data of the tick of the freeze, the flags up to it, the
  -- services, which teams the ranking of the tick lists (in any order), and the results of
  -- checkers in the tick and the three before it. Then a public scoreboard writes for the tick,
  -- after a freeze at a tick above 0, either no file for both (it ends with an exception), or
  -- files with the same services and, for each team, the same entry with its rank and points. Both
  -- files list the entries by the points that they show, so they can only differ in the order of
  -- teams with equal points. It is assumed that the comparison of points is a total order.
  pub create_scoreboard_frozen :
      (b : Scoreboard F) (freeze : ℕ) (tick : ℤ) (db db' : Data F)
      → IsOrdered F
      → b.freeze ≡ some freeze
      → 0 < freeze
      → is_frozen b.freeze tick b.public ≡ true
      → Agree b.firstblood_level freeze tick db db'
      → ShowsSame F (create_scoreboard F b db tick) (create_scoreboard F b db' tick)
  unfolding create_scoreboard
  create_scoreboard_frozen b freeze tick db db' ordered f h frozen a =
      subst (λ o. ShowsSame F o (create_scoreboard F b db' tick)) (sym first)
        (subst (ShowsSame F _) (sym second) (
          create_json_frozen ordered b.firstblood_level db.flags db'.flags db.services
            (db.fetch tick) (db'.fetch tick) (db.fetch (pos freeze))
            (last_checker_results F db tick) a.flags a.ticknumber a.checks a.teams))
    where
      first :
          create_scoreboard F b db tick
          ≡ create_json_for_tick F b.firstblood_level db.flags db.services
              (db.fetch tick)
              (db.fetch (pos freeze))
              (last_checker_results F db tick)
              true
      first = λ i.
          create_json_for_tick F b.firstblood_level db.flags db.services (db.fetch tick)
            (previous_info_frozen b freeze db tick frozen f h i) (last_checker_results F db tick)
            (frozen i)

      second :
          create_scoreboard F b db' tick
          ≡ create_json_for_tick F b.firstblood_level db'.flags db.services
              (db'.fetch tick)
              (db.fetch (pos freeze))
              (last_checker_results F db tick)
              true
      second =
          (λ i.
            create_json_for_tick F b.firstblood_level db'.flags db'.services (db'.fetch tick)
              (previous_info_frozen b freeze db' tick frozen f h i)
              (last_checker_results F db' tick) (frozen i))
          ∙ sym (λ i.
            create_json_for_tick F b.firstblood_level db'.flags (a.services i) (db'.fetch tick)
              (a.at_freeze i) (a.checks_1 i ∷ a.checks_2 i ∷ a.checks_3 i ∷ []) true)
