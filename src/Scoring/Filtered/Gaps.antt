-- ===== src/Scoring/Filtered/Gaps.antt =====
-- The ranks of the filtered ranking.
use saarctf_gameserver.Prelude.{
  ℕ, ◌+◌, ◌≤◌, ◌<◌, ◌≡◌, ◌≢◌, refl, sym, ◌∙◌, ap, Bool, true, false, Bool-cases, inl, inr, ltb,
  if_ind, if◌then◌else◌, List, [], ◌∷◌, map, All, All-map, All-zip, arith, pos, sub_ℕ,
}
use saarctf_gameserver.Scoring.Float.{Float}
use saarctf_gameserver.Scoring.Ranking.{TeamRanking}
use saarctf_gameserver.Scoring.Filtered.{
  FilteredRanking, sort_by_rank, nop_points, with_rank, leave_out, get_ranking_for_tick,
}
use saarctf_gameserver.Scoring.Filtered.Sorted.{
  Rows, smaller, IsRanked, IsSorted, sort_by_rank-All, sort_by_rank-IsSorted, smaller-sort_by_rank,
}

module _ (F : Float) (excluded : ℕ → Bool) where
  abbrev pub kept : Rows F → Rows F
  kept [] = []
  kept (r ∷ rs) = if excluded r.team_id then kept rs else r ∷ kept rs

  abbrev gone : Rows F → Rows F
  gone [] = []
  gone (r ∷ rs) = if excluded r.team_id then r ∷ gone rs else gone rs

  -- A team that is left out is not tied with one that stays.
  abbrev pub IsApart : TeamRanking F → TeamRanking F → Type 0
  IsApart x r = excluded x.team_id ≡ true → excluded r.team_id ≡ false → x.rank ≢ r.rank

  abbrev pub Untied : Rows F → Type 0
  Untied rows = All (λ x. All (IsApart x) rows) rows

  add_if :
      (c : Bool) (n m g : ℕ)
      → n ≡ m + g
      → ((if c then n + 1 else n) ≡ m + (if c then g + 1 else g))
        × ((if c then n + 1 else n) ≡ (if c then m + 1 else m) + g)
  add_if true n m g h = (omega (arith, h), omega (arith, h))
  add_if false n m g h = (h, h)

  smaller-split :
      (k : ℕ) (rs : Rows F) → smaller F k rs ≡ smaller F k (kept rs) + smaller F k (gone rs)
  smaller-split k [] = omega arith
  smaller-split k (r ∷ rs) = go (smaller-split k rs) (excluded r.team_id)
    where
      go :
          smaller F k rs ≡ smaller F k (kept rs) + smaller F k (gone rs)
          → (b : Bool)
          → smaller F k (r ∷ rs)
            ≡ smaller F k (if b then kept rs else r ∷ kept rs)
              + smaller F k (if b then r ∷ gone rs else gone rs)
      go h true = (add_if (ltb r.rank k) _ _ _ h).0
      go h false = (add_if (ltb r.rank k) _ _ _ h).1

  kept-All : (P : TeamRanking F → Type 0) (rs : Rows F) → All P rs → All P (kept rs)
  kept-All P [] h = tt
  kept-All P (r ∷ rs) (h, hs) =
      if_ind (All P) (excluded r.team_id) (kept rs) (r ∷ kept rs) (λ _. kept-All P rs hs)
        (λ _. (h, kept-All P rs hs))

  map-cong :
      (f g : TeamRanking F → FilteredRanking F) (rs : Rows F)
      → All (λ r. f r ≡ g r) rs
      → map f rs ≡ map g rs
  map-cong f g [] h = refl
  map-cong f g (r ∷ rs) (h, hs) =
      ap (λ x. x ∷ map f rs) h ∙ ap (λ xs. g r ∷ xs) (map-cong f g rs hs)

  -- No team that was left out comes after a team in a sorted list and is better.
  none-smaller : (k : ℕ) (rs : Rows F) → All (λ q. k ≤ q.rank) rs → smaller F k (gone rs) ≡ 0
  none-smaller k [] h = refl
  none-smaller k (r ∷ rs) (h, hs) =
      if_ind (λ (x : Rows F). smaller F k x ≡ 0) (excluded r.team_id) (r ∷ gone rs) (gone rs)
        (λ _. not_counted r.rank k _ h (none-smaller k rs hs)) (λ _. none-smaller k rs hs)
    where
      not_counted : (a k n : ℕ) → k ≤ a → n ≡ 0 → (if ltb a k then n + 1 else n) ≡ 0
      not_counted a k n h e = ground arith

  smaller-gone :
      (k : ℕ) (r : TeamRanking F) (rs : Rows F)
      → excluded r.team_id ≡ true
      → r.rank < k
      → smaller F k (gone (r ∷ rs)) ≡ smaller F k (gone rs) + 1
  smaller-gone k r rs t l =
      ap (λ b. smaller F k (if b then r ∷ gone rs else gone rs)) t
      ∙ ap (λ b. if b then smaller F k (gone rs) + 1 else smaller F k (gone rs)) (lt→ltb r.rank k l)
    where
      lt→ltb : (a b : ℕ) → a < b → ltb a b ≡ true
      lt→ltb a b h = ground arith

  every : (P : TeamRanking F → Type 0) (rs : Rows F) → ((r : TeamRanking F) → P r) → All P rs
  every P [] h = tt
  every P (r ∷ rs) h = (h r, every P rs h)

  module _ (offset : F.Real) (G : ℕ → ℕ) where
    -- The number of better teams that were left out is known before, and removed is as large.
    abbrev Counts : ℕ → Rows F → TeamRanking F → Type 0
    Counts removed rs r =
        excluded r.team_id ≡ false → G r.rank ≡ removed + smaller F r.rank (gone rs)

    abbrev reranked : TeamRanking F → FilteredRanking F
    reranked r = with_rank F excluded offset (sub_ℕ r.rank (G r.rank)) r

    Counts-gone :
        (removed : ℕ) (r : TeamRanking F) (rs : Rows F) (q : TeamRanking F)
        → excluded r.team_id ≡ true
        → r.rank ≤ q.rank
        → IsApart r q
        → Counts removed (r ∷ rs) q
        → Counts (removed + 1) rs q
    Counts-gone removed r rs q t le apart c e =
        omega (arith, c e, smaller-gone q.rank r rs t (omega (arith, le, apart t e)))

    Counts-kept :
        (removed : ℕ) (r : TeamRanking F) (rs : Rows F) (q : TeamRanking F)
        → excluded r.team_id ≡ false
        → Counts removed (r ∷ rs) q
        → Counts removed rs q
    Counts-kept removed r rs q f c e =
        c e ∙ ap (λ b. removed + smaller F q.rank (if b then r ∷ gone rs else gone rs)) f

    leave_out-lem :
        (rs : Rows F) (removed : ℕ)
        → IsSorted F rs
        → Untied rs
        → All (Counts removed rs) rs
        → leave_out F excluded offset removed rs ≡ map reranked (kept rs)
    unfolding leave_out
    leave_out-lem [] removed s u c = refl
    leave_out-lem (r ∷ rs) removed (s, ss) (u, us) (c, cs) =
        elim (Bool-cases (excluded r.team_id)) [
          | inl t ↦
              ap step t ∙ leave_out-lem rs (removed + 1) ss untied (later t) ∙ sym (ap mapped t)
          | inr f ↦
              ap step f
              ∙ ap
                  (λ n.
                    with_rank F excluded offset (sub_ℕ r.rank n) r
                    ∷ leave_out F excluded offset removed rs)
                  (count f)
              ∙ ap (λ xs. reranked r ∷ xs)
                  (leave_out-lem rs removed ss untied (
                    All-map (Counts removed (r ∷ rs)) (Counts removed rs) rs
                      (λ q. Counts-kept removed r rs q f) cs))
              ∙ sym (ap mapped f)
        ]
      where
        step : Bool → List (FilteredRanking F)
        step b =
            if b
            then leave_out F excluded offset (removed + 1) rs
            else with_rank F excluded offset (sub_ℕ r.rank removed) r
              ∷ leave_out F excluded offset removed rs

        mapped : Bool → List (FilteredRanking F)
        mapped b = map reranked (if b then kept rs else r ∷ kept rs)

        untied : Untied rs
        untied =
            All-map (λ x. All (IsApart x) (r ∷ rs)) (λ x. All (IsApart x) rs) rs (λ x h. h.1) us

        later : excluded r.team_id ≡ true → All (Counts (removed + 1) rs) rs
        later t =
            All-map (λ q. (r.rank ≤ q.rank) × (IsApart r q × Counts removed (r ∷ rs) q))
              (Counts (removed + 1) rs) rs
              (λ q (le, (apart, k)). Counts-gone removed r rs q t le apart k)
              (All-zip (λ q. r.rank ≤ q.rank) _ rs s
                (All-zip (IsApart r) (Counts removed (r ∷ rs)) rs u.1 cs))

        count : excluded r.team_id ≡ false → removed ≡ G r.rank
        count f = omega (arith, Counts-kept removed r rs r f c f, none-smaller r.rank rs s)

  sub_gap : (a m g : ℕ) → a ≡ m + g + 1 → sub_ℕ a g ≡ pos (m + 1)
  sub_gap a m g h = ground arith

  leave_out-gaps :
      (offset : F.Real) (rs : Rows F)
      → IsSorted F rs
      → Untied rs
      → IsRanked F rs
      → leave_out F excluded offset 0 rs
        ≡ map (λ r. with_rank F excluded offset (pos (smaller F r.rank (kept rs) + 1)) r) (kept rs)
  leave_out-gaps offset rs s u h =
      leave_out-lem offset (λ k. smaller F k (gone rs)) rs 0 s u
        (every (Counts offset (λ k. smaller F k (gone rs)) 0 rs) rs (λ r _. omega arith))
      ∙ map-cong _ _ (kept rs) (
          kept-All _ rs (
            All-map _ _ rs
              (λ r e.
                ap (λ k. with_rank F excluded offset k r)
                  (sub_gap r.rank (smaller F r.rank (kept rs)) (smaller F r.rank (gone rs))
                    (omega (arith, e, smaller-split r.rank rs))))
              h))

  -- If every rank of the full ranking is one more than the number of teams with a smaller rank,
  -- and no team that is left out has the rank of a team that stays, then the filtered ranking is
  -- the list of the teams that stay in the order of their ranks, each with one more than the
  -- number of these teams with a smaller rank, and with its points less those of the NOP team (if
  -- this is asked for), but not below 0.
  pub get_ranking_for_tick-IsRanked :
      (subtract_nop_points : Bool) (nop_team_id : ℕ) (rankings : Rows F)
      → IsRanked F rankings
      → Untied rankings
      → get_ranking_for_tick F excluded subtract_nop_points nop_team_id rankings
        ≡ map
            (λ r.
              with_rank F excluded
                (if subtract_nop_points
                  then nop_points F nop_team_id (sort_by_rank F rankings)
                  else F.of_ℕ 0)
                (pos (smaller F r.rank (kept (sort_by_rank F rankings)) + 1))
                r)
            (kept (sort_by_rank F rankings))
  unfolding get_ranking_for_tick
  get_ranking_for_tick-IsRanked subtract_nop_points nop_team_id rankings h u =
      leave_out-gaps _ (sort_by_rank F rankings) (sort_by_rank-IsSorted F rankings)
        (sort_by_rank-All F (λ x. All (IsApart x) (sort_by_rank F rankings)) rankings
          (All-map (λ x. All (IsApart x) rankings) (λ x. All (IsApart x) (sort_by_rank F rankings))
            rankings (λ x. sort_by_rank-All F (IsApart x) rankings) u))
        (sort_by_rank-All F _ rankings (
          All-map _ _ rankings
            (λ r e. e ∙ ap (λ n. n + 1) (sym (smaller-sort_by_rank F r.rank rankings))) h))
