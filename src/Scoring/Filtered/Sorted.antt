-- ===== src/Scoring/Filtered/Sorted.antt =====
-- Ranks as counts of better teams, and sorting by them.
use saarctf_gameserver.Prelude.{
  ℕ, ◌+◌, ◌≤◌, ◌≡◌, refl, ◌∙◌, ap, Bool, true, false, leb, ltb, if_ind, if◌then◌else◌, List, [],
  ◌∷◌, All, All-map, arith,
}
use saarctf_gameserver.Scoring.Float.{Float}
use saarctf_gameserver.Scoring.Ranking.{TeamRanking}
use saarctf_gameserver.Scoring.Filtered.{insert, sort_by_rank}

module _ (F : Float) where
  abbrev pub Rows : Type 0
  Rows = List (TeamRanking F)

  -- the number of rows with a smaller rank
  abbrev pub smaller : ℕ → Rows → ℕ
  smaller k [] = 0
  smaller k (r ∷ rs) = if ltb r.rank k then smaller k rs + 1 else smaller k rs

  -- Every rank is one more than the number of better teams.
  abbrev pub IsRanked : Rows → Type 0
  IsRanked rows = All (λ r. r.rank ≡ smaller r.rank rows + 1) rows

  abbrev pub IsSorted : Rows → Type 0
  IsSorted [] = Unit
  IsSorted (r ∷ rs) = All (λ q. r.rank ≤ q.rank) rs × IsSorted rs

  insert-All :
      (P : TeamRanking F → Type 0) (r : TeamRanking F) (rs : Rows)
      → P r
      → All P rs
      → All P (insert F r rs)
  unfolding insert
  insert-All P r [] h k = (h, tt)
  insert-All P r (q ∷ qs) h (k, ks) =
      if_ind (All P) (leb r.rank q.rank) (r ∷ q ∷ qs) (q ∷ insert F r qs) (λ _. (h, (k, ks)))
        (λ _. (k, insert-All P r qs h ks))

  pub sort_by_rank-All :
      (P : TeamRanking F → Type 0) (rs : Rows) → All P rs → All P (sort_by_rank F rs)
  unfolding sort_by_rank
  sort_by_rank-All P [] h = tt
  sort_by_rank-All P (r ∷ rs) (h, hs) =
      insert-All P r (sort_by_rank F rs) h (sort_by_rank-All P rs hs)

  insert-IsSorted : (r : TeamRanking F) (rs : Rows) → IsSorted rs → IsSorted (insert F r rs)
  unfolding insert
  insert-IsSorted r [] h = (tt, tt)
  insert-IsSorted r (q ∷ qs) (h, hs) =
      if_ind IsSorted (leb r.rank q.rank) (r ∷ q ∷ qs) (q ∷ insert F r qs)
        (λ t.
          let le : r.rank ≤ q.rank = omega (arith, leb_le r.rank q.rank t) in
          (
            (
              le,
              All-map (λ x. q.rank ≤ x.rank) (λ x. r.rank ≤ x.rank) qs (λ x k. omega (arith, le, k))
                  h,
            ),
            (h, hs),
          ))
        (λ t. (
          insert-All (λ x. q.rank ≤ x.rank) r qs (le_of_not r.rank q.rank t) h,
          insert-IsSorted r qs hs,
        ))
    where
      leb_le : (a b : ℕ) → leb a b ≡ true → a ≤ b
      leb_le a b t = ground arith

      le_of_not : (a b : ℕ) → leb a b ≡ false → b ≤ a
      le_of_not a b t = ground arith

  pub sort_by_rank-IsSorted : (rs : Rows) → IsSorted (sort_by_rank F rs)
  unfolding sort_by_rank
  sort_by_rank-IsSorted [] = tt
  sort_by_rank-IsSorted (r ∷ rs) = insert-IsSorted r (sort_by_rank F rs) (sort_by_rank-IsSorted rs)

  both_orders :
      (a b : Bool) (n : ℕ)
      → (if a then (if b then n + 1 else n) + 1 else (if b then n + 1 else n))
        ≡ (if b then (if a then n + 1 else n) + 1 else (if a then n + 1 else n))
  both_orders true true n = refl
  both_orders true false n = refl
  both_orders false true n = refl
  both_orders false false n = refl

  smaller-insert :
      (k : ℕ) (r : TeamRanking F) (rs : Rows) → smaller k (insert F r rs) ≡ smaller k (r ∷ rs)
  unfolding insert
  smaller-insert k r [] = refl
  smaller-insert k r (q ∷ qs) =
      if_ind (λ (x : Rows). smaller k x ≡ smaller k (r ∷ q ∷ qs)) (leb r.rank q.rank) (r ∷ q ∷ qs)
        (q ∷ insert F r qs) (λ _. refl)
        (λ _.
          ap (λ n. if ltb q.rank k then n + 1 else n) (smaller-insert k r qs)
          ∙ both_orders (ltb q.rank k) (ltb r.rank k) (smaller k qs))

  pub smaller-sort_by_rank : (k : ℕ) (rs : Rows) → smaller k (sort_by_rank F rs) ≡ smaller k rs
  unfolding sort_by_rank
  smaller-sort_by_rank k [] = refl
  smaller-sort_by_rank k (r ∷ rs) =
      smaller-insert k r (sort_by_rank F rs)
      ∙ ap (λ n. if ltb r.rank k then n + 1 else n) (smaller-sort_by_rank k rs)
