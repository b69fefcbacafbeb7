-- ===== src/Scoring/Ranking/Ranks.antt =====
-- The contract of `_order_by_points` (controlserver/scoring/scoring.py).
use mathlib.Core.List.Perm
use mathlib.Core.List.{Perm, map}
use saarctf_gameserver.Prelude.{
  ℕ, ◌+◌, ◌≡◌, refl, Option, none, List, [], ◌∷◌, All, arith, Bool-cases, inl, inr, ap,
}
use saarctf_gameserver.Scoring.Float.{Float, IsOrdered}
use saarctf_gameserver.Scoring.Ranking.{
  TeamRanking, insert, sort_by_points, give_ranks, order_by_points,
}
use saarctf_gameserver.Scoring.Ranking.Order.{
  better, positive, Below, IsSorted, IsRanked, give_ranks_lem, better_sort, sort-IsSorted, All-imp,
}

module _ (F : Float) where
  open F use {Real, of_ℕ, lt}

  -- the team and its points
  abbrev pub entry : TeamRanking F → ℕ × Real
  entry r = (r.team_id, r.points)

  insert-perm : (r : TeamRanking F) (rs : List (TeamRanking F)) → Perm (insert F r rs) (r ∷ rs)
  unfolding insert
  insert-perm r [] = Perm.refl (r ∷ [])
  insert-perm r (q ∷ qs) = elim (Bool-cases (lt r.points q.points)) [
    | inl less ↦ rw less (Perm.trans (Perm.cons q (insert-perm r qs)) (Perm.swap r q qs))
    | inr more ↦ rw more (Perm.refl (r ∷ q ∷ qs))
  ]

  sort-perm : (rs : List (TeamRanking F)) → Perm (sort_by_points F rs) rs
  unfolding sort_by_points
  sort-perm [] = Perm.refl []
  sort-perm (r ∷ rs) = Perm.trans (insert-perm r (sort_by_points F rs)) (Perm.cons r (sort-perm rs))

  entries-give_ranks :
      (rs : List (TeamRanking F)) (i : ℕ) (previous : Option (TeamRanking F))
      → map entry (give_ranks F i previous rs) ≡ map entry rs
  unfolding give_ranks
  entries-give_ranks [] i previous = refl
  entries-give_ranks (r ∷ rs) i previous = ap (λ es. entry r ∷ es) (entries-give_ranks rs _ _)

  module _ (laws : IsOrdered F) where
    give_ranks-Below :
        (p : Real) (rs : List (TeamRanking F)) (i : ℕ) (previous : Option (TeamRanking F))
        → Below F laws p rs
        → Below F laws p (give_ranks F i previous rs)
    unfolding give_ranks
    give_ranks-Below p [] i previous h = tt
    give_ranks-Below p (r ∷ rs) i previous h = (h.0, give_ranks-Below p rs _ _ h.1)

    give_ranks-IsSorted :
        (rs : List (TeamRanking F)) (i : ℕ) (previous : Option (TeamRanking F))
        → IsSorted F laws rs
        → IsSorted F laws (give_ranks F i previous rs)
    unfolding give_ranks IsSorted
    give_ranks-IsSorted [] i previous h = tt
    give_ranks-IsSorted (r ∷ rs) i previous h =
        (give_ranks-Below r.points rs _ _ h.0, give_ranks-IsSorted rs _ _ h.1)

    -- If the comparison of points is a total order, _order_by_points returns the teams with their
    -- points, sorted by points, and gives each the rank one above the number of teams that have
    -- more points than it and more than none. So teams with equal points share a rank, and all
    -- teams without points share the last one.
    pub order_by_points-IsRanked :
        (ranking : List (TeamRanking F))
        → let ranks = order_by_points F ranking in
          IsSorted F laws ranks
          × Perm (map entry ranks) (map entry ranking)
          × All (λ r. r.rank ≡ better F r.points ranking + 1) ranks
    unfolding order_by_points
    order_by_points-IsRanked ranking =
        let sorted = sort_by_points F ranking in
        (
          give_ranks-IsSorted sorted 1 none (sort-IsSorted F laws ranking),
          rw entries-give_ranks (Perm.map entry (sort-perm ranking)),
          All-imp F laws (IsRanked F laws [] sorted) (λ r. r.rank ≡ better F r.points ranking + 1) _
              (λ r m. unfold better in omega (arith, m, better_sort F laws r.points ranking))
              (give_ranks_lem F laws [] 1 none sorted
                (unfold positive in record { counted = refl; last = refl }) tt
                (sort-IsSorted F laws ranking)),
        )
