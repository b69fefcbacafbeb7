-- ===== src/Scoring/Ranking/Order.antt =====
-- The ranks of `_order_by_points` (controlserver/scoring/scoring.py), and the number of teams with
-- more points.
use saarctf_gameserver.Prelude.{
  ℕ, ◌+◌, ◌≡◌, refl, true, false, ◌&&◌, Option, none, some, if◌then◌else◌, List, [], ◌∷◌, All,
  arith, Bool-cases, inl, inr, ap, ◌∙◌,
}
use saarctf_gameserver.Scoring.Float.{Float, IsOrdered, le}
use saarctf_gameserver.Scoring.Ranking.{TeamRanking, insert, sort_by_points, next_rank, give_ranks}

module _ (F : Float) where
  open F use {Real, of_ℕ, lt, eq}

  -- The teams with more points than `p`, and more than none.
  unfoldable pub better : Real → List (TeamRanking F) → ℕ
  better p [] = 0
  better p (r ∷ rs) =
      let n = better p rs in if lt (of_ℕ 0) r.points && lt p r.points then n + 1 else n

  unfoldable pub positive : List (TeamRanking F) → ℕ
  positive [] = 0
  positive (r ∷ rs) = let n = positive rs in if lt (of_ℕ 0) r.points then n + 1 else n

  module _ (laws : IsOrdered F) where
    open laws use {le_trans, lt_asymm, lt_irrefl, eq_lem}

    lt_of_lt_le : (p q r : Real) → lt p q ≡ true → le F q r → lt p r ≡ true
    lt_of_lt_le p q r l h = elim (Bool-cases (lt p r)) [
      | inl t ↦ t
      | inr f ↦ cc (le_trans q r p h f)
    ]

    lt_congr : (p q r : Real) → le F p q → le F q p → lt p r ≡ lt q r
    lt_congr p q r h k = elim (Bool-cases (lt p r)) [
      | inl t ↦ elim (Bool-cases (lt q r)) [ inl u ↦ cc | inr u ↦ cc (le_trans r q p u k) ]
      | inr t ↦ elim (Bool-cases (lt q r)) [ inl u ↦ cc (le_trans r p q t h) | inr u ↦ cc ]
    ]

    eq_both : (p q : Real) → eq p q ≡ true → le F p q × le F q p
    eq_both p q h = ground (arith, eq_lem p q)

    lt_of_ne : (p q : Real) → eq p q ≡ false → le F q p → lt q p ≡ true
    lt_of_ne p q h k = ground (arith, eq_lem p q)

    -- no team of the list has more than `p`
    abbrev pub Below : Real → List (TeamRanking F) → Type 0
    Below p rs = All (λ r. le F r.points p) rs

    abbrev pub Above : Real → List (TeamRanking F) → Type 0
    Above p rs = All (λ r. le F p r.points) rs

    unfoldable pub IsSorted : List (TeamRanking F) → Type 0
    IsSorted [] = Unit
    IsSorted (r ∷ rs) = Below r.points rs × IsSorted rs

    better-Below : (p : Real) (rs : List (TeamRanking F)) → Below p rs → better p rs ≡ 0
    unfolding better
    better-Below p [] h = refl
    better-Below p (r ∷ rs) h = ground (arith, better-Below p rs h.1)

    -- `p` is less than what all of these have
    better-Above :
        (p q : Real) (rs : List (TeamRanking F))
        → lt p q ≡ true
        → Above q rs
        → better p rs ≡ positive rs
    unfolding better positive
    better-Above p q [] l h = refl
    better-Above p q (r ∷ rs) l h =
        ground (arith, better-Above p q rs l h.1, lt_of_lt_le p q r.points l h.0)

    better_congr :
        (p q : Real) (rs : List (TeamRanking F)) → le F p q → le F q p → better p rs ≡ better q rs
    unfolding better
    better_congr p q [] h k = refl
    better_congr p q (r ∷ rs) h k =
        ground (arith, better_congr p q rs h k, lt_congr p q r.points h k)

    abbrev pub Last : List (TeamRanking F) → Option (TeamRanking F) → Type 0
    Last seen none = seen ≡ []
    Last seen (some q) = Above q.points seen × (q.rank ≡ better q.points seen + 1)

    -- What the loop knows: the teams so far, the newest first, and the team before.
    pub record Seen (seen : List (TeamRanking F)) (i : ℕ) (previous : Option (TeamRanking F))
        : Type 0 where
      pub counted : i ≡ positive seen + 1
      pub last : Last seen previous

    -- the teams to come have no more points than the team before
    abbrev pub Behind : Option (TeamRanking F) → List (TeamRanking F) → Type 0
    Behind none rs = Unit
    Behind (some q) rs = Below q.points rs

    Above-trans : (p q : Real) (rs : List (TeamRanking F)) → le F p q → Above q rs → Above p rs
    Above-trans p q [] h k = tt
    Above-trans p q (r ∷ rs) h k = (le_trans p q r.points h k.0, Above-trans p q rs h k.1)

    seen_Above :
        (seen : List (TeamRanking F)) (previous : Option (TeamRanking F)) (r : TeamRanking F)
        (rs : List (TeamRanking F))
        → Last seen previous
        → Behind previous (r ∷ rs)
        → Above r.points seen
    seen_Above seen none r rs e h = rw e tt
    seen_Above seen (some q) r rs l h = Above-trans r.points q.points seen h.0 l.0

    next_rank_lem :
        (seen : List (TeamRanking F)) (i : ℕ) (previous : Option (TeamRanking F))
        (r : TeamRanking F) (rs : List (TeamRanking F))
        → Seen seen i previous
        → Behind previous (r ∷ rs)
        → next_rank F i previous r ≡ better r.points seen + 1
    unfolding next_rank better positive
    next_rank_lem seen i none r rs s h = rw s.counted (rw s.last refl)
    next_rank_lem seen i (some q) r rs s h = elim (Bool-cases (eq q.points r.points)) [
      | inl same ↦
          let (less, more) = eq_both q.points r.points same in
          rw same (s.last.1 ∙ ap (λ n. n + 1) (better_congr q.points r.points seen less more))
      | inr other ↦
          let l = lt_of_ne q.points r.points other h.0 in
          rw (other, better-Above r.points q.points seen l s.last.0) s.counted
    ]

    pub All-imp :
        (P Q : TeamRanking F → Type 0) (rs : List (TeamRanking F))
        → ((r : TeamRanking F) → P r → Q r)
        → All P rs
        → All Q rs
    All-imp P Q [] f h = tt
    All-imp P Q (r ∷ rs) f h = (f r h.0, All-imp P Q rs f h.1)

    better_move :
        (p : Real) (r : TeamRanking F) (k : ℕ) (seen rs : List (TeamRanking F))
        → better p (record r { rank = k } ∷ seen) + better p rs ≡ better p seen + better p (r ∷ rs)
    unfolding better
    better_move p r k seen rs = ground arith

    better_self :
        (r : TeamRanking F) (k : ℕ) (seen : List (TeamRanking F))
        → better r.points (record r { rank = k } ∷ seen) ≡ better r.points seen
    unfolding better
    better_self r k seen = ground (arith, lt_irrefl r.points)

    Seen-next :
        (seen : List (TeamRanking F)) (i k : ℕ) (r : TeamRanking F)
        → i ≡ positive seen + 1
        → Above r.points seen
        → k ≡ better r.points seen + 1
        → Seen
            (record r { rank = k } ∷ seen)
            (if lt (of_ℕ 0) r.points then i + 1 else i)
            (some (record r { rank = k }))
    unfolding positive
    Seen-next seen i k r c a e = record {
      counted = ground arith;
      last = ((lt_irrefl r.points, a), rw better_self e);
    }

    -- behind the better ones among the teams so far and those to come
    abbrev pub IsRanked : List (TeamRanking F) → List (TeamRanking F) → TeamRanking F → Type 0
    IsRanked seen rs r = r.rank ≡ better r.points seen + better r.points rs + 1

    pub give_ranks_lem :
        (seen : List (TeamRanking F)) (i : ℕ) (previous : Option (TeamRanking F))
        (rs : List (TeamRanking F))
        → Seen seen i previous
        → Behind previous rs
        → IsSorted rs
        → All (IsRanked seen rs) (give_ranks F i previous rs)
    unfolding give_ranks IsSorted
    give_ranks_lem seen i previous [] s h o = tt
    give_ranks_lem seen i previous (r ∷ rs) s h o =
        let k = next_rank F i previous r in
        let ranked = record r { rank = k } in
        let e = next_rank_lem seen i previous r rs s h in
        let s' = Seen-next seen i k r s.counted (seen_Above seen previous r rs s.last h) e in
        (
          omega (arith, e, better-Below r.points (r ∷ rs) (lt_irrefl r.points, o.0)),
          All-imp (IsRanked (ranked ∷ seen) rs) (IsRanked seen (r ∷ rs)) _
              (λ q m. omega (arith, m, better_move q.points r k seen rs))
              (give_ranks_lem (ranked ∷ seen) _ (some ranked) rs s' o.0 o.1),
        )

    better_insert :
        (p : Real) (r : TeamRanking F) (rs : List (TeamRanking F))
        → better p (insert F r rs) ≡ better p (r ∷ rs)
    unfolding better insert
    better_insert p r [] = refl
    better_insert p r (q ∷ qs) = ground (arith, better_insert p r qs)

    pub better_sort :
        (p : Real) (rs : List (TeamRanking F)) → better p (sort_by_points F rs) ≡ better p rs
    unfolding sort_by_points better
    better_sort p [] = refl
    better_sort p (r ∷ rs) =
        ground (arith, better_insert p r (sort_by_points F rs), better_sort p rs)

    Below-insert :
        (p : Real) (r : TeamRanking F) (rs : List (TeamRanking F))
        → le F r.points p
        → Below p rs
        → Below p (insert F r rs)
    unfolding insert
    Below-insert p r [] h k = (h, tt)
    Below-insert p r (q ∷ qs) h k = ground (arith, Below-insert p r qs h k.1)

    Below-trans : (p q : Real) (rs : List (TeamRanking F)) → le F q p → Below q rs → Below p rs
    Below-trans p q [] h k = tt
    Below-trans p q (r ∷ rs) h k = (le_trans r.points q p k.0 h, Below-trans p q rs h k.1)

    insert-IsSorted :
        (r : TeamRanking F) (rs : List (TeamRanking F)) → IsSorted rs → IsSorted (insert F r rs)
    unfolding insert IsSorted
    insert-IsSorted r [] o = (tt, tt)
    insert-IsSorted r (q ∷ qs) o = elim (Bool-cases (lt r.points q.points)) [
      | inl less ↦ rw less (
        Below-insert q.points r qs (lt_asymm r.points q.points less) o.0,
        insert-IsSorted r qs o.1,
      )
      | inr more ↦ rw more ((more, Below-trans r.points q.points qs more o.0), (o.0, o.1))
    ]

    pub sort-IsSorted : (rs : List (TeamRanking F)) → IsSorted (sort_by_points F rs)
    unfolding sort_by_points IsSorted
    sort-IsSorted [] = tt
    sort-IsSorted (r ∷ rs) = insert-IsSorted r (sort_by_points F rs) (sort-IsSorted rs)
