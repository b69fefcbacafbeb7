-- ===== src/Scoring/Ranking.antt =====
-- controlserver/scoring/scoring.py: `_order_by_points`, which sorts the teams and gives the ranks.
pub mod Order
pub mod Ranks
use saarctf_gameserver.Prelude.{
  ℕ, ◌+◌, ◌≡◌, Bool, true, false, ◌&&◌, Option, none, some, if◌then◌else◌, List, [], ◌∷◌,
}
use saarctf_gameserver.Scoring.Float.{Float}

module _ (F : Float) where
  open F use {Real, of_ℕ, lt, eq}

  pub record TeamRanking : Type 0 where
    pub team_id : ℕ
    pub points : Real
    pub rank : ℕ

  -- `ranking.sort(key=points, reverse=True)` keeps the order of teams with equal points.
  unfoldable pub insert : TeamRanking → List TeamRanking → List TeamRanking
  insert r [] = r ∷ []
  insert r (q ∷ qs) = if lt r.points q.points then q ∷ insert r qs else r ∷ q ∷ qs

  unfoldable pub sort_by_points : List TeamRanking → List TeamRanking
  sort_by_points [] = []
  sort_by_points (r ∷ rs) = insert r (sort_by_points rs)

  -- `previous_rank and previous_rank.points == rank.points`
  unfoldable pub next_rank : ℕ → Option TeamRanking → TeamRanking → ℕ
  next_rank i none r = i
  next_rank i (some q) r = if eq q.points r.points then q.rank else i

  unfoldable pub give_ranks : ℕ → Option TeamRanking → List TeamRanking → List TeamRanking
  give_ranks i previous [] = []
  give_ranks i previous (r ∷ rs) =
      let ranked = record r { rank = next_rank i previous r } in
      ranked ∷ give_ranks (if lt (of_ℕ 0) r.points then i + 1 else i) (some ranked) rs

  unfoldable pub order_by_points : List TeamRanking → List TeamRanking
  order_by_points ranking = give_ranks 1 none (sort_by_points ranking)
