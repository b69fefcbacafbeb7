-- ===== src/Vpn/Network/Bans.antt =====
-- The bans of controlserver/vpncontrol.py.
use saarctf_gameserver.Prelude.{ℕ, ◌≡◌, refl, not, ◌&&◌, ◌||◌, ◌==◌, List, [], ◌∷◌, arith, if_ind}
use saarctf_gameserver.Vpn.Network.{
  contains, add, discard, Redis, unban_team, ends_in, unban_all, unban_for_tick,
}

pub contains-add : (i j : ℕ) (ids : List ℕ) → contains (add i ids) j ≡ (i == j || contains ids j)
unfolding add contains
contains-add i j ids = ground arith

pub contains-discard :
    (i j : ℕ) (ids : List ℕ) → contains (discard i ids) j ≡ (contains ids j && not (i == j))
unfolding discard contains
contains-discard i j [] = refl
contains-discard i j (k ∷ ids) = ground (arith, contains-discard i j ids)

unban_all-banned :
    (tick i : ℕ) (ids : List ℕ) (r : Redis)
    → contains (unban_all tick ids r).banned i
      ≡ (contains r.banned i && not (contains ids i && ends_in tick (r.banned_until i)))
unfolding unban_all contains unban_team
unban_all-banned tick i [] r = ground arith
unban_all-banned tick i (j ∷ ids) r =
    if_ind
      (λ r'.
        contains (unban_all tick ids r').banned i
        ≡ (contains r.banned i && not (contains (j ∷ ids) i && ends_in tick (r.banned_until i))))
      (ends_in tick (r.banned_until j)) (unban_team j r) r
      (λ ends.
        ground (
          arith,
          ends,
          unban_all-banned tick i ids (unban_team j r),
          contains-discard j i r.banned,
        ))
      (λ stays. ground (arith, stays, unban_all-banned tick i ids r))

-- After unban_for_tick a team is banned if and only if it was banned before and its ban does not
-- end in this tick.
pub unban_for_tick-banned :
    (tick i : ℕ) (r : Redis)
    → contains (unban_for_tick tick r).banned i
      ≡ (contains r.banned i && not (ends_in tick (r.banned_until i)))
unfolding unban_for_tick
unban_for_tick-banned tick i r = ground (arith, unban_all-banned tick i r.banned r)
