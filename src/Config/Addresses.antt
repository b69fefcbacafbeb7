-- ===== src/Config/Addresses.antt =====
-- The address of a team, and the team that `network_ip_to_id` finds for it.
use native.Mathlib.Nat.{mod-le, mod-mod, mod-one}
use saarctf_gameserver.Prelude.{
  ℕ, zero, suc, ◌+◌, ◌*◌, ◌/◌, ◌%◌, ◌≤◌, ◌<◌, ◌≡◌, refl, sym, ◌∙◌, ap, ◌≢◌, Bool, ◌||◌, inl, inr,
  true, false, ltb, if_ind, Bool-cases, Option, none, some, Option-cases, List, [], ◌∷◌, map, All,
  length, arith, pos, neg_part, sub_ℕ, mul_ℕ, subst,
}
use native.Mathlib.Decide.{dec_lt}
use saarctf_gameserver.Config.{
  Octet, NetworkConfig, octet_of, take, address, interval, intervals, Interval, max_start, Lookup,
  team, out_of_fuel, search_all, network_ip_to_id, team_id_to_network_range, cons?,
}
use saarctf_gameserver.Config.Intervals.{IsInterval}
use saarctf_gameserver.Config.Search.{search_all-ends}
use saarctf_gameserver.Config.Teams.{Meets, SameDigit, Found, search-Found}

abbrev pub has_teams : List Octet → Bool
has_teams [] = false
has_teams (o ∷ os) = ltb 1 o.modulus || has_teams os

abbrev pub SameOctet : ℕ → ℕ → Octet → Type 0
SameOctet u t o = octet_of u o ≡ octet_of t o

abbrev pub IsOctet : Octet → Type 0
IsOctet o = (0 < o.divisor) × (0 < o.modulus)

-- What the intervals for the address of `t` say of the teams with its numbers.
record Describes (t : ℕ) (os : List Octet) (js : List Interval) : Type 0 where
  are_intervals : All IsInterval js
  meets : (u : ℕ) → All (SameOctet u t) os → All (Meets u) js
  same : (k u : ℕ) → All (SameDigit k u) js → All (SameOctet k u) os
  some_left : has_teams os ≡ true → js ≢ []

start_lem : (x c a : ℕ) → mul_ℕ (sub_ℕ (x + c) c) a ≡ pos (x * a)
start_lem x c a = grind arith

interval-Meets : (u t : ℕ) (o : Octet) → SameOctet u t o → Meets u (interval o (octet_of t o))
unfolding interval
interval-Meets u t o e = (
  u / o.divisor % o.modulus,
  mul_start,
  mod-le (u / o.divisor) o.modulus,
  mod-mod (u / o.divisor) o.modulus,
)
  where
    mul_start :
        mul_ℕ (sub_ℕ (octet_of t o) o.offset) o.divisor
        ≡ pos (u / o.divisor % o.modulus * o.divisor)
    mul_start = rw (← e) (start_lem (u / o.divisor % o.modulus) o.offset o.divisor)

Describes-cons :
    (t : ℕ) (o : Octet) (os : List Octet) (js : List Interval)
    → IsOctet o
    → ltb 1 o.modulus ≡ true
    → Describes t os js
    → Describes t (o ∷ os) (interval o (octet_of t o) ∷ js)
unfolding interval
Describes-cons t o os js v b d = record {
  are_intervals = (v, d.are_intervals);
  meets = λ u (e, es). (interval-Meets u t o e, d.meets u es);
  same = λ k u (e, es). (ap (λ x. x + o.offset) e, d.same k u es);
  some_left = λ _ h. cc;
}

Describes-skip :
    (t : ℕ) (o : Octet) (os : List Octet) (js : List Interval)
    → IsOctet o
    → ltb 1 o.modulus ≡ false
    → Describes t os js
    → Describes t (o ∷ os) js
Describes-skip t o os js v b d = record {
  are_intervals = d.are_intervals;
  meets = λ u (e, es). d.meets u es;
  same = λ k u es. (constant k u, d.same k u es);
  some_left = λ h. d.some_left (ground arith);
}
  where
    one : o.modulus ≡ 1
    one = ground arith

    constant : (k u : ℕ) → SameOctet k u o
    constant k u = rw one (rw (mod-one, mod-one))

intervals_lem :
    (t m : ℕ) (os : List Octet)
    → All IsOctet os
    → m ≤ length os
    → (js : List Interval) × (intervals m os (map (octet_of t) os) ≡ some js)
      × Describes t (take m os) js
unfolding intervals
intervals_lem t zero os v le = (
  [],
  refl,
  record { are_intervals = tt; meets = λ _ _. tt; same = λ _ _ _. tt; some_left = λ h. cc },
)
intervals_lem t (suc m) [] v le = absurd (omega arith)
intervals_lem t (suc m) (o ∷ os) (v, vs) le =
    let (js, e, d) = intervals_lem t m os vs (omega arith) in
    elim (Bool-cases (ltb 1 o.modulus)) [
      | inl b ↦ (interval o (octet_of t o) ∷ js, rw (e, b), Describes-cons t o (take m os) js v b d)
      | inr b ↦ (js, rw (e, b), Describes-skip t o (take m os) js v b d)
    ]

address_lem :
    (os : List Octet) (t : ℕ) (ip : List ℕ)
    → address os t ≡ some ip
    → All IsOctet os × (ip ≡ map (octet_of t) os)
unfolding address
address_lem [] t ip e = (tt, cc)
address_lem (o ∷ os) t ip e = elim (Option-cases (address os t)) [
  | inl n ↦ absurd (ground arith)
  | inr (ds, s) ↦
      let (vs, same) = address_lem os t ds s in
      (((ground arith, ground arith), vs), ground (arith, same))
]

-- The first numbers of an address, which are those of the network.
abbrev pub prefix : NetworkConfig → List Octet
prefix n = take (n.network_size / 8) n.network_ip

-- `r` has the numbers of `t` in the part of the address for the network, and is the first such team.
pub record IsFirstTeam (n : NetworkConfig) (t r : ℕ) : Type 0 where
  pub same : All (SameOctet r t) (prefix n)
  pub first : (u : ℕ) → All (SameOctet u t) (prefix n) → r ≤ u

-- What holds of a list in an optional result.
abbrev AllOf : Option (List Interval) → Type 0
AllOf none = Unit {0}
AllOf (some js) = All IsInterval js

AllOf-cons :
    (o : Octet) (d : ℕ)
    → IsOctet o
    → (r : Option (List Interval)) → AllOf r
    → AllOf (cons? (interval o d) r)
unfolding interval
AllOf-cons o d v none h = tt
AllOf-cons o d v (some js) h = (v, h)

intervals-IsInterval :
    (m : ℕ) (os : List Octet) (ds : List ℕ) → All IsOctet (take m os) → AllOf (intervals m os ds)
unfolding intervals
intervals-IsInterval zero os ds v = tt
intervals-IsInterval (suc m) [] ds v = tt
intervals-IsInterval (suc m) (o ∷ os) [] (v, vs) =
    if_ind AllOf (ltb 1 o.modulus) _ _ (λ _. tt) (λ _. intervals-IsInterval m os [] vs)
intervals-IsInterval (suc m) (o ∷ os) (d ∷ ds) (v, vs) =
    let rest = intervals-IsInterval m os ds vs in
    if_ind AllOf (ltb 1 o.modulus) _ _ (λ _. AllOf-cons o d v (intervals m os ds) rest) (λ _. rest)

search_all_total : (o : Option (List Interval)) → AllOf o → search_all o ≢ out_of_fuel
unfolding search_all
search_all_total none h = λ e. cc
search_all_total (some []) h = λ e. cc
search_all_total (some (i ∷ is)) h = search_all-ends i is h

-- If the numbers of the network in the configuration have positive divisors and moduli, then both
-- loops of network_ip_to_id end, for every address.
pub network_ip_to_id_total :
    (n : NetworkConfig) (ip : List ℕ) → All IsOctet (prefix n) → network_ip_to_id n ip ≢ out_of_fuel
unfolding network_ip_to_id
network_ip_to_id_total n ip v =
    search_all_total (intervals (n.network_size / 8) n.network_ip ip)
      (intervals-IsInterval (n.network_size / 8) n.network_ip ip v)

-- What the search gives for a nonempty list of intervals that describe the address of `t`.
search_all-Found :
    (u : ℕ) (i : Interval) (is : List Interval)
    → u < 0xFFFF
    → All IsInterval (i ∷ is)
    → All (Meets u) (i ∷ is)
    → Found u (i ∷ is) (search_all (some (i ∷ is)))
unfolding search_all
search_all-Found u i is s v m =
    search-Found u (suc (suc (0xFFFF + neg_part (max_start i is)))) i is s v m

same_team : (r k : ℕ) → ◌≡◌ {A = Lookup} (team (pos r)) (team (pos k)) → r ≡ k
same_team r k e = ground arith

search_all-first :
    (t : ℕ) (os : List Octet) (js : List Interval) (o : Option (List Interval))
    → o ≡ some js
    → t < 0xFFFF
    → has_teams os ≡ true
    → Describes t os js
    → (r : ℕ) × (search_all o ≡ team (pos r))
      × All (SameOctet r t) os
      × ((u : ℕ) → All (SameOctet u t) os → r ≤ u)
unfolding search_all
search_all-first t os [] o e small h d = absurd (d.some_left h refl)
search_all-first t os (i ∷ is) o e small h d =
    subst
      (λ x.
        (r : ℕ) × (search_all x ≡ team (pos r))
        × All (SameOctet r t) os
        × ((u : ℕ) → All (SameOctet u t) os → r ≤ u))
      (sym e) (from_found (found t small (d.meets t (All-refl os))))
  where
    found :
        (u : ℕ)
        → u < 0xFFFF
        → All (Meets u) (i ∷ is)
        → Found u (i ∷ is) (search_all (some (i ∷ is)))
    found u s m = search_all-Found u i is s d.are_intervals m

    All-refl : (ps : List Octet) → All (SameOctet t t) ps
    All-refl [] = tt
    All-refl (p ∷ ps) = (refl, All-refl ps)

    first :
        (r : ℕ)
        → r ≤ t
        → search_all (some (i ∷ is)) ≡ team (pos r)
        → (u : ℕ) → Found u (i ∷ is) (search_all (some (i ∷ is)))
        → r ≤ u
    first r le e' u (inl x) = absurd (search_all-ends i is d.are_intervals x)
    first r le e' u (inr (k, x, le', _)) = omega (arith, same_team r k (sym e' ∙ x))

    from_found :
        Found t (i ∷ is) (search_all (some (i ∷ is)))
        → (r : ℕ) × (search_all (some (i ∷ is)) ≡ team (pos r))
          × All (SameOctet r t) os
          × ((u : ℕ) → All (SameOctet u t) os → r ≤ u)
    from_found (inl x) = absurd (search_all-ends i is d.are_intervals x)
    from_found (inr (r, x, le, same)) = (
      r,
      x,
      d.same r t same,
      λ u s. elim (dec_lt u 0xFFFF) [
        | yes p ↦ first r le x u (found u p (d.meets u s))
        | no p ↦ omega arith
      ],
    )

range_lem :
    (n : NetworkConfig) (t : ℕ) (ip : List ℕ) (w : ℕ)
    → team_id_to_network_range n t ≡ some (ip, w)
    → address n.network_ip t ≡ some ip
unfolding team_id_to_network_range
range_lem n t ip w e = ground arith

-- If team_id_to_network_range gives an address for a team below 65535, the network has at least as
-- many numbers as its size calls for, and one of these depends on the team, then network_ip_to_id
-- finds for this address a team with the same numbers in the part of the address for the network,
-- and no smaller team has them.
pub network_ip_to_id-IsFirstTeam :
    (n : NetworkConfig) (t : ℕ) (ip : List ℕ) (w : ℕ)
    → team_id_to_network_range n t ≡ some (ip, w)
    → t < 0xFFFF
    → n.network_size / 8 ≤ length n.network_ip
    → has_teams (prefix n) ≡ true
    → (r : ℕ) × (network_ip_to_id n ip ≡ team (pos r)) × IsFirstTeam n t r
unfolding network_ip_to_id
network_ip_to_id-IsFirstTeam n t ip w e small long teams =
    let (os, shown) = address_lem n.network_ip t ip (range_lem n t ip w e) in
    let (js, i, d) = intervals_lem t (n.network_size / 8) n.network_ip os long in
    let (r, f, s, first) =
      search_all-first t (prefix n) js (intervals (n.network_size / 8) n.network_ip ip) (rw shown i)
        small teams d in
    (r, f, record { same = s; first = first })
