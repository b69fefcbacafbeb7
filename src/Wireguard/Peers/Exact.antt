-- ===== src/Wireguard/Peers/Exact.antt =====
-- The peers of an interface after `sync_peers`.
use saarctf_gameserver.Prelude.{
  ℕ, ◌≡◌, refl, sym, ◌∙◌, ap, Bool, true, false, not, ◌&&◌, ◌||◌, ◌==◌, List, [], ◌∷◌, if_ind,
  arith, Bool-cases, inl, inr,
}
use saarctf_gameserver.Wireguard.Peers.{
  Peer, same_peer, contains_peer, difference, WireGuard, IsWireGuard, add_peer, remove_peer,
  remove_all, add_all, sync_peers, has_peer, Apart,
}

pub eq_peer : (p q : Peer) → same_peer p q ≡ true → p ≡ q
eq_peer p q h = ground arith

pub contains_same :
    (x q : Peer) (ys : List Peer) → same_peer x q ≡ true → contains_peer ys x ≡ contains_peer ys q
contains_same x q ys h = ap (contains_peer ys) (eq_peer x q h)

contains-difference :
    (xs ys : List Peer) (q : Peer)
    → contains_peer (difference xs ys) q ≡ (contains_peer xs q && not (contains_peer ys q))
unfolding difference
contains-difference [] ys q = refl
contains-difference (x ∷ xs) ys q =
    ground (arith, contains-difference xs ys q, contains_same x q ys)

left_true : (a b : Bool) → (a && b) ≡ true → a ≡ true
left_true a b h = ground arith

abbrev has_key : List Peer → ℕ → Bool
has_key [] k = false
has_key (p ∷ ps) k = p.public_key == k || has_key ps k

has_key_lem :
    (ps : List Peer) (q : Peer) → contains_peer ps q ≡ true → has_key ps q.public_key ≡ true
has_key_lem [] q h = cc
has_key_lem (p ∷ ps) q h = ground (arith, has_key_lem ps q)

has_key_none :
    (ps : List Peer) (k : ℕ)
    → ((p : Peer) → contains_peer ps p ≡ true → (p.public_key == k) ≡ false)
    → has_key ps k ≡ false
has_key_none [] k h = refl
has_key_none (p ∷ ps) k h = ground (arith, h p, has_key_none ps k (λ q m. h q (ground arith)))

module _ (wg : WireGuard) (laws : IsWireGuard wg) where
  -- Every pair of requested peers can stand beside each other.
  abbrev pub IsRequest : List Peer → Type 0
  IsRequest [] = Unit {0}
  IsRequest (p ∷ ps) = ((q : Peer) → contains_peer ps q ≡ true → Apart wg p q) × IsRequest ps

  has-remove_all :
      (ps : List Peer) (s : wg.State) (q : Peer)
      → has_peer wg (remove_all wg ps s) q ≡ (not (has_key ps q.public_key) && has_peer wg s q)
  unfolding remove_all
  has-remove_all [] s q = refl
  has-remove_all (p ∷ ps) s q =
      ground (arith, has-remove_all ps (remove_peer wg p s) q, laws.remove_lem s p q)

  has-add_all :
      (ps : List Peer) (s : wg.State)
      → IsRequest ps
      → ((p q : Peer) → contains_peer ps p ≡ true → has_peer wg s q ≡ true → Apart wg p q)
      → (q : Peer) → has_peer wg (add_all wg ps s) q ≡ (contains_peer ps q || has_peer wg s q)
  unfolding add_all
  has-add_all [] s r apart q = refl
  has-add_all (p ∷ ps) s (r, rs) apart q =
      has-add_all ps (add_peer wg p s) rs later q ∙ ground (arith, laws.add_lem s p first q)
    where
      first : (q : Peer) → has_peer wg s q ≡ true → Apart wg p q
      first q h = apart p q (ground arith) h

      later :
          (p' q' : Peer)
          → contains_peer ps p' ≡ true
          → has_peer wg (add_peer wg p s) q' ≡ true
          → Apart wg p' q'
      later p' q' m h = elim (Bool-cases (same_peer p q')) [
        | inl same ↦ ground (arith, r p' m)
        | inr other ↦ apart p' q' (ground arith) (ground (arith, laws.add_lem s p first q'))
      ]

  difference-IsRequest : (xs ys : List Peer) → IsRequest xs → IsRequest (difference xs ys)
  unfolding difference
  difference-IsRequest [] ys r = tt
  difference-IsRequest (x ∷ xs) ys (r, rs) =
      let rest = difference-IsRequest xs ys rs in
      if_ind IsRequest (contains_peer ys x) _ _ (λ _. rest)
        (λ _. ((λ q m. r q (left_true _ _ (sym (contains-difference xs ys q) ∙ m))), rest))

  requested-Apart :
      (xs : List Peer) (p q : Peer)
      → IsRequest xs
      → contains_peer xs p ≡ true
      → contains_peer xs q ≡ true
      → same_peer p q ≡ false
      → Apart wg p q
  requested-Apart [] p q r mp mq other = cc
  requested-Apart (x ∷ xs) p q (r, rs) mp mq other =
      ground (arith, requested-Apart xs p q rs, r p, r q)

  -- Removing what is not requested leaves the requested peers of the interface.
  has-removed :
      (requested : List Peer) (s : wg.State) (q : Peer)
      → has_peer wg (remove_all wg (difference (wg.peers s) requested) s) q
        ≡ (has_peer wg s q && contains_peer requested q)
  has-removed requested s q =
      let extra = difference (wg.peers s) requested in
      elim (Bool-cases (has_peer wg s q)) [
        | inr out ↦ ground (arith, has-remove_all extra s q)
        | inl present ↦ elim (Bool-cases (contains_peer requested q)) [
          | inr unwanted ↦ ground (
            arith,
            has-remove_all extra s q,
            has_key_lem extra q,
            contains-difference (wg.peers s) requested q,
          )
          | inl wanted ↦ ground (
            arith,
            has-remove_all extra s q,
            has_key_none extra q.public_key (none_left present wanted),
          )
        ]
      ]
    where
      none_left :
          has_peer wg s q ≡ true
          → contains_peer requested q ≡ true
          → (p : Peer) → contains_peer (difference (wg.peers s) requested) p ≡ true
          → (p.public_key == q.public_key) ≡ false
      none_left present wanted p m = ground (
        arith,
        contains-difference (wg.peers s) requested p,
        laws.own_key s p q,
        contains_same p q requested,
      )

  -- If the requested peers have pairwise different keys and addresses, then after sync_peers the
  -- interface has a peer if and only if it is requested, whatever peers it had before. It is
  -- assumed that WireGuard does what its documentation says: a new peer changes no other one
  -- unless they share a key or an address, and a peer is removed by its key.
  pub sync_peers-exact :
      (requested : List Peer) (s : wg.State)
      → IsRequest requested
      → (q : Peer) → has_peer wg (sync_peers wg requested s) q ≡ contains_peer requested q
  unfolding sync_peers
  sync_peers-exact requested s r q =
      has-add_all (difference requested (wg.peers s))
        (remove_all wg (difference (wg.peers s) requested) s)
        (difference-IsRequest requested (wg.peers s) r) apart q
      ∙ ground (arith, has-removed requested s q, contains-difference requested (wg.peers s) q)
    where
      apart :
          (p q : Peer)
          → contains_peer (difference requested (wg.peers s)) p ≡ true
          → has_peer wg (remove_all wg (difference (wg.peers s) requested) s) q ≡ true
          → Apart wg p q
      apart p q m h = ground (
        arith,
        contains-difference requested (wg.peers s) p,
        has-removed requested s q,
        requested-Apart requested p q r,
        contains_same p q (wg.peers s),
      )
