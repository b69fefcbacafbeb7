-- ===== src/Wireguard/Kernel.antt =====
-- A WireGuard interface as a list of peers, an instance of the parameter with its laws: a peer hides
-- those after it that have its key or its address.
use saarctf_gameserver.Prelude.{
  ℕ, ◌≡◌, refl, ◌∙◌, ap, Bool, true, false, not, ◌&&◌, ◌==◌, some, if◌then◌else◌, List, [], ◌∷◌,
  arith,
}
use saarctf_gameserver.Wireguard.Peers.{
  Peer, same_peer, contains_peer, WireGuard, IsWireGuard, add_peer, remove_peer, has_peer,
}
use saarctf_gameserver.Wireguard.Peers.Exact.{eq_peer}

abbrev is_apart : Peer → Peer → Bool
is_apart p q = not (p.public_key == q.public_key) && not (p.cidr == q.cidr)

unfoldable pub keep_apart : Peer → List Peer → List Peer
keep_apart p [] = []
keep_apart p (q ∷ qs) = let rest = keep_apart p qs in if is_apart p q then q ∷ rest else rest

unfoldable pub visible : List Peer → List Peer
unfolding keep_apart
visible [] = []
visible (p ∷ ps) = p ∷ keep_apart p (visible ps)

unfoldable pub drop_key : ℕ → List Peer → List Peer
drop_key k [] = []
drop_key k (q ∷ qs) = let rest = drop_key k qs in if k == q.public_key then rest else q ∷ rest

abbrev pub kernel : WireGuard
kernel = record {
  State = List Peer;
  peers = visible;
  set_peer = λ p s. some (p ∷ s);
  set_remove = λ k s. some (drop_key k (visible s));
}

contains-keep_apart :
    (p : Peer) (ps : List Peer) (q : Peer)
    → contains_peer (keep_apart p ps) q ≡ (contains_peer ps q && is_apart p q)
unfolding keep_apart
contains-keep_apart p [] q = refl
contains-keep_apart p (r ∷ ps) q = ground (
  arith,
  contains-keep_apart p ps q,
  λ (h : same_peer r q ≡ true). ap (is_apart p) (eq_peer r q h),
)

contains-drop_key :
    (k : ℕ) (ps : List Peer) (q : Peer)
    → contains_peer (drop_key k ps) q ≡ (contains_peer ps q && not (k == q.public_key))
unfolding drop_key
contains-drop_key k [] q = refl
contains-drop_key k (r ∷ ps) q = ground (arith, contains-drop_key k ps q)

AllApart : List Peer → Type 0
AllApart ps =
    (p q : Peer)
    → contains_peer ps p ≡ true
    → contains_peer ps q ≡ true
    → same_peer p q ≡ false
    → is_apart p q ≡ true

visible-AllApart : (ps : List Peer) → AllApart (visible ps)
unfolding visible AllApart
visible-AllApart [] p q hp hq d = cc
visible-AllApart (r ∷ ps) p q hp hq d = ground (
  arith,
  visible-AllApart ps p q,
  contains-keep_apart r (visible ps) p,
  contains-keep_apart r (visible ps) q,
)

contains-visible :
    (ps : List Peer) (q : Peer) → AllApart ps → contains_peer (visible ps) q ≡ contains_peer ps q
unfolding visible AllApart
contains-visible [] q h = refl
contains-visible (r ∷ ps) q h = ground (
  arith,
  contains-keep_apart r (visible ps) q,
  contains-visible ps q (λ a b ha hb d. h a b (ground arith) (ground arith) d),
  h r q,
)

drop-AllApart : (k : ℕ) (ps : List Peer) → AllApart ps → AllApart (drop_key k ps)
unfolding AllApart
drop-AllApart k ps h p q hp hq d =
    ground (arith, contains-drop_key k ps p, contains-drop_key k ps q, h p q)

drop_lem :
    (s : List Peer) (p q : Peer)
    → has_peer kernel (remove_peer kernel p s) q
      ≡ (not (p.public_key == q.public_key) && has_peer kernel s q)
unfolding remove_peer
drop_lem s p q =
    contains-visible (drop_key p.public_key (visible s)) q
      (drop-AllApart p.public_key (visible s) (visible-AllApart s))
    ∙ contains-drop_key p.public_key (visible s) q
    ∙ ground arith

pub kernel-IsWireGuard : IsWireGuard kernel
unfolding add_peer remove_peer visible AllApart
kernel-IsWireGuard = record {
  own_key = λ s p q hp hq d. ground (arith, visible-AllApart s p q hp hq d);
  add_lem = λ s p h q. ground (arith, contains-keep_apart p (visible s) q, h q);
  remove_lem = drop_lem;
}
