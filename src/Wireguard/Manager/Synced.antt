-- ===== src/Wireguard/Manager/Synced.antt =====
-- What `fetch_and_sync` has done when it returns.
use saarctf_gameserver.Prelude.{
  ℕ, ◌≡◌, refl, sym, ◌∙◌, ap, subst, ◌==◌, inl, inr, ◌⊎◌, Option, none, some, if_ind, List, ◌∷◌,
  arith,
}
use saarctf_gameserver.Wireguard.Peers.{
  Peer, WireGuard, IsWireGuard, has_peer, contains_peer, sync_peers,
}
use saarctf_gameserver.Wireguard.Peers.Exact.{IsRequest, sync_peers-exact}
use saarctf_gameserver.Wireguard.Retry.{
  Result, ok, err, api_error, other_error, no_interface, assertion_error, value_error, out_of_fuel,
}
use saarctf_gameserver.Wireguard.Retry.Bounded.{calls, retry-IsRetried}
use saarctf_gameserver.Wireguard.Manager.{
  KeyPair, get_keys, Reply, answered, lost, unavailable, refused, Interface, Device, World, M,
  with_retry, update, replied, Environment, get_interface, set_pubk, ack_interface, choose_keys,
  publish_key, sync_device, sync, initialize_device, initialize_interface, sync_or_create,
  publish_and_sync, fetch_and_sync, insert_keys, put_keys, Writing, written, unwritten, removed,
  write_keys,
}
use saarctf_gameserver.Wireguard.Manager.Keys.{
  After, bind-After, calls-keep, replied-keeps, get_keys-insert_keys,
}

update_self : {A : Type 0} (i : ℕ) (x : A) (f : ℕ → A) → update i x f i ≡ x
update_self i x f = if_ind (λ y. y ≡ x) (i == i) _ _ (λ _. refl) (λ t. absurd (ground arith))

module _ (wg : WireGuard) where
  abbrev pub Any : World wg → Type 0
  Any w = Unit {0}

  -- What a call that returns has done, its retries have done.
  with_retry-returns :
      {A : Type 0} (P : World wg → Type 0) (Q : A → World wg → Type 0) (func : M wg A)
      → ((w : World wg) → P w → P (func w).0)
      → ((w : World wg) → P w → After wg Any Q (func w))
      → (w : World wg) → P w
      → After wg Any Q (with_retry wg func w)
  unfolding with_retry
  with_retry-returns P Q func keep done w h =
      let (k, t, _) = retry-IsRetried func w in
      subst (After wg Any Q) (λ i. (sym t.world i, sym t.result i))
        (done (calls func k w) (calls-keep wg P func keep k w h))

  replied-returns :
      {A : Type 0} (Q : A → World wg → Type 0) (r : Reply) (w done : World wg) (a : A)
      → Q a done
      → After wg Any Q (replied wg r w done a)
  replied-returns Q answered w done a h = h
  replied-returns Q lost w done a h = tt
  replied-returns Q unavailable w done a h = tt
  replied-returns Q refused w done a h = tt

  -- The key pair of the interface is in the file, and its public key on the server.
  pub record IsReady (i : ℕ) (w : World wg) : Type 0 where
    pub pair : KeyPair
    pub stored : get_keys i w.disk ≡ some pair
    pub registered : w.registered i ≡ some pair.public_key

  -- The interface exists, and has exactly the given peers.
  pub record HasPeers (i : ℕ) (peers : List Peer) (w : World wg) : Type 0 where
    pub device : Device wg
    pub exists : w.devices i ≡ some device
    pub exact : (q : Peer) → has_peer wg device.state q ≡ contains_peer peers q

  -- The file of the key store has what is in memory.
  abbrev pub InFile : World wg → Type 0
  InFile w = w.keys ≡ w.disk

  module _ (env : Environment wg) (laws : IsWireGuard wg) where
    pub record IsDescribed (id : ℕ) (i : Interface) : Type 0 where
      pub same_id : i.id ≡ id
      pub peers : i.peers ≡ env.peers id
      pub last_modified : i.last_modified ≡ env.last_modified id

    abbrev Fetched : ℕ → Interface → World wg → Type 0
    Fetched id i w = IsDescribed id i × (i.public_key ≡ w.registered i.id) × InFile w

    get_interface-InFile : (id : ℕ) (w : World wg) → InFile w → InFile (get_interface wg env id w).0
    unfolding get_interface
    get_interface-InFile id w h = replied-keeps wg InFile (env.reply w.calls) _ _ _ h h

    get_interface-returns :
        (id : ℕ) (w : World wg) → InFile w → After wg Any (Fetched id) (get_interface wg env id w)
    unfolding get_interface
    get_interface-returns id w h =
        replied-returns (Fetched id) (env.reply w.calls) _ _ _
          (record { same_id = refl; peers = refl; last_modified = refl }, refl, h)

    -- The pair that was chosen is in the file, and on the server if any key is.
    abbrev Chosen : Interface → KeyPair → World wg → Type 0
    Chosen i p w =
        (get_keys i.id w.disk ≡ some p)
        × ((i.public_key ≡ none) ⊎ (w.registered i.id ≡ some p.public_key))

    write_keys-returns :
        (i : Interface) (p : KeyPair) (x : Writing) (w : World wg)
        → i.public_key ≡ none
        → After wg Any (λ _. Chosen i p) (write_keys wg env x (insert_keys i.id p w.keys) w)
    unfolding write_keys
    write_keys-returns i p written w key =
        (get_keys-insert_keys i.id i.id p w.keys ∙ ground arith, inl key)
    write_keys-returns i p unwritten w key = tt
    write_keys-returns i p removed w key = tt

    choose_keys-returns :
        (i : Interface) (o : Option KeyPair) (k : Option ℕ) (w : World wg)
        → InFile w
        → get_keys i.id w.keys ≡ o
        → i.public_key ≡ k
        → w.registered i.id ≡ k
        → After wg Any (Chosen i) (choose_keys wg env i o k w)
    unfolding choose_keys put_keys
    choose_keys-returns i (some p) (some k) w h e key r =
        if_ind (After wg Any (Chosen i)) (p.public_key == k) _ _
          (λ t. (subst (λ d. get_keys i.id d ≡ some p) h e, inr (r ∙ ground arith))) (λ _. tt)
    choose_keys-returns i none (some k) w h e key r = tt
    choose_keys-returns i none none w h e key r =
        let p = env.generate_key_pair w.calls in
        bind-After wg Any (λ (_ : Unit {0}). Chosen i p) (Chosen i) (put_keys wg env i.id p w) _
          (write_keys-returns i p (env.write w.calls) w key) (λ _ _ c. c)
    choose_keys-returns i (some p) none w h e key r =
        (subst (λ d. get_keys i.id d ≡ some p) h e, inl key)

    publish_key-returns :
        (i : Interface) (p : KeyPair) (k : Option ℕ) (w : World wg)
        → i.public_key ≡ k
        → Chosen i p w
        → After wg Any (λ _. IsReady i.id) (publish_key wg env i p k w)
    unfolding publish_key set_pubk
    publish_key-returns i p (some k) w key (s, inl e) = absurd (ground arith)
    publish_key-returns i p (some k) w key (s, inr e) = record {
      pair = p;
      stored = s;
      registered = e;
    }
    publish_key-returns i p none w key (s, _) =
        with_retry-returns (λ w. get_keys i.id w.disk ≡ some p) (λ _. IsReady i.id)
          (set_pubk wg env i.id p.public_key)
          (λ w h.
            replied-keeps wg (λ v. get_keys i.id v.disk ≡ some p) (env.reply w.calls) _ _ _ h h)
          (λ w h.
            replied-returns (λ _. IsReady i.id) (env.reply w.calls) _ _ _
              (record {
                pair = p;
                stored = h;
                registered = update_self i.id (some p.public_key) w.registered;
              }))
          w s

    -- The server and the file are ready, and the interface has its peers.
    abbrev pub Done : Interface → Unit {0} → World wg → Type 0
    Done i _ w = IsReady i.id w × HasPeers i.id i.peers w

    sync_device-returns :
        (i : Interface) (o : Option (Device wg)) (w : World wg)
        → IsRequest wg laws i.peers
        → IsReady i.id w
        → After wg (IsReady i.id) (Done i) (sync_device wg env i o w)
    unfolding sync_device
    sync_device-returns i none w r h = h
    sync_device-returns i (some d) w r h = (
      record { pair = h.pair; stored = h.stored; registered = h.registered },
      record {
        device = record d { state = sync_peers wg i.peers d.state };
        exists =
            update_self i.id (some (record d { state = sync_peers wg i.peers d.state })) w.devices;
        exact = sync_peers-exact wg laws i.peers d.state r;
      },
    )

    initialize-ready :
        (i : Interface) (p : KeyPair) (o : Option (Device wg)) (w : World wg)
        → IsReady i.id w
        → IsReady i.id (initialize_device wg env i p o w)
    unfolding initialize_device
    initialize-ready i p none w h = record {
      pair = h.pair;
      stored = h.stored;
      registered = h.registered;
    }
    initialize-ready i p (some d) w h = record {
      pair = h.pair;
      stored = h.stored;
      registered = h.registered;
    }

    forget :
        {A : Type 0} (P : World wg → Type 0) (Q : A → World wg → Type 0) (r : World wg × Result A)
        → After wg P Q r
        → After wg Any Q r
    forget P Q (w, ok a) h = h
    forget P Q (w, err e) h = tt

    sync_or_create-returns :
        (i : Interface) (p : KeyPair) (r : World wg × Result (Unit {0}))
        → IsRequest wg laws i.peers
        → After wg (IsReady i.id) (Done i) r
        → After wg Any (Done i) (sync_or_create wg env i p r)
    unfolding sync_or_create initialize_interface sync
    sync_or_create-returns i p (w, ok tt) r h = h
    sync_or_create-returns i p (w, err no_interface) r h =
        let w' = initialize_device wg env i p (w.devices i.id) w in
        forget (IsReady i.id) (Done i) (sync_device wg env i (w'.devices i.id) w')
          (sync_device-returns i (w'.devices i.id) w' r (initialize-ready i p (w.devices i.id) w h))
    sync_or_create-returns i p (w, err api_error) r h = tt
    sync_or_create-returns i p (w, err other_error) r h = tt
    sync_or_create-returns i p (w, err assertion_error) r h = tt
    sync_or_create-returns i p (w, err value_error) r h = tt
    sync_or_create-returns i p (w, err out_of_fuel) r h = tt

    -- The version is acknowledged as well.
    abbrev pub Acknowledged : Interface → Unit {0} → World wg → Type 0
    Acknowledged i u w =
        Done i u w × (rest : List (ℕ × ℕ)) × (w.acked ≡ (i.id, i.last_modified) ∷ rest)

    same_rest :
        (i : Interface) (w v : World wg)
        → w.disk ≡ v.disk
        → w.registered ≡ v.registered
        → w.devices ≡ v.devices
        → Done i tt w
        → Done i tt v
    same_rest i w v d r e (ready, has) = (
      record {
        pair = ready.pair;
        stored = subst (λ x. get_keys i.id x ≡ some ready.pair) d ready.stored;
        registered = subst (λ x. x i.id ≡ some ready.pair.public_key) r ready.registered;
      },
      record {
        device = has.device;
        exists = subst (λ x. x i.id ≡ some has.device) e has.exists;
        exact = has.exact;
      },
    )

    ack-returns :
        (i : Interface) (w : World wg)
        → Done i tt w
        → After wg Any
            (Acknowledged i)
            (with_retry wg (ack_interface wg env i.id i.last_modified) w)
    unfolding ack_interface
    ack-returns i w h =
        with_retry-returns (Done i tt) (Acknowledged i) (ack_interface wg env i.id i.last_modified)
          (λ v g.
            replied-keeps wg (Done i tt) (env.reply v.calls) _ _ _
              (same_rest i v _ refl refl refl g) (same_rest i v _ refl refl refl g))
          (λ v g.
            replied-returns (Acknowledged i) (env.reply v.calls) _ _ _
              (same_rest i v _ refl refl refl g, v.acked, refl))
          w h

    publish_and_sync-returns :
        (i : Interface) (p : KeyPair) (w : World wg)
        → IsRequest wg laws i.peers
        → Chosen i p w
        → After wg Any (Acknowledged i) (publish_and_sync wg env i p w)
    unfolding publish_and_sync sync
    publish_and_sync-returns i p w r c =
        bind-After wg Any (λ _. IsReady i.id) (Acknowledged i)
          (publish_key wg env i p i.public_key w) _ (publish_key-returns i p i.public_key w refl c)
          λ _ w1 h1.
            bind-After wg Any (Done i) (Acknowledged i)
              (sync_or_create wg env i p (sync wg env i w1)) _
              (sync_or_create-returns i p _ r (sync_device-returns i (w1.devices i.id) w1 r h1))
              λ _ w2 h2. ack-returns i w2 h2

    -- What has been done for the interface `id`.
    abbrev pub Completed : ℕ → World wg → Type 0
    Completed id w =
        IsReady id w
        × HasPeers id (env.peers id) w
        × (rest : List (ℕ × ℕ)) × (w.acked ≡ (id, env.last_modified id) ∷ rest)

    described :
        (id : ℕ) (i : Interface)
        → IsDescribed id i
        → (w : World wg) → Acknowledged i tt w
        → Completed id w
    described id i d w ((ready, has), rest, acked) = (
      subst (λ n. IsReady n w) d.same_id ready,
      subst (λ n. HasPeers n (env.peers id) w) d.same_id
          (subst (λ ps. HasPeers i.id ps w) d.peers has),
      rest,
      acked ∙ ap (λ x. x ∷ rest) (λ k. (d.same_id k, d.last_modified k)),
    )

    weaken :
        {A : Type 0} (Q R : A → World wg → Type 0) (r : World wg × Result A)
        → ((a : A) (w : World wg) → Q a w → R a w)
        → After wg Any Q r
        → After wg Any R r
    weaken Q R (w, ok a) f h = f a w h
    weaken Q R (w, err e) f h = tt

    fetch_and_sync-returns :
        (id : ℕ) (w : World wg)
        → InFile w
        → IsRequest wg laws (env.peers id)
        → After wg Any (λ (_ : Unit {0}). Completed id) (fetch_and_sync wg env id w)
    unfolding fetch_and_sync
    fetch_and_sync-returns id w h r =
        bind-After wg Any (Fetched id) (λ (_ : Unit {0}). Completed id)
          (with_retry wg (get_interface wg env id) w) _
          (with_retry-returns InFile (Fetched id) (get_interface wg env id)
            (get_interface-InFile id) (get_interface-returns id) w h)
          λ i w1 (d, key, kept).
            bind-After wg Any (Chosen i) (λ (_ : Unit {0}). Completed id)
              (choose_keys wg env i (get_keys i.id w1.keys) i.public_key w1) _
              (choose_keys-returns i (get_keys i.id w1.keys) i.public_key w1 kept refl refl
                (sym key))
              λ p w2 c.
                weaken (Acknowledged i) (λ (_ : Unit {0}). Completed id) _
                  (λ _ v. described id i d v)
                  (publish_and_sync-returns i p w2 (subst (IsRequest wg laws) (sym d.peers) r) c)

    -- If the file of the key store has what is in memory and the API requests peers with pairwise
    -- different keys and addresses, then a call of fetch_and_sync that returns leaves the pair of
    -- the interface in the file of the key store, its public key on the server, an interface with
    -- exactly the requested peers, and the requested version acknowledged last. It is assumed that
    -- WireGuard does what its documentation says.
    pub fetch_and_sync-Completed :
        (id : ℕ) (w w' : World wg)
        → InFile w
        → IsRequest wg laws (env.peers id)
        → fetch_and_sync wg env id w ≡ (w', ok tt)
        → Completed id w'
    fetch_and_sync-Completed id w w' h r e =
        subst (After wg Any (λ (_ : Unit {0}). Completed id)) e (fetch_and_sync-returns id w h r)
