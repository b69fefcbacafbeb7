-- ===== src/Wireguard/Manager/Keys.antt =====
-- The public keys of the server and their pairs in the key store, in memory and in its file.
use saarctf_gameserver.Prelude.{
  ℕ, zero, suc, ◌+◌, ◌≡◌, ◌≢◌, refl, sym, ◌∙◌, ap, subst, true, ◌==◌, ==_iff, Bool-cases, inl, inr,
  Option, none, some, if◌then◌else◌, if_ind, [], ◌∷◌, arith,
}
use saarctf_gameserver.Wireguard.Peers.{WireGuard}
use saarctf_gameserver.Wireguard.Retry.{
  Result, ok, err, api_error, other_error, no_interface, assertion_error, value_error, out_of_fuel,
}
use saarctf_gameserver.Wireguard.Retry.Bounded.{calls, retry-IsRetried}
use saarctf_gameserver.Wireguard.Manager.{
  KeyPair, Keys, get_keys, insert_keys, Reply, answered, lost, unavailable, refused, Interface,
  Device, World, Writing, written, unwritten, removed, write_keys, put_keys, M, bind, with_retry,
  update, replied, Environment, get_interface, set_pubk, ack_interface, choose_keys, publish_key,
  sync_device, sync, initialize_device, initialize_interface, sync_or_create, publish_and_sync,
  fetch_and_sync,
}

pub get_keys-insert_keys :
    (j i : ℕ) (p : KeyPair) (ks : Keys)
    → get_keys j (insert_keys i p ks) ≡ (if i == j then some p else get_keys j ks)
unfolding get_keys insert_keys
get_keys-insert_keys j i p [] = refl
get_keys-insert_keys j i p ((k, q) ∷ ks) = ground (arith, get_keys-insert_keys j i p ks)

same_keys : (i j : ℕ) (ks : Keys) → (i == j) ≡ true → get_keys i ks ≡ get_keys j ks
same_keys i j ks h = ap (λ n. get_keys n ks) ((==_iff i j).0 h)

module _ (wg : WireGuard) where
  -- `P` after an exception, and `Q` of the value after a return.
  abbrev pub After :
      {A : Type 0} → (World wg → Type 0) → (A → World wg → Type 0) → World wg × Result A → Type 0
  After P Q (w, ok a) = Q a w
  After P Q (w, err e) = P w

  pub bind-After :
      {A B : Type 0} (P : World wg → Type 0) (Q : A → World wg → Type 0) (R : B → World wg → Type 0)
      (m : World wg × Result A) (f : A → M wg B)
      → After P Q m
      → ((a : A) (w : World wg) → Q a w → After P R (f a w))
      → After P R (bind wg m f)
  bind-After P Q R (w, ok a) f h k = k a w h
  bind-After P Q R (w, err e) f h k = h

  pub calls-keep :
      {A : Type 0} (P : World wg → Type 0) (func : M wg A)
      → ((w : World wg) → P w → P (func w).0)
      → (n : ℕ) (w : World wg) → P w
      → P (calls func n w)
  calls-keep P func keep zero w h = h
  calls-keep P func keep (suc n) w h = calls-keep P func keep n (func w).0 (keep w h)

  After-both :
      {A : Type 0} (P : World wg → Type 0) (r : World wg × Result A) → P r.0 → After P (λ _. P) r
  After-both P (w, ok a) h = h
  After-both P (w, err e) h = h

  -- What one call keeps, retrying it keeps.
  pub with_retry-After :
      {A : Type 0} (P : World wg → Type 0) (func : M wg A)
      → ((w : World wg) → P w → P (func w).0)
      → (w : World wg) → P w
      → After P (λ _. P) (with_retry wg func w)
  unfolding with_retry
  with_retry-After P func keep w h =
      let (k, t, _) = retry-IsRetried func w in
      After-both P (with_retry wg func w)
        (subst P (sym t.world) (keep (calls func k w) (calls-keep P func keep k w h)))

  pub replied-keeps :
      {A : Type 0} (P : World wg → Type 0) (r : Reply) (w done : World wg) (a : A)
      → P w
      → P done
      → P (replied wg r w done a).0
  replied-keeps P answered w done a h k = k
  replied-keeps P lost w done a h k = k
  replied-keeps P unavailable w done a h k = h
  replied-keeps P refused w done a h k = h

  module _ (env : Environment wg) where
    -- A public key of the server has its pair in memory, and the file has what is in memory, if no
    -- file fails to be written.
    pub record IsKept (w : World wg) : Type 0 where
      pub saved : ((n : ℕ) → env.write n ≡ written) → w.keys ≡ w.disk
      pub stored :
          (i k : ℕ)
          → w.registered i ≡ some k
          → (p : KeyPair) × (get_keys i w.keys ≡ some p) × (p.public_key ≡ k)

    -- The pair of an interface is in memory.
    abbrev Chosen : ℕ → KeyPair → World wg → Type 0
    Chosen i p w = IsKept w × (get_keys i w.keys ≡ some p)

    pub get_interface-keeps :
        (i : ℕ) (w : World wg) → IsKept w → IsKept (get_interface wg env i w).0
    unfolding get_interface
    get_interface-keeps i w h =
        let h' : IsKept (record w { calls = w.calls + 1 }) = record {
          saved = h.saved;
          stored = h.stored;
        } in
        replied-keeps IsKept (env.reply w.calls) _ _ _ h' h'

    put_keys-Chosen :
        (i : ℕ) (p : KeyPair) (w : World wg)
        → IsKept w
        → get_keys i w.keys ≡ none
        → After IsKept (λ _. Chosen i p) (put_keys wg env i p w)
    unfolding put_keys write_keys
    put_keys-Chosen i p w h free = wrote (env.write w.calls) refl
      where
        stored :
            (j k : ℕ)
            → w.registered j ≡ some k
            → (q : KeyPair) × (get_keys j (insert_keys i p w.keys) ≡ some q) × (q.public_key ≡ k)
        stored j k r =
            let (q, e, same) = h.stored j k r in
            (q, ground (arith, get_keys-insert_keys j i p w.keys, e, same_keys i j w.keys), same)

        failed :
            (x : Writing)
            → env.write w.calls ≡ x
            → x ≢ written
            → (d : Keys) → IsKept (record w { keys = insert_keys i p w.keys; disk = d })
        failed x e bad d = record {
          saved = λ fine. absurd (bad (sym e ∙ fine w.calls));
          stored = stored;
        }

        wrote :
            (x : Writing)
            → env.write w.calls ≡ x
            → After IsKept (λ _. Chosen i p) (write_keys wg env x (insert_keys i p w.keys) w)
        wrote written e = (
          record { saved = λ _. refl; stored = stored },
          get_keys-insert_keys i i p w.keys ∙ ground arith,
        )
        wrote unwritten e = failed unwritten e (λ k. ground (arith, k)) w.disk
        wrote removed e = failed removed e (λ k. ground (arith, k)) []

    choose_keys-Chosen :
        (i : Interface) (o : Option KeyPair) (k : Option ℕ) (w : World wg)
        → IsKept w
        → get_keys i.id w.keys ≡ o
        → After IsKept (Chosen i.id) (choose_keys wg env i o k w)
    unfolding choose_keys
    choose_keys-Chosen i (some p) (some k) w h e =
        if_ind (After IsKept (Chosen i.id)) (p.public_key == k) _ _ (λ _. (h, e)) (λ _. h)
    choose_keys-Chosen i none (some k) w h e = h
    choose_keys-Chosen i none none w h e =
        bind-After IsKept (λ _. Chosen i.id (env.generate_key_pair w.calls)) (Chosen i.id)
          (put_keys wg env i.id (env.generate_key_pair w.calls) w) _
          (put_keys-Chosen i.id (env.generate_key_pair w.calls) w h e) (λ _ w1 c. c)
    choose_keys-Chosen i (some p) none w h e = (h, e)

    set_pubk-Chosen :
        (i : ℕ) (p : KeyPair) (w : World wg)
        → Chosen i p w
        → Chosen i p (set_pubk wg env i p.public_key w).0
    unfolding set_pubk
    set_pubk-Chosen i p w (h, e) =
        replied-keeps (Chosen i p) (env.reply w.calls) _ _ _
          (record { saved = h.saved; stored = h.stored }, e)
          (record { saved = h.saved; stored = stored }, e)
      where
        stored :
            (j k : ℕ)
            → update i (some p.public_key) w.registered j ≡ some k
            → (q : KeyPair) × (get_keys j w.keys ≡ some q) × (q.public_key ≡ k)
        stored j k r = elim (Bool-cases (i == j)) [
          | inl same ↦ (p, ground (arith, same_keys i j w.keys), ground arith)
          | inr other ↦ h.stored j k (ground arith)
        ]

    publish_key-Chosen :
        (i : Interface) (p : KeyPair) (k : Option ℕ) (w : World wg)
        → Chosen i.id p w
        → After (Chosen i.id p) (λ _. Chosen i.id p) (publish_key wg env i p k w)
    unfolding publish_key
    publish_key-Chosen i p (some k) w h = h
    publish_key-Chosen i p none w h =
        with_retry-After (Chosen i.id p) (set_pubk wg env i.id p.public_key)
          (set_pubk-Chosen i.id p) w h

    -- What does not touch keys.
    sync_device-keeps :
        (i : Interface) (o : Option (Device wg)) (w : World wg)
        → IsKept w
        → IsKept (sync_device wg env i o w).0
    unfolding sync_device
    sync_device-keeps i none w h = h
    sync_device-keeps i (some d) w h = record { saved = h.saved; stored = h.stored }

    sync-keeps : (i : Interface) (w : World wg) → IsKept w → IsKept (sync wg env i w).0
    unfolding sync
    sync-keeps i w h = sync_device-keeps i (w.devices i.id) w h

    initialize-keeps :
        (i : Interface) (p : KeyPair) (o : Option (Device wg)) (w : World wg)
        → IsKept w
        → IsKept (initialize_device wg env i p o w)
    unfolding initialize_device
    initialize-keeps i p none w h = record { saved = h.saved; stored = h.stored }
    initialize-keeps i p (some d) w h = record { saved = h.saved; stored = h.stored }

    sync_or_create-keeps :
        (i : Interface) (p : KeyPair) (r : World wg × Result (Unit {0}))
        → IsKept r.0
        → After IsKept (λ _. IsKept) (sync_or_create wg env i p r)
    unfolding sync_or_create initialize_interface
    sync_or_create-keeps i p (w, ok a) h = h
    sync_or_create-keeps i p (w, err no_interface) h =
        After-both IsKept _ (sync-keeps i _ (initialize-keeps i p (w.devices i.id) w h))
    sync_or_create-keeps i p (w, err api_error) h = h
    sync_or_create-keeps i p (w, err other_error) h = h
    sync_or_create-keeps i p (w, err assertion_error) h = h
    sync_or_create-keeps i p (w, err value_error) h = h
    sync_or_create-keeps i p (w, err out_of_fuel) h = h

    ack-keeps : (i v : ℕ) (w : World wg) → IsKept w → IsKept (ack_interface wg env i v w).0
    unfolding ack_interface
    ack-keeps i v w h =
        replied-keeps IsKept (env.reply w.calls) _ _ _
          (record { saved = h.saved; stored = h.stored })
          (record { saved = h.saved; stored = h.stored })

    After-weaken :
        {A : Type 0} (P P' : World wg → Type 0) (Q Q' : A → World wg → Type 0)
        (r : World wg × Result A)
        → ((w : World wg) → P w → P' w)
        → ((a : A) (w : World wg) → Q a w → Q' a w)
        → After P Q r
        → After P' Q' r
    After-weaken P P' Q Q' (w, ok a) f g h = g a w h
    After-weaken P P' Q Q' (w, err e) f g h = f w h

    publish_and_sync-keeps :
        (i : Interface) (p : KeyPair) (w : World wg)
        → Chosen i.id p w
        → After IsKept (λ _. IsKept) (publish_and_sync wg env i p w)
    unfolding publish_and_sync
    publish_and_sync-keeps i p w h =
        bind-After IsKept (λ _. IsKept) (λ _. IsKept) (publish_key wg env i p i.public_key w) _
          (After-weaken (Chosen i.id p) IsKept (λ _. Chosen i.id p) (λ _. IsKept) _ (λ _ c. c.0)
            (λ _ _ c. c.0) (publish_key-Chosen i p i.public_key w h))
          λ _ w1 h1.
            bind-After IsKept (λ _. IsKept) (λ _. IsKept)
              (sync_or_create wg env i p (sync wg env i w1)) _
              (sync_or_create-keeps i p (sync wg env i w1) (sync-keeps i w1 h1))
              λ _ w2 h2.
                with_retry-After IsKept (ack_interface wg env i.id i.last_modified)
                  (ack-keeps i.id i.last_modified) w2 h2

    After-world :
        {A : Type 0} (P : World wg → Type 0) (r : World wg × Result A) → After P (λ _. P) r → P r.0
    After-world P (w, ok a) h = h
    After-world P (w, err e) h = h

    -- If the key store has in memory the key pair of every public key that the API server has for
    -- an interface, then this still holds after fetch_and_sync of any interface, whatever the
    -- server answers, loses or refuses, and wherever an exception ends the call, also one from
    -- writing the file. And if the file had what is in memory and no file ever fails to be
    -- written, then it still has it.
    pub fetch_and_sync-IsKept :
        (id : ℕ) (w : World wg) → IsKept w → IsKept (fetch_and_sync wg env id w).0
    unfolding fetch_and_sync
    fetch_and_sync-IsKept id w h = After-world IsKept (fetch_and_sync wg env id w) (
        bind-After IsKept (λ _. IsKept) (λ _. IsKept) (with_retry wg (get_interface wg env id) w) _
          (with_retry-After IsKept (get_interface wg env id) (get_interface-keeps id) w h)
          λ i w1 h1.
            bind-After IsKept (Chosen i.id) (λ _. IsKept)
              (choose_keys wg env i (get_keys i.id w1.keys) i.public_key w1) _
              (choose_keys-Chosen i (get_keys i.id w1.keys) i.public_key w1 h1 refl)
              λ p w2 c. publish_and_sync-keeps i p w2 c)
