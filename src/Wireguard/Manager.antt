-- ===== src/Wireguard/Manager.antt =====
-- wireguard_sync/__init__.py: `KeyStore` and `InterfaceManager.fetch_and_sync`, with the part of
-- network_lib.py that makes an interface. The API server and the kernel are parameters. Numbers
-- stand for texts. The hooks for a new interface, which are other programs, are left out.
pub mod Keys
pub mod Synced
use saarctf_gameserver.Prelude.{
  ℕ, zero, suc, ◌+◌, ◌≡◌, Bool, true, false, ◌==◌, Option, none, some, if◌then◌else◌, List, [], ◌∷◌,
}
use saarctf_gameserver.Wireguard.Peers.{Peer, WireGuard, sync_peers}
use saarctf_gameserver.Wireguard.Retry.{
  Result, ok, err, Error, api_error, other_error, assertion_error, value_error, no_interface, retry,
  Retried,
}

pub record KeyPair : Type 0 where
  pub public_key : ℕ
  pub private_key : ℕ

abbrev pub Keys : Type 0
Keys = List (ℕ × KeyPair)

-- `_keys.get(str(team_id))` and `_keys[str(team_id)] = ...`
unfoldable pub get_keys : ℕ → Keys → Option KeyPair
get_keys i [] = none
get_keys i ((j, p) ∷ ks) = if j == i then some p else get_keys i ks

unfoldable pub insert_keys : ℕ → KeyPair → Keys → Keys
insert_keys i p [] = (i, p) ∷ []
insert_keys i p ((j, q) ∷ ks) = if j == i then (i, p) ∷ ks else (j, q) ∷ insert_keys i p ks

-- What the server answers to a call, by the number of calls before it: `lost` has its effect, but
-- the answer is an error of the connection.
pub data Reply : Type 0 where
  answered lost unavailable refused : Reply

-- An interface as the server describes it.
pub record Interface : Type 0 where
  pub id : ℕ
  pub public_key : Option ℕ
  pub peers : List Peer
  pub last_modified : ℕ

abbrev pub update : {A : Type 0} → ℕ → A → (ℕ → A) → ℕ → A
update i x f j = if i == j then x else f j

-- How the new file of the key store comes about: it takes the place of the old one; or there is an
-- OSError while it is written or the old one removed; or after that, and there is no file.
pub data Writing : Type 0 where
  written unwritten removed : Writing

module _ (wg : WireGuard) where
  pub record Device : Type 0 where
    pub state : wg.State
    pub private_key : Option ℕ

  pub record World : Type 0 where
    -- the key store in memory, and its file
    pub keys : Keys
    pub disk : Keys
    -- what the server has: the public keys, and the versions that were acknowledged
    pub registered : ℕ → Option ℕ
    pub acked : List (ℕ × ℕ)
    pub devices : ℕ → Option Device
    pub calls : ℕ

  abbrev pub M : Type 0 → Type 0
  M A = World → World × Result A

  abbrev pub bind : {A B : Type 0} → World × Result A → (A → M B) → World × Result B
  bind (w, ok a) f = f a w
  bind (w, err e) f = (w, err e)

  abbrev pub retried : {A : Type 0} → Retried World A → World × Result A
  retried r = (r.world, r.result)

  -- `self.retry(func, ...)`
  unfoldable pub with_retry : {A : Type 0} → M A → M A
  unfolding retry
  with_retry func w = retried (retry func w)

  -- the server, the key pairs that are drawn, the file system, and a new interface of the kernel
  pub record Environment : Type 0 where
    pub reply : ℕ → Reply
    pub peers : ℕ → List Peer
    pub last_modified : ℕ → ℕ
    pub generate_key_pair : ℕ → KeyPair
    pub write : ℕ → Writing
    pub fresh : wg.State

  -- the world without and with the effect, and the value
  abbrev pub replied : {A : Type 0} → Reply → World → World → A → World × Result A
  replied answered w done a = (done, ok a)
  replied lost w done a = (done, err api_error)
  replied unavailable w done a = (w, err api_error)
  replied refused w done a = (w, err other_error)

  module _ (env : Environment) where
    -- a call with an effect on the server and a value
    abbrev pub request : {A : Type 0} → (World → World) → (World → A) → M A
    request effect value w =
        let w' = record w { calls = w.calls + 1 } in
        replied (env.reply w.calls) w' (effect w') (value w')

    unfoldable pub get_interface : ℕ → M Interface
    get_interface i =
        request (λ w. w)
          (λ w. record {
            id = i;
            public_key = w.registered i;
            peers = env.peers i;
            last_modified = env.last_modified i;
          })

    unfoldable pub set_pubk : ℕ → ℕ → M (Unit {0})
    set_pubk i k = request (λ w. record w { registered = update i (some k) w.registered }) (λ _. tt)

    unfoldable pub ack_interface : ℕ → ℕ → M (Unit {0})
    ack_interface i version = request (λ w. record w { acked = (i, version) ∷ w.acked }) (λ _. tt)

    -- `put_keys`: first the memory, then the file
    unfoldable pub write_keys : Writing → Keys → M (Unit {0})
    write_keys written ks w = (record w { keys = ks; disk = ks }, ok tt)
    write_keys unwritten ks w = (record w { keys = ks }, err other_error)
    write_keys removed ks w = (record w { keys = ks; disk = [] }, err other_error)

    unfoldable pub put_keys : ℕ → KeyPair → M (Unit {0})
    unfolding write_keys
    put_keys i p w = write_keys (env.write w.calls) (insert_keys i p w.keys) w

    -- The key pair of the interface: the stored one, or a new one that is stored first.
    unfoldable pub choose_keys : Interface → Option KeyPair → Option ℕ → M KeyPair
    unfolding put_keys
    choose_keys i (some p) (some k) w =
        if p.public_key == k then (w, ok p) else (w, err assertion_error)
    choose_keys i none (some k) w = (w, err value_error)
    choose_keys i none none w =
        let p = env.generate_key_pair w.calls in bind (put_keys i.id p w) λ _ w1. (w1, ok p)
    choose_keys i (some p) none w = (w, ok p)

    unfoldable pub publish_key : Interface → KeyPair → Option ℕ → M (Unit {0})
    unfolding with_retry set_pubk
    publish_key i p (some k) w = (w, ok tt)
    publish_key i p none w = with_retry (set_pubk i.id p.public_key) w

    -- `sync`, on the interface if there is one
    unfoldable pub sync_device : Interface → Option Device → M (Unit {0})
    unfolding sync_peers
    sync_device i none w = (w, err no_interface)
    sync_device i (some d) w = (
      record w {
        devices = update i.id (some (record d { state = sync_peers wg i.peers d.state })) w.devices;
      },
      ok tt,
    )

    unfoldable pub sync : Interface → M (Unit {0})
    unfolding sync_device
    sync i w = sync_device i (w.devices i.id) w

    unfoldable pub initialize_device : Interface → KeyPair → Option Device → World → World
    initialize_device i p none w = record w {
      devices =
          update i.id (some (record { state = env.fresh; private_key = some p.private_key }))
            w.devices;
    }
    initialize_device i p (some d) w = record w {
      devices = update i.id (some (record d { private_key = some p.private_key })) w.devices;
    }

    unfoldable pub initialize_interface : Interface → KeyPair → World → World
    unfolding initialize_device
    initialize_interface i p w = initialize_device i p (w.devices i.id) w

    -- `except InterfaceDoesNotExist`
    unfoldable pub sync_or_create :
        Interface → KeyPair → World × Result (Unit {0}) → World × Result (Unit {0})
    unfolding initialize_interface sync
    sync_or_create i p (w, ok a) = (w, ok a)
    sync_or_create i p (w, err no_interface) = sync i (initialize_interface i p w)
    sync_or_create i p (w, err e) = (w, err e)

    unfoldable pub publish_and_sync : Interface → KeyPair → M (Unit {0})
    unfolding publish_key sync_or_create sync with_retry ack_interface
    publish_and_sync i p w = bind (publish_key i p i.public_key w) λ _ w1.
        bind (sync_or_create i p (sync i w1))
          λ _ w2. with_retry (ack_interface i.id i.last_modified) w2

    unfoldable pub fetch_and_sync : ℕ → M (Unit {0})
    unfolding with_retry get_interface choose_keys publish_and_sync
    fetch_and_sync id w = bind (with_retry (get_interface id) w) λ i w1.
        bind (choose_keys i (get_keys i.id w1.keys) i.public_key w1) λ p w2. publish_and_sync i p w2
