-- ===== src/Wireguard/Examples.antt =====
-- Tests of the synchronisation of interfaces, and its theorems at concrete inputs.
use saarctf_gameserver.Prelude.{ℕ, zero, suc, ◌+◌, ◌≤◌, ◌≡◌, refl, none, some, List, [], ◌∷◌, arith}
use saarctf_gameserver.Wireguard.Peers.{
  Peer, sync_peers, has_peer, contains_peer, difference, add_all, remove_all, add_peer, remove_peer,
}
use saarctf_gameserver.Wireguard.Peers.Exact.{IsRequest, sync_peers-exact}
use saarctf_gameserver.Wireguard.Retry.{Result, ok, err, api_error, retry_limit, retry, retry_loop}
use saarctf_gameserver.Wireguard.Retry.Bounded.{IsRetried, retry-IsRetried}
use saarctf_gameserver.Wireguard.Manager.{
  World, Environment, written, unwritten, answered, unavailable, fetch_and_sync, get_keys,
  insert_keys,
}
use saarctf_gameserver.Wireguard.Manager.Keys.{IsKept, fetch_and_sync-IsKept}
use saarctf_gameserver.Wireguard.Manager.Synced.{Completed, fetch_and_sync-Completed}
use saarctf_gameserver.Wireguard.Kernel.{kernel, kernel-IsWireGuard, visible, keep_apart, drop_key}

abbrev peer : ℕ → ℕ → Peer
peer k c = record { public_key = k; cidr = c }

abbrev requested : List Peer
requested = peer 1 10 ∷ peer 2 20 ∷ []

requested-IsRequest : IsRequest kernel kernel-IsWireGuard requested
requested-IsRequest = (λ q h. ground arith, ((λ q h. cc), tt))

-- The key 1 has moved from address 20 to 10, and the key 3 is not wanted any more.
abbrev before : List Peer
before = peer 1 20 ∷ peer 3 10 ∷ []

synced : sync_peers kernel requested before ≡ peer 2 20 ∷ peer 1 10 ∷ []
unfolding sync_peers difference remove_all add_all add_peer remove_peer visible keep_apart drop_key
synced = refl

sync_peers-exact_example :
    has_peer kernel (sync_peers kernel requested before) (peer 2 20)
    ≡ contains_peer requested (peer 2 20)
sync_peers-exact_example =
    sync_peers-exact kernel kernel-IsWireGuard requested before requested-IsRequest (peer 2 20)

-- A call that fails twice.
abbrev third : ℕ → ℕ × Result ℕ
third n = (
  n + 1,
  elim n [ zero ↦ err api_error | suc m ↦ elim m [ zero ↦ err api_error | suc k ↦ ok 7 ] ],
)

third_retried : retry third 0 ≡ record { world = 3; result = ok 7; slept = 3 }
unfolding retry retry_loop
third_retried = refl

retry-IsRetried_example :
    (k : ℕ) × IsRetried third 0 retry_limit k (retry third 0) × ((retry third 0).slept ≤ 7)
retry-IsRetried_example = retry-IsRetried third 0

-- The first answer of the server is lost.
abbrev environment : Environment kernel
environment = record {
  reply = λ n. elim n [ zero ↦ unavailable | suc m ↦ answered ];
  peers = λ i. requested;
  last_modified = λ i. 5;
  generate_key_pair = λ n. record { public_key = 100 + n; private_key = 200 + n };
  write = λ n. written;
  fresh = [];
}

abbrev start : World kernel
start = record {
  keys = [];
  disk = [];
  registered = λ i. none;
  acked = [];
  devices = λ i. none;
  calls = 0;
}

start-IsKept : IsKept kernel environment start
start-IsKept = record { saved = λ _. refl; stored = λ i k h. absurd (ground arith) }

abbrev after_sync : World kernel
after_sync = (fetch_and_sync kernel environment 4 start).0

returns : fetch_and_sync kernel environment 4 start ≡ (after_sync, ok tt)
unfolding fetch_and_sync get_keys
returns = refl

acked_after : after_sync.acked ≡ (4, 5) ∷ []
unfolding fetch_and_sync get_keys
acked_after = refl

fetch_and_sync-IsKept_example : IsKept kernel environment after_sync
fetch_and_sync-IsKept_example = fetch_and_sync-IsKept kernel environment 4 start start-IsKept

fetch_and_sync-Completed_example : Completed kernel environment kernel-IsWireGuard 4 after_sync
fetch_and_sync-Completed_example =
    fetch_and_sync-Completed kernel environment kernel-IsWireGuard 4 start after_sync refl
      requested-IsRequest returns

-- A key pair that could not be written stays in memory, and the next call publishes it.
abbrev no_space : Environment kernel
no_space = record environment { reply = λ n. answered; write = λ n. unwritten }

abbrev after_two : World kernel
after_two = (fetch_and_sync kernel no_space 4 (fetch_and_sync kernel no_space 4 start).0).0

published_unsaved : (after_two.disk ≡ []) × (after_two.registered 4 ≡ some 101)
unfolding fetch_and_sync get_keys insert_keys
published_unsaved = (refl, refl)
