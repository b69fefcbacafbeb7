-- ===== src/Wireguard.antt =====
-- wireguard-sync: the peers of the WireGuard interfaces (wireguard_sync/network_lib.py), and the
-- key store, the retries and the synchronisation of an interface (wireguard_sync/__init__.py).
pub mod Peers
pub mod Retry
pub mod Manager
mod Kernel
mod Examples
