-- ===== src/Vpn.antt =====
-- The network of the game: who may talk to whom. `Network` is the control server's side, `Firewall`
-- the script on the VPN server, and `Ctl` starts and stops the VPN servers of the teams.
pub mod Ctl
pub mod Network
pub mod Firewall
pub mod Connections
pub mod Watch
pub mod Status
mod Examples
