-- ===== src/Vpn/Ctl.antt =====
-- vpn/vpnctl.py: the VPN servers of the teams, which are services of systemd, and the records of
-- who is connected. `Check` judges the status of a team and `Fix` repairs it.
pub mod System
pub mod Check
pub mod Fix
pub mod Plan
pub mod Repairs
pub mod Verdict
