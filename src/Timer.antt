-- ===== src/Timer.antt =====
-- controlserver/timer.py: the clock that starts and ends ticks. The modules below hold the state
-- and its wire format (`State`, `Redis`), the master and the slave, and the proofs about them.
pub mod State
pub mod Redis
pub mod Master
pub mod Slave
pub mod System
pub mod View
pub mod Phases
pub mod Ticks
pub mod Limit
pub mod Recovery
pub mod Requests
pub mod Schedule
mod Examples
