-- ===== src/Scoring.antt =====
-- controlserver/scoring: points for each tick, team and service, the ranking of the teams, and the
-- first teams to steal a flag.
pub mod Float
pub mod Ranking
pub mod Filtered
pub mod Points
pub mod Tick
pub mod Algorithms
pub mod FirstBlood
pub mod Calculation
pub mod Samples
mod Examples
