-- ===== src/Runner.antt =====
-- The execution of checker scripts (checker_runner): the runner for enochecker scripts.
pub mod Slots
pub mod Eno
mod Examples
