-- ===== src/Controller.antt =====
-- src/bin/controller.rs: the controller of a distributed run.
pub mod Barrier
pub mod AgentTracker
