-- ===== src/Saas/Worker.antt =====
-- src/saas/worker.ts: the leader that runs the bots' processes.
pub mod Logs
pub mod State
pub mod Bots
pub mod Restarts
pub mod Commands
pub mod Leader
