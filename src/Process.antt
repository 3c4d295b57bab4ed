-- ===== src/Process.antt =====
-- The processes that trade: the manager of src/process and the child of src/worker.ts.
pub mod Manager
pub mod Child
mod Tests
