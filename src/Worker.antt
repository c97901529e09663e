-- ===== src/Worker.antt =====
-- Workers: cys_core/application/use_cases/run_worker_job.py, interfaces/worker/orchestrator.py,
-- `InMemoryJobQueue` of cys_core/infrastructure/queue.py and `LocalSandboxConnector` of
-- cys_core/infrastructure/sandbox.py.
pub mod Station
pub mod Steps
pub mod Run
pub mod Orchestrate
pub mod Settles
pub mod Publishing
pub mod Calm
pub mod Drain
pub mod Sessions
