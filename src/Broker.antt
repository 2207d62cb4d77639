-- ===== src/Broker.antt =====
-- src/clausis/broker.py: the action broker and the executor of fixed argument vectors.
pub mod Executor
pub mod Submit
pub mod Authorisation
pub mod Journal
pub mod Replay
