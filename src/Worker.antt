-- ===== src/Worker.antt =====
-- law_agent/review/worker.py: a worker claims a task, runs it, and records what came of it.
--
-- Queue has the protocol ReviewTaskQueue, with the exceptions that its methods may raise, and what
-- a queue promises; Run the methods of ReviewWorker over any queue; InMemory the queue of
-- enterprise_store.py. The other files are named for what they prove.
pub mod Queue
pub mod Run
pub mod Fencing
pub mod Reliable
pub mod Reported
pub mod InMemory
pub mod Stops
pub mod Pass
