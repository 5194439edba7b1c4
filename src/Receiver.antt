-- ===== src/Receiver.antt =====
-- receiver/: the Receiver side, a module to each file of the package, and the backoff of the Poller.
pub mod Backoff
pub mod Sink
pub mod Rounds
pub mod Poller
pub mod Challenge
pub mod PushHandler
