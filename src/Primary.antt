-- ===== src/Primary.antt =====
-- primary/src: the DAG, its messages and the tasks that build it.
pub mod Errors
pub mod Messages
pub mod Verify
pub mod Aggregators
pub mod Node
pub mod Synchronizer
pub mod Core
pub mod Proposer
pub mod HeaderWaiter
pub mod GarbageCollector
pub mod Migrations
pub mod Forwarding
pub mod Examples
