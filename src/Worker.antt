-- ===== src/Worker.antt =====
-- worker/src: batches of transactions, and the format of a transaction.
pub mod Bytes
pub mod Workload
pub mod Account
pub mod Transaction
pub mod BatchExecutor
pub mod Messages
pub mod Router
pub mod Processor
pub mod Synchronizer
pub mod Forwarding
pub mod Migrations
pub mod BatchMaker
pub mod QuorumWaiter
pub mod Examples
