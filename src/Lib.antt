-- ===== src/Lib.antt =====
-- A verification library for the DAG-BFT system with validator-level load balancing.
--
-- The system: workers collect client transactions into batches and hand their digests to their
-- primary. The primaries exchange headers, vote on them, and turn quorums of votes into
-- certificates that cite a quorum of the previous round: the DAG. The committer of each validator
-- elects a leader in every second round, commits a leader with f + 1 of support, and flattens the
-- sub-dag below it into a sequence that the executors run.
--
-- Which file models what (functions keep their names, methods take the state as an argument and
-- return the new state; a Rust panic is `none`):
--   Base             lists, maps and Boolean tests that the components share; Base/Keys: maps
--                    that have no key twice.
--   Config           config/src/lib.rs: the committee. Config/Thresholds: its two thresholds.
--   Primary/Errors   primary/src/error.rs. Primary/Messages, Primary/Verify:
--                    primary/src/messages.rs. Primary/Aggregators: primary/src/aggregators.rs.
--   Store            store/src/lib.rs: the in-memory and the RocksDB storage task.
--   Primary/Node     what the primary's tasks share. Primary/Synchronizer: primary/src/synchronizer.rs.
--   Primary/Core     primary/src/core.rs, the handlers; Primary/Core/Admission: the checks of
--                    `process_header` (Parents, Counts and Quorum tell what they mean);
--                    Primary/Core/Steps: the loop with its clean-up.
--   Primary/Proposer primary/src/proposer.rs. Primary/HeaderWaiter: primary/src/header_waiter.rs.
--   Primary/GarbageCollector  primary/src/garbage_collector.rs. Primary/Migrations: the notices of
--                    primary/src/messages.rs. Primary/Forwarding: the tasks that pass values on
--                    (certificate_waiter.rs, helper.rs, payload_receiver.rs).
--   Worker           worker/src: the formats of transactions (Transaction, Workload), the batches
--                    (BatchMaker), the wait for acknowledgements (QuorumWaiter), the messages between
--                    workers (Messages), the balances of an account (Account), the counts of a batch
--                    (Processor), the requests for batches and their clean-up (Synchronizer), the
--                    migration notices for clients (Migrations), the
--                    way of committed batches to the executors (Router), and the tasks that pass
--                    values on (Forwarding: helper.rs, state_helper.rs, client_replier.rs).
--   Worker/BatchExecutor  worker/src/batch_executor.rs: who executes a transaction (Locality), the
--                    two schedulers (Scheduler), the queues of waiting transactions (Queues), the
--                    execution of one transaction and the drain of the queues (Execute), the
--                    accounts that arrive (Transfers), a batch (Batches), the order of the batches
--                    (Sequence). Conserved counts the accounts that an executor has.
--   Consensus        consensus/src/lib.rs: `State` and `Consensus::leader`; Consensus/Linked:
--                    `linked`; Consensus/Leaders: `order_leaders`; Consensus/SubDag: `order_dag`;
--                    Consensus/Commit: the body of `Consensus::run`; Consensus/Elected: whose turn
--                    it is to lead.
--   Node             node/src/main.rs: `analyze`.
--   Network          network/src/reliable_sender.rs: a connection.
-- The `Examples` modules have concrete data and the theorems at it.
--
-- Conventions. Public keys, digests, signatures and addresses are the natural numbers that their
-- bytes spell. A `HashMap` or `BTreeMap` is an association list; iteration over a `HashMap` is in
-- list order, and the theorems hold for each order of a list. Stakes wrap at 32 bits and rounds at
-- 64 bits where the code adds to them; the counters of an executor and its sequence numbers do not
-- wrap. Channels are the lists of values that a step returns, or that a state has sent.
-- SHA-512, ed25519, bincode, RocksDB and the signature service are parameters; the clock, timers and
-- the order in which messages arrive are inputs. Where the code takes the unlocked accounts of a
-- `HashSet` in any order, the drain takes them first in, first out; the accounts that wait to be
-- taken in do not grow while an executor runs through its batches.
--
-- Fuel: the loop of `order_dag` has the number of entries of the dag and two more; each entry is
-- pushed once, since its digest is marked, so this is enough. The handlers of the core, which call
-- each other, have a fuel of two: a second call from within meets our own vote, which is counted
-- already. The drain of the queues has one turn for each queued transaction, two for each account
-- that the transaction requires and two for each unlocked account; a transaction that is executed
-- leaves its queues and unlocks its accounts at most, so this is enough. The loop over the buffered
-- batches has the length of the buffer. The other loops recur on lists and on counted rounds.
--
-- Not modelled: sockets, the wiring of tasks, logging, the command line, the benchmark scripts,
-- the benchmark client, the copy of the repository under executor-replay, and, so far, the simple
-- sender, the write-back executors, the initial partition and the load balancing.
pub mod Base
pub mod Config
pub mod Primary
pub mod Store
pub mod Consensus
pub mod Worker
pub mod Node
pub mod Network
