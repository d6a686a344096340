-- ===== src/Lib.antt =====
-- AutoPilot: a verification library for the consensus and data layer of the Rust workspace.
--
-- The program is a BFT replica. Each authority runs a primary (`primary/src`) and workers
-- (`worker/src`). Primaries disseminate headers, whose voters form certificates ("cars"), and agree on
-- cuts of the cars in numbered slots: a leader sends a Prepare, votes on it form a certificate, which
-- a Confirm or, on the fast path, a Commit carries. A slot that makes no progress in a view times
-- out; timeouts form a timeout certificate, and the next leader proposes what it recovers. The
-- committee and its stake are in `config/src`, keys and signatures in `crypto/src`.
--
-- The parts and their files:
--   Prelude          shared names: tests on numbers, list functions, association lists, results
--   Crypto           crypto/src/lib.rs: the checks of signatures, over the crates ed25519-dalek and
--                    sha2, which are the record `Dalek` and a parameter of all that uses them
--   Config           config/src/lib.rs: `Committee` (Config/Committee), with lemmas on stake
--                    (Stakes), on the thresholds (Thresholds) and on how a committee is built (Build)
--   Messages         primary/src/messages.rs and primary/src/error.rs: the data (Types, Errors), the
--                    digests (Digests), `verify` of each message (Certificates, Verify, Reports) over
--                    one loop that checks voters (Voters), and `TC::get_winning_proposals` (Winning);
--                    lemmas on certificates (Quorums), on digests (Bytes, Binding), on recovered
--                    proposals (Recovery) and on reports (Coordination)
--   Aggregators      primary/src/aggregators.rs: `VotesAggregator`, `QCMaker`, `TCMaker`; lemmas on
--                    each (Cars; Quorum and Once; Expiry)
--   Core             primary/src/core.rs and primary/src/leader.rs: the leader (Leader), the state
--                    (State), epochs and the bound on open instances (Slots, Epochs), timeouts and
--                    the change of view (ViewChange, Views, Timeouts), Prepare tickets and new slots
--                    (Tickets; Proposing, Queue, Coverage), `is_valid` and the votes on consensus
--                    messages (Validity, Voting; Accepted, Ballots, Forged), requests (Requests;
--                    Overwritten), the votes on own messages and headers (Tally; Certifying,
--                    Phases, HandOver), commits and coordination certificates (Commits; Kept, Committed,
--                    Certificates), state reports (Collection; Collected,
--                    Expiring), and headers (Headers; VotesOnce over Quiet, Kept and Silent: what
--                    handlers keep)
--   Committer        primary/src/committer.rs: the execution of committed slots; lemmas on its order
--                    (Order), on the executed heights (Heights) and on when it returns (Returns)
--   Store            store/src/lib.rs: the command loop, over RocksDB's `get` and `put` as parameters;
--                    lemmas on the senders that wait for a key (Waiting)
--   Synchronizer     primary/src/synchronizer.rs: what a primary lacks and asks for, over a view of the
--                    store; proposals (Search, Missing), lanes (Ancestors), optimistic tips (Tips)
--   Proposer         primary/src/proposer.rs: when a header is made; the lane of its headers (Lane)
--   Worker           worker/src/batch_maker.rs: the batch maker (BatchMaker), against a stream of
--                    transactions (Batches)
--   Tests            a committee of four with a toy signature scheme, and concrete uses
--
-- A method that takes `&mut self` is a function that returns the new state as well. A handler of
-- the core returns the new state; what it sends on channels, over the network or to timers is
-- appended to the list `out` in the order of the calls. `send_consensus_req` ends with the primary
-- processing its own request. Where votes form a Confirm or a Commit (Tally) that call is the
-- parameter `own`, which `Requests.process_own_request` gives; `keep` is the state returned where
-- it is not made. Where a Prepare is sent for a new slot or view (Tickets, ViewChange), which
-- happens without ride sharing only, it is an event of its own: the functions that lead there are
-- the whole handlers in a primary with ride sharing, and without it the part of them before that
-- call. Handlers that also use the synchronizer take and return its state beside the core's.
-- `HashMap` and `HashSet` are association lists and lists. Numbers are natural numbers, with the
-- wrap-around of `u32` and `u64` in a release build written out. Digests and keys are the numbers
-- that their bytes spell.
--
-- A panic of the source is `none`. Modelled loops are structural recursions, but for four. The loop
-- of `try_prepare_waiting_slots` counts the tickets that wait at its start, as the source does.
-- `Committer.execute_slots` runs on fuel, and gets the length of the log: each turn takes another
-- slot of the log; out of fuel before the loop has ended it gives `none`.
-- `Requests.process_own_request` runs on fuel for requests within requests: a Prepare leads to a
-- Confirm or a Commit, and a Confirm to a Commit, which leads to no vote, so that three are enough.
-- `Synchronizer.climb_down` runs on fuel: the height of a proposal above the height at which the
-- loop stops, since in a linked store each turn goes down by one.
--
-- A committee is valid (`Config.Stakes.IsValid`) if its keys are distinct, as those of a `BTreeMap`
-- are, and if the total stake, doubled, fits a `u32`.
--
-- Not modelled: the loop of the core that selects among its channels; the waiters and the helper of
-- the primary; the tasks of the worker but the batch maker; the simulated faults; the parameter
-- updates by the learning agent (`Agent`) and the statistics for it; sockets, files and the
-- database; the crates `consensus`, `hotstuff` and `sailfish`, which the workspace does not build.
pub mod Prelude
pub mod Crypto
pub mod Config
pub mod Messages
pub mod Aggregators
pub mod Core
pub mod Committer
pub mod Store
pub mod Synchronizer
pub mod Proposer
pub mod Worker
pub mod Tests
