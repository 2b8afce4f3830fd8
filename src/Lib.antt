-- ===== src/Lib.antt =====
-- A model of LineProof's on-chain program, the five Soroban contracts under contracts/, and of the
-- services of its backend, with proofs about them.
--
-- Parts. The queue contract (contracts/lineproof-queue) holds a waiting list: an admin opens and
-- closes enrollment, identities take and give up positions, and the admin advances the positions in
-- order, in batches. The enrollment contract (contracts/lineproof-enrollment) records who enrolled, with
-- a waitlist for duplicates. The identity contract (contracts/lineproof-identity) binds identities to
-- queues and answers whether a position may move. The escrow contract (contracts/lineproof-escrow)
-- records deposits and their running total. The factory (contracts/lineproof-queue-factory) registers
-- and deploys queues. The contracts do not call each other. The backend (backend/src) keeps its own
-- copy of the queues and enrollments for its HTTP interface, limits requests, indexes the contracts'
-- events and delivers webhooks; it has the status table of the queue contract once more.
--
-- Files.
-- Base, Int: Boolean tests, lists and options over the native numbers; integers for i128.
-- Soroban: the calls that a contract makes of the SDK. Schema has the typed storage keys and the events
-- of a contract, Program the programs over a schema, with the SDK's calls under their names, Exec what
-- running a program does to observed storage, and Host the interface of a host with its laws, and what
-- running a program does on such a host.
-- Queue, Escrow, Identity, Factory, Enrollment: one tree for each contract's src/lib.rs. Types has the
-- structs, enums, constants, storage keys and events; Storage, Admin, Lifecycle, Positions, Advance
-- and Contract have the functions, under the source's names, one program for one function; Calls has
-- the entry points that change state as one type, and the histories that calls make. Nothing prevents a
-- second call of the queue contract's initialize; its histories count these calls. Effects says what
-- a call that returned has checked and done; the other files prove properties from it. Tests has runs
-- on concrete data.
-- Backend: Status is schemas/queueStatus.ts, Enrollments, Queues, Escrows, Indexer and Webhooks are the
-- services of these names, and Limiter is middleware/rateLimiter.ts with increment and
-- delete of storage/memoryAdapter.ts.
-- Each has a record for what is stored and one function per operation, and child modules with the
-- proofs; Mirror compares the statuses with the queue contract's.
--
-- State. The storage of a contract is a function from its keys to optional values, with the log of
-- published events. A panic, a missing signature, an overflow, an unwrap of None, or a TTL extension of
-- an entry that does not exist is a fault, and a call that faults leaves no state: the host rolls it
-- back. A u32, u64 or i128 result is checked where it is computed, as overflow-checks in the release
-- profile has it. Addresses, symbols and hashes are numbers, since the contracts only compare them.
--
-- Not under src/, and parameters of the model: the ledger's time, the signatures of an invocation, the
-- deployer, sha256 over XDR and the symbols of strings are fields of Env. The host's store is a record
-- of operations and laws. In the backend the readings of the clock, the raw events of a poll and the
-- answers of a webhook's receiver are arguments.
--
-- Bounds. The loop of advance takes batch_size rounds and the loop of promote_from_waitlist the number
-- of promotions; both are structural recursions on these numbers, so no fuel is chosen. send_with_retry of the
-- webhooks is on fuel; four calls are enough, since it makes at most four attempts.
--
-- Not modelled: the time to live of entries (their expiry and archival), since only the arguments of
-- the extensions are kept; resource limits and fees; the patched host under contracts/.patched; the
-- tests; of the backend the routes, the statistics of a queue, the timers, and the
-- adapters of a database and of a chain, which are a skeleton and a stub; the SDK and the front end.
pub mod Backend
pub mod Base
pub mod Enrollment
pub mod Escrow
pub mod Factory
pub mod Identity
pub mod Int
pub mod Queue
pub mod Soroban
