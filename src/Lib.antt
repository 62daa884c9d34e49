-- ===== src/Lib.antt =====
-- A verification library for go-pevm, which executes the transactions of a block in parallel. Every
-- transaction runs on its own tracer, which records what it reads and writes under storage keys.
-- The writes go to a multi-version store, as one version per key and transaction. A transaction
-- reads the parent state, and aborts where an earlier transaction has left an estimate. The scheduler
-- executes tasks, validates what they have read against the latest versions before them, marks the
-- writes of stale ones as estimates and runs them again, and flushes what is validated to the parent
-- state.
--
-- Files, and the code that each is about:
--   Versions        multiversion/data_structure.go. The B-tree of `multiVersionItem` is a value;
--                   `set`, `delete`, `remove` and `set_estimate` are Set, Delete, Remove and
--                   SetEstimate. Order, Reads and Writes hold the lemmas.
--   Keys            multiversion/storage_key.go. ToStorageKey, Address, Slot, GetValue, SetValue.
--   Store           multiversion/store.go. `Store` has multiVersionMap, txWritesetKeys, txReadSets
--                   and parentStore; the maps are association lists in the order of a `range`.
--                   Validation is checkReadsetAtIndex and ValidateTransactionState, Flush is
--                   WriteLatestToStore and WriteLatestToStoreUntil. Refinement has the calls of the
--                   store as data, beside a map of versions; Orders is about two calls in either
--                   order, Flush/Views about reads after a flush. The other children are lemmas.
--   Tracer          multiversion/tracer.go. `get_key` is Get, `set` is Set, and so on; Callbacks has
--                   CaptureStart, CaptureState, CaptureTxEnd and getData. Runs puts the callbacks of
--                   one transaction in a row. Reference is what these write as a function of the
--                   values of keys, with no store and no readset; Uses is about the keys they touch.
--   Scheduler       scheduler/scheduler.go. `DeliverTxTask` is the task, `World` the scheduler.
--                   Rounds has executeTask, executeAll and the closure of validateAll, Processing has
--                   validateAll and ProcessAll, Setup NewScheduler. Serial states what it is to
--                   read serially; its children follow executeAll (Executions), validateAll
--                   (Validations), the flush of a round (Flushes) and the loop (Rounds). Disjoint is
--                   about blocks in which no transaction reads what an earlier one may write.
--                   Sequential has the reference for ProcessAll, transactions one after the other,
--                   and relates the end of a block to it. Pool is the workers of start, DoExecute and
--                   executeAll, with their channel and WaitGroup, as a step relation: the order in
--                   which they finish tasks is what a schedule stands for.
--   Processor       processor/processor.go. NewProcessor, Execute and deliverTx. Deliveries and Values
--                   relate deliverTx to what the scheduler asks of a delivery: that it is honest, and
--                   which keys it uses. InOrder puts tracer, scheduler and processor together for
--                   Execute.
--   Chain           chain/chain.go. NewExecutor and CommitTransaction.
--   Storage         storage/storage.go: Has, and CommitPreState after its file has been decoded;
--                   Journal is storage/expose_journal.go.
--   External        the packages google/btree and kaia, as records of operations with the laws that
--                   the code relies on. Definitions take them as instance arguments.
--   Shared          Go's `int` as an integer, maps, texts, and arithmetic of math/big.
--   Examples        small instances of the packages, and the theorems at concrete inputs.
--
-- How code is written down: a method that changes its receiver returns the new value. A panic, a
-- nil pointer included, is `none`. Indices of transactions are integers, since tests use negative
-- ones and -1 stands for none. Pointers to tasks are positions in one list of tasks. `uint64` keeps
-- its wrap-around in getData.
--
-- Loops are structural recursion. The loop of ProcessAll recurses on the rounds left, that is
-- maximumIterations minus the iterations done; the code leaves the loop or its parallel mode when
-- that is used up, so no fuel is added. The goroutines of a round take whole tasks as steps, in an
-- order that a schedule gives; each theorem says which tasks the schedule has to name. The workers
-- under a schedule are in Scheduler/Pool, for any number of workers and any order of their steps; the
-- bound there is three steps for each task, which is sent, taken and finished.
--
-- Reads of an account's code (EXTCODECOPY, EXTCODEHASH, EXTCODESIZE) have keys, but no write has one:
-- the tracer does not record that code is set. Results that compare values after a flush therefore
-- leave them out. Finalise, which ends a flush, drops accounts that are empty or marked as
-- self-destructed, with their slots; its laws are for accounts that stay. Results on several flushes
-- therefore ask that slots are written of accounts with code only, that no account is marked, and that
-- accounts with no code have nothing in their slots. What an applied transaction does is a parameter:
-- where responses are compared with those of transactions in order, what deliveries mean as functions
-- of the values that they read is a named hypothesis, HasMeaning.
--
-- Not modelled: kaia's EVM and ApplyTransaction, which are parameters: applying a transaction gives
-- the calls of the tracer, with CaptureStart first or without it, and what is left; the context of logs beyond the one
-- assignment of deliverTx; locks, and interleavings inside the step of one task; a second
-- call of ProcessAll on one scheduler, which Execute never makes; the functions of chain/chain.go and
-- storage/ that open databases and files, and GetJournal, which uses reflection; scheduler/error.go
-- and constants/, which hold constants; contracts/, which is generated; the tests and data/.
pub mod Shared
pub mod External
pub mod Versions
pub mod Keys
pub mod Store
pub mod Tracer
pub mod Scheduler
pub mod Processor
pub mod Chain
pub mod Storage
pub mod Examples
