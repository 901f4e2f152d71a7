-- ===== src/Lib.antt =====
-- A verification library for archLoop, the orchestrator of coding agents in this repository.
--
-- The program. archLoop runs agents on the tasks of a Hub project, in worktrees of their own, and
-- lands the verified branches on a publish target. A worktree is leased to one process at a time
-- (src/WorktreeLease.ts). Landing is ordered by a durable queue: a merge ready task gets a ticket
-- with a sequence number (src/hubLandingQueue.ts), the head of the queue lands, and what lands under
-- a required delivery holds the later tickets until it is delivered. The landing of a task is a
-- transaction, whose checkpoints go to a journal (src/hubLandingTransaction.ts); the journal is the
-- proof that the task is shipped, which lets the tasks land that it blocks. A run that was stopped
-- leaves tasks in the middle of an execution without a live lease; the next run finds them
-- (src/hubTaskInterruptedExecutionDetector.ts), asks the log of events where each one goes
-- (src/hubTaskRecoveryRouter.ts) and recovers them before it starts (src/hubRunAutoRecover.ts).
-- A run takes its tasks in batches, which a planner proposes and the code checks, completes and
-- checks again on the fresh board (src/hubBatchPlanner.ts). The status of a task is read from its
-- labels and metadata in the task store, and every change of it goes through one transition, which
-- writes, reads the task back and checks it (src/taskBoard.ts); the run records each outcome as
-- an event and a transition (src/hubTaskLifecycle.ts), and recovery moves a failed or interrupted
-- task on by such a transition (src/hubTaskRecover.ts). An agent works in iterations until it
-- signals that it is done (src/Orchestrator.ts). The text that agents stream is shown in
-- chunks (src/TextDeltaBuffer.ts).
--
-- The files.
--   Prelude              shared names: tests and conditionals, lists, texts, JSON values
--   Landing/Queue        src/hubLandingQueue.ts: tickets and the queue file; TicketId, Assign, Head,
--                        Marks and Quiet hold the operations, the other children the proofs
--   Landing/Transaction  src/hubLandingTransaction.ts: records, their reduction and the journal;
--                        Shipped holds `deriveHubLandingShipped`, Journal the reading of the
--                        file and Write what is written to it, Reduce, Entries, Append and
--                        Readable the proofs
--   Lease                src/WorktreeLease.ts: the lease file of a branch; Metadata holds its
--                        content, Exclusive what one process meets, Race several processes, Store
--                        the listing of lease files, src/worktreeLeaseStore.ts
--   Recovery             Router and Routed: the target of a recovery; Branch: the derived branches
--                        of src/taskBoard.ts; Detector and Detected: the scan; Startup and
--                        Attempted: the recovery at the start of a run
--   Planner              src/hubBatchPlanner.ts: the strategies without a planner; Answer holds the use
--                        of the planner's answer, Fresh the check on the fresh board, Selected,
--                        Freshness and Repeated the proofs; Blockers the resolution
--                        of blockers in src/hubBatchPlannerCandidates.ts, Resolved its proofs
--   Board                src/taskBoard.ts: Status and Projection hold how a task is read, Written and
--                        Transition the change of its status, Metadata the records; Store what is
--                        relied on of the task store; Labels, Cleared, Lookup, Settled, Projected,
--                        Stored, Moved and Carried hold the proofs, Sample a task store for tests
--   Lifecycle            src/hubTaskLifecycle.ts: the events and transitions of a run; Claiming: the
--                        claim of a task, src/taskBoard.ts; Claimant, Logged and Conflict hold the
--                        proofs
--   Recover              src/hubTaskRecover.ts: the plan of a recovery, in Apply its application;
--                        Said, Planned and Applied hold the proofs
--   Orchestrator         src/Orchestrator.ts: the iterations of a run; Attempts tells which ones are
--                        made, Bounded and Summed hold the proofs
--   TextBuffer           src/TextDeltaBuffer.ts: the class and its steps; Stream holds the proofs
--
-- The model. The file `queue.json` is what `readHubLandingQueue` returns for it, a queue or
-- nothing; each operation takes it and returns what it writes, with its result. Sequence numbers
-- are natural numbers, as `assignHubLandingQueueTickets` makes them from 1 on. The time is an
-- argument. `sort` is an insertion sort, which is stable as JavaScript's is. Loops are recursions
-- on lists; the decimal digits of a number take its successor as fuel, more than its digits.
-- A journal file is its lines that are not blank, each a JSON value or not. A lease
-- file is a JSON value or a text that is not JSON, and the operating system's answer whether a
-- process is alive is a parameter. In Race each step on the
-- file system is atomic, making a lease file and writing it are one step, whether the worktree is
-- there does not change, and a schedule is a list of the processes whose turn it is. Lower case is
-- exact for the characters that branch names keep; all others are replaced alike.
-- The planner's answer comes parsed, and its candidates in the shape that is read. In Recovery the
-- recovery of one task is a parameter, a function on whatever state it changes; Recover holds the
-- program's own. The task store `bd` is a parameter with two operations, to show a task and to update
-- it, and Board.Store.IsTaskStore says what is relied on: an update of a task that is shown
-- succeeds, sets the labels and merges the metadata key by key. Metadata has JSON values only. In
-- Recover git, the verification and the clean-up of a branch are parameters. The loop of iterations
-- is a recursion on the number of iterations that are left, and what an iteration does in its
-- sandbox is a parameter.
--
-- Not modelled: input and output, git, sandboxes and displays; the signal that aborts a planner that
-- fails; the UTF-16 units of a text, which is a list of characters. PROJECT.json lists the parts.
pub mod Prelude
pub mod Landing
pub mod Lease
pub mod Recovery
pub mod Planner
pub mod Board
pub mod Lifecycle
pub mod Recover
pub mod Orchestrator
pub mod TextBuffer
