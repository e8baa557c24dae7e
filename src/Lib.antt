-- ===== src/Lib.antt =====
-- A Duo session: two agents, Austin and Tony, that work on one task under one of four modes, the rules
-- by which the session moves from its first phase to DONE, its checkpoint and the recovery after a
-- crash, the hand-over of the result to the user's repository, the watchdog that nudges agents, and
-- the pause that holds what is said to them.
--
-- The program. internal/project holds the state of one session behind a mutex. `State` (state.go)
-- offers the operations; each takes the lock, asks the policy of the session's mode (workflow.go)
-- what the event may cause, takes a snapshot, and hands the snapshot to a persistence callback after
-- unlocking. Goal negotiates PLAN, EXECUTE, REVIEW and INTEGRATE with two signatures each; Fast has
-- Austin work and Tony verify; Step works a queue of steps (steps.go), each under the Fast or the
-- Goal rule, and lands each one in the user's repository; Loop (loop.go) has no sign-off but a
-- durable inbox for each agent, one consultation at a time, and a finish that waits for the owner's
-- turn to end. The callback composes a checkpoint (internal/recovery, Compose) that
-- internal/sessionstore keeps, upgrades when an older version is read, and asks whether an artifact
-- still has to be delivered. A resume reconciles the checkpoint with what Git shows in the two
-- worktrees (Reconcile) and restores the session from it. internal/delivery brings the final commit
-- to the user's branch, or to a new one, and pushes it. internal/session/delivery.go makes a
-- transaction of it: it refuses an artifact that the mode has not approved, writes a checkpoint before
-- it touches the repository and another after it, moves the queue or completes the session, and a
-- resume finishes or repeats what a crash cut off. internal/harness follows the activity of the
-- agents, and a monitor that ticks nudges the one that has to act. internal/coordinator sends messages
-- to the agents; its pause holds them until it is cancelled or continued. The coordinator, the session
-- service and the clients call these operations; agents are named as in internal/protocol/types.go.
--
-- The model. An operation on the session is a function from the state and its arguments to a `Reply`:
-- the new state, the result, the error if any, and the snapshot that the callback got. The mutex
-- makes an operation one atomic step, so any interleaving of callers is a list of operations: `Op`,
-- `apply` and `run` of Project/Operation. The clock is an argument of each operation that reads it.
--   Text            Go strings as lists of code points: TrimSpace, ToLower, FormatUint, Split
--   Project/Agent   internal/protocol/types.go
--   Project/Mode, Verification, Steps, LoopState, State, Snapshot
--                   the data of mode.go, phase.go, verification.go, steps.go, loop.go and state.go
--   Project/Steps/Parse         ParseSteps of steps.go
--   Project/Workflow            workflow.go: Goal, Fast and Step, one function for each method;
--                               Dispatch has the choice of the policy and what a policy refuses
--   Project/Session, Switch, Restore   the public operations of state.go
--   Project/Loop/Inbox, Consult, Turn  the public operations of loop.go
--   Project/Valid, Kept         the invariant; the cases that a property of all operations has
--   Project/Gates, Laws, Loop/Blocked, Loop/Finish, Loop/Round   the results on sessions
--   Store/Record, Migrate, Needs       internal/sessionstore: snapshot.go and migrate.go
--   Recovery/Report to Compose         internal/recovery/recovery.go; a helper stands for each switch
--                               of Reconcile (Merge, Gates, Signatures), Reconcile chains them
--   Recovery/Resume, Modes, Safe, Again, Durable   the resume, and the results on it
--   Delivery/Git    internal/delivery/git.go: how the outcome of a run of git is read
--   Delivery/Check, Deliver, Changes, Push         delivery.go; the rest of Delivery has the results
--   Service/World   what a delivery transaction is given and changes: `Env` has git, what it prints in a
--                   worktree, the test of a path, whether the store can write, and the clock; Status
--                   and Head of internal/workspace/git.go
--   Service/Head, Settle, Gates, Transact, Persist, Reconcile
--                   internal/session/delivery.go: ResolveFinalHead; the moves of a checkpoint after
--                   a landing; the gates; DeliverAndPersistTo from the gates on; DeliverAndPersistTo
--                   as a whole; ReconcileDelivery. The rest of Service has the results
--   Coordinator/Message, State, Send, Pause, Wake
--                   internal/coordinator/coordinator.go: the types of messages (internal/protocol); the
--                   fields that a pause touches; sendToAgent; SetPause, CancelPause, RestorePause and
--                   refreshPause; ContinuePause, RequestResumeWork and deliverResumeWork
--   Coordinator/Operation       these operations as one type; the rest of Coordinator has the results
--   Harness/Runtime, Tracker    internal/harness/tracker.go
--   Harness/Targets, Monitor, Fast, Wake           step.go and harness.go, one tick as a function
--   Harness/Due, Accepted, Sound, Watched, Diagnosis   the results on the watchdog
--   Workspace/Paths, Discard    internal/workspace/discard.go, and discardUnstarted of
--                               internal/session/service.go
--   Workspace/Recall            recallBlocked, requestRecall, discardRecalled and the choice at the end
--                               of closeLocked of internal/session/service.go, and WriteRecallNote of
--                               internal/sessionstore; Unused, Removed, Inside have the results
--   Tests                       concrete sessions, and the results applied to them
--
-- Choices. A field that Go declares as a string with constants is a data type with a constructor
-- `other` for every other string. A map keyed by agents is a function, whose value at an absent key
-- is Go's zero value, or an option where presence matters. Errors are values; their texts are left
-- out, and so are those of prompts and reports. `NextID` wraps at 2 ^ 64, and its decimal text is
-- written with fuel for 20 digits, which every number below 10 ^ 20 fits. A plan version and the wake
-- counter are ints that are only counted up, and stand as naturals; the version in a snapshot may be
-- negative. Strings are taken to be valid UTF-8. The two regular expressions of ParseSteps are
-- matchers. Git is a parameter: for recovery the answers of the worktrees while it runs, for delivery
-- the outcome of each command, with a new state of the repositories for the three commands that
-- write. A world of the session service is the repositories with the checkpoints and the journal on
-- disk, and whether a checkpoint can be written depends on those written before. The removal of a
-- session is the list of its actions on the disk; a cleaned path is its elements. An operation of the
-- coordinator is one step, too; what the paths to the agents answer while it runs is its argument
-- `Link`, and between two steps the session and the tracker may change in any way.
-- The clock of a tick is read once, and durations are natural numbers of nanoseconds.
--
-- Not modelled. Text rendering for prompts (String, NudgeState, Render, RenderCursor, Label), JSON
-- encoding and files, the output rate and the usage ledger of the harness, Validate of the recovery,
-- the worktrees' creation and merges, the wording of the reasons for which a delivery waits (a
-- parameter), the wording of prompts and its cut to an agent's tools (parameters of the pause), the
-- journal and the timeline, what closeLocked does before it removes anything and the text of a recall
-- note, the interleaving of the steps of one operation of the coordinator, and the
-- parts that call these rules: the rest of the coordinator and of the session service,
-- drivers, transports, clients and interfaces.
pub mod Prelude
pub mod Text
pub mod Project
pub mod Store
pub mod Recovery
pub mod Delivery
pub mod Service
pub mod Coordinator
pub mod Harness
pub mod Workspace
pub mod Tests
