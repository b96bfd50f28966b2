-- ===== src/Lib.antt =====
-- Threadwork is a board on which agents hand tasks to each other, with a watchdog that follows
-- heartbeats and a pipeline of detectors that report and escalate stuck agents. This library models
-- the rules of the board and of that pipeline.
--
-- The parts and the files that model them:
--   * Board, db.ts (class TaskDB): the table of tasks. Board/Task has the row and the reads and
--     writes of the table; Board/Create has createTask and delegateTask, Board/Subagents
--     createSubagentTask, Board/Transitions the single-row updates (claimTask,
--     claimTaskWithSession, assignTask, transitionToInProgress, parkTask, unparkTask and the endings
--     of sub-agents), Board/Finalizer the completion that checks the children, Board/Heartbeat
--     updateHeartbeat, Board/Lineage getTaskLineage, Board/Hygiene the deletion of old ended tasks by
--     runHygiene. The other files below Board hold proofs, named
--     for what they are about; Board/Lifecycle has the graph of the statuses and runs of operations.
--   * Sessions, db.ts: the table agent_sessions, with declared states and the circuit breaker that
--     faults open. A heartbeat of the board lowers the fault count here.
--   * Restart, src/restart-cap/tracker.ts: the caps on restarts of services and of children.
--   * Urgency, src/urgency-routing/index.ts: severities, routes, and the cooldown of critical alerts.
--   * Escalation, src/escalation-bridge/index.ts: the three steps of an escalation, and what happens
--     when an action fails.
--   * Loops, src/loop-detector/index.ts: agents that repeat themselves.
--   * Dedup, src/dedup/fingerprint.ts: alerts that are not sent twice in a cooldown.
--   * Inhibition, inhibit-engine.ts: alerts that a rule suppresses while a source of the rule is active.
--   * Silences, src/silences/index.ts: silences of a file, their validation and expiry.
--   * Grouping, src/grouping/index.ts: groups of alerts and the times at which they are flushed.
--   * Picker, parked-picker-classifier.ts: agents that wait at a prompt, known or not.
--   * Debounce, debounce.ts: nudges that wait for the window of the agent.
--   * Blackboard, db.ts: feature flags, findings and artifacts.
--   * Signals, db.ts: violations and quarantine, progress events, and the states of the alerts.
--   * Connection, ternary-reward.ts and memory-ordering.ts: a connection to a database with its BEGIN,
--     COMMIT and ROLLBACK, each of which may fail, as the two parts below use it.
--   * Verification, verification/: Failures and Adapters have failure-classification.ts, Critics the
--     families and verdicts of cross-family-critique.ts, Rewards ternary-reward.ts with the tables
--     that it reads, and Persisting the writes of ternary-reward.ts and failure-classification.ts,
--     step by step. A finalized decision is rewarded from its critiques and the failures of its task.
--   * Ordering, memory-ordering.ts: the write transaction of the memory database.
--   * Decisions, decision.ts: decisions with positions and critiques (Decisions), their ends with the
--     memory that they leave (Endings), and the reads and the sweep (Listing). Integrity,
--     memory-integrity.ts, sanitizes the texts of such a memory.
--   * Prelude: names, tests, lists, stores by key, and the laws of a keyed table.
--   * Witnesses: the theorems at concrete inputs.
--
-- How the code is read. A SQL statement is a function on the list of rows: a WHERE clause is a test, a
-- SET clause a function on a row, and RETURNING the first row that was written. Rows stand newest
-- first, so that ids fall along the list; this is the predicate IsKeyedBoard. A call of TaskDB is
-- taken as one step: the statements of two calls of different processes are not interleaved. A JSON
-- file of state is missing, corrupt or saved; a write is taken to succeed, but for the audit log of
-- the escalation bridge, whose failure is part of its contract. Times are numbers of seconds, or of
-- milliseconds where the source has them (`now_ms` in Signals, and in Inhibition, Silences, Picker and
-- Debounce), given to each operation; a difference of times that may be negative in the source is
-- written as a sum on the other side. A throw is an error result.
--
-- Bounds and fuel. getTaskLineage runs on fuel, the number of rows and two more: each round lists a
-- row that was not listed before, so that it is always enough. All other loops are structural. The
-- counters of the source are JavaScript numbers far below 2^53, and are natural numbers here.
--
-- Not modelled: the schema and its migrations, notes, retention, and what runHygiene does to other
-- tables than `tasks`; the column updated_at of `tasks` and its trigger; the statements that the
-- watchdog and the MCP server run on `tasks` themselves; the MCP server, the memory database itself,
-- the watchdog's sweeps and all calls of tmux, Telegram and the file system; message texts, but for
-- the memories of decisions. Hashes, trimming, the length of a text in UTF-16 and RegExp are the
-- host's, and are parameters. An agent whose name is that of a member of Object.prototype is left out
-- of account in the JSON files.
pub mod Prelude
pub mod Board
pub mod Sessions
pub mod Restart
pub mod Urgency
pub mod Escalation
pub mod Loops
pub mod Dedup
pub mod Inhibition
pub mod Silences
pub mod Grouping
pub mod Picker
pub mod Debounce
pub mod Blackboard
pub mod Signals
pub mod Verification
pub mod Connection
pub mod Ordering
pub mod Integrity
pub mod Decisions
pub mod Witnesses
