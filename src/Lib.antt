-- ===== src/Lib.antt =====
-- Verification library of aether-fx, a terminal coding agent in Rust.
--
-- A turn of the agent (crates/aether-agent) asks a model for the next step, and the step names
-- tool calls. Each call becomes a prepared action with a footprint of what it reads and writes;
-- the permission broker decides those that need the user's authority; the scheduler starts those
-- that do not conflict together, at most four at a time, and sends the events that the terminal
-- shows. The guardrails answer a call that repeats an earlier one in its place. The work state
-- records what was done, checked and blocked, the decision state what was observed and asked, and the
-- workflow state, which holds both, decides in what phase the task is and when it is complete. The
-- types that these parts share, and the rules for paths, permissions and bounded text, are in
-- crates/aether-core.
--
-- The files and what they model:
--
--   Base            lists, byte texts and association maps over the native numbers
--   CoreError       crates/aether-core/src/error.rs
--   BoundedText     crates/aether-core/src/limits.rs
--   Permission      crates/aether-core/src/permissions.rs and the `ExecutionPermit` of tools.rs;
--                   Permission.Broker is crates/aether-agent/src/permission.rs, with the histories of
--                   a broker as lists of events
--   WorkspacePath   crates/aether-core/src/path.rs
--   Tools           crates/aether-core/src/tools.rs: resources, effects and footprints;
--                   Tools.Action has the prepared actions and the results
--   Events          crates/aether-core/src/events.rs
--   Command         crates/aether-core/src/command.rs: Command.Classify is `classify_command` with the
--                   tables of Command.Managers, Command.Footprint what a command with given effects
--                   may touch
--   Scheduler       crates/aether-agent/src/scheduler.rs: Scheduler.Prepare is `prepare_calls`,
--                   Scheduler.Select is `select_pending_calls` and `schedule_ready_calls`,
--                   Scheduler.Run is `execute_prepared_tool_calls_with_gate`
--   Guardrails      crates/aether-agent/src/guardrails.rs: the preflight of prepared actions;
--                   Guardrails.Observe is `observe_impl_with_fingerprint`
--   Decision        crates/aether-core/src/decision.rs: Decision.Order is the ranking of candidates,
--                   Decision.Update the operations, Decision.History the operations in any order
--   Workflow        crates/aether-core/src/workflow.rs, over Work and Decision: Workflow.State has
--                   the records, Workflow.Director the director and the completion review,
--                   Workflow.Update, Checks, Failures, Completion and Restore the operations,
--                   Workflow.History the operations in any order, Workflow.Limits the sizes
--   Verification    crates/aether-agent/src/verification.rs: planned commands, how they are written,
--                   and how a run is matched with its step in the workflow state
--   Work            crates/aether-core/src/work.rs: Work.Record has the operations that record
--                   evidence, mutations and subgoals, Work.Verify those on verifications and
--                   blockers, Work.Dependencies says when a subgoal's dependencies are complete,
--                   Work.Restore is `enforce_bounds`, Work.Model the outline of work that
--                   the model sends (`apply_model_update` and `dependency_cycle`), Work.History the
--                   operations in any order
--
-- Conventions. A `str` is the list of its bytes; a `usize` and a `u64` are natural numbers, and
-- where the code saturates or wraps the model writes it out. A JSON value is the type parameter
-- `Value`, and the accessors of the JSON library are arguments. A `HashMap` or a `BTreeMap` with
-- few keys is an association list, and a `HashSet` a list. What the code asks of its surroundings
-- (the tools, the broker, the gate, the cancellation token, the channel of events) is a `World`, a
-- record of answers at each point where it asks; the hash function is an argument. Tools that run
-- at the same time are modelled by their results, which depend on the round in which they run, and
-- are assumed to end: each is a future that the scheduler only polls. A tool that panics is a
-- result of its own.
--
-- Fuel. The loop `while completed < calls.len()` runs on one round for each call and one more,
-- which is enough because each round completes at least one call. The search for a cycle of
-- dependencies runs on one more than the identifiers of the graph, which is enough because each call
-- inside another visits an identifier of its own. The decimal digits of a revision
-- run on ten, the most that 32 bits need. Every other loop is structural.
--
-- Not modelled: the model backends, the terminal, the browser and web clients, the updater and the
-- command line, which are input and output; the file system side of the tools; and the planner, the
-- policy engine, the context ranker, the index of symbols, the session store and the text functions of
-- the work state, whose logic is heuristics over file contents and texts. Of the commands, the
-- analysis of the arguments, and of the verification, the choice of the commands from the manifests
-- of the repository, are not modelled: both work on the paths of the operating system.
pub mod Base
pub mod BoundedText
pub mod Command
pub mod CoreError
pub mod Decision
pub mod Events
pub mod Guardrails
pub mod Permission
pub mod Scheduler
pub mod Tools
pub mod Verification
pub mod Work
pub mod Workflow
pub mod WorkspacePath
