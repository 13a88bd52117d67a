-- ===== src/Lib.antt =====
-- Verification of six-1-core-api: who may do what, how processes run, which status changes a
-- configuration allows, how tasks are scheduled, and what authors may save.
--
-- The parts and their files:
--   * Access: src/authorization. `AuthorizationService.hasPermissions` with its query over four
--     tables, and `AuthorizationGuard.canActivate`. Access/Spec states which grants there are by
--     the rows of the tables; Access/Grants and Access/Guard relate the code to it.
--   * Engine: src/automation. Engine/Rows has the tables as lists of records and the world that
--     the engine reads and writes; Engine/Exec its actions, which may throw, and transactions.
--     Gates, Duration and Provision are what a step must pass (requirements, bindings, triggers);
--     Validation the completion rules of bindings; Hosts the host adapters; Instantiate the rows
--     of a new process; Child and ChildEnd the child processes of call_process steps; Stepping and
--     Orchestrator the parts and the three entry points of step-orchestrator.service.ts, with
--     process-completion.service.ts. Moves, Tables and Touch have the vocabulary of the proofs:
--     the moves of a step, tables with rising ids, and what an action may do to them. Frames,
--     Started, Evolution, Enabling, Completing and Transactions follow the code from its parts to
--     whole transactions; Closed, Keeping, Atomic, Unfinished, Ending and Runs are about the entry
--     points, Spawning, Opening and Instantiated about children, bindings and new processes.
--   * Lifecycle: src/config_objects/config_lifecycle.service.ts. Lifecycle has the lookups and
--     validations, Lifecycle/Changes and Lifecycle/Transitions the writing operations.
--   * Scheduler: src/scheduler. The rows of scheduled tasks, the worker of their start and end
--     jobs (Scheduler/Worker and Jobs), the gate of a task's predecessors (Scheduler/Dependencies
--     and Gate), and the planning of times within working hours (Scheduler/Planning, with Allowed,
--     Working, Served, Durations and Added for its proofs). Scheduler/Active has the operations on
--     the rows, Shifts and Scheduling `scheduleFromShifts`, Commands `scheduleTaskWindow` and the
--     commands on a row, and Listing the lists with their pages
--     (src/common/runtime-v2-list-pagination.ts). Pages is about the lists, Written, Serial,
--     Clear and Free are about the shifts, Predecessors about windows and commands, and Matched and Steps about
--     all calls and jobs together. The engine's host adapter of scheduled tasks writes columns of
--     the same table; Engine/Rows has those columns.
--   * Authoring: src/config_objects, the validators of what an author saves. Authoring has the
--     checks that they share; Panel, ListView and Metadata the validators; Rules, Stable, Objects,
--     Mapped, Labels and Layouts show that the checks accept what they give, and PanelAgain,
--     ListViewAgain, DetailFormAgain, LookupAgain and MetadataAgain that the validators do.
--   * Descriptors: src/config_objects/core-field-descriptor, the fields of the code merged with an
--     author's (Descriptors/Merging) and what may be written of them (Descriptors/Writing).
--     Merged is about one descriptor, Catalog about all, Sorting about the order of those added, Writable about the write schema; a field's
--     metadata is checked by the validators of Authoring.
--   * Prelude and Json: shared names, lists with Boolean tests, JSON values.
-- But for that, these parts do not call each other.
--
-- How the code is rendered: a table is the list of its rows, in the order in which the database
-- returns them where a query has no ORDER BY; AUTO_INCREMENT ids are counters of the world; NOW()
-- is the field `clock`. A transaction is one action: other connections are not modelled. A throw
-- rolls the tables back and leaves what was emitted, since the emitter is not part of the
-- database; the scheduler uses no transactions, and what it has written when it throws stays.
-- Names and calls follow the source in snake case: `attemptAdvance` is `attempt_advance`. A
-- function of the source that is long is cut into parts that call each other in the source's
-- order.
--
-- Parameters: the json-logic package (`apply_logic`), `Number` and `String` on JSON values, ISO
-- times, `JSON.parse`, the calendar of a scheduled task with luxon's time zones, and what the
-- planner asks of others (Services in Scheduler/Shifts), its clock standing still during a call;
-- how the database orders the rows of a list (Sorting in Scheduler/Listing); the number of a text
-- in the guard; what JavaScript does with texts beyond `trim` (Texts in Descriptors); each is a
-- field of a record or an argument. A few things are asked of them: for planning that days are
-- Sound (Scheduler/Allowed) and their intervals Apart (Scheduler/Working); that an order by the
-- key of a table is the same for every query (Sorts in Scheduler/Pages); that `localeCompare` is
-- Consistent (Descriptors/Sorting). json-logic is taken to answer: a rule that makes it throw is
-- left out. The queue of the scheduler keeps a job while it runs, and ignores one whose id it
-- has. Numbers are natural numbers: ids, orders, times in milliseconds. Loops are over lists, or
-- over the 366 days that the source itself counts; fuel is in `decimal` alone, where n + 1
-- divisions by ten are enough for n.
--
-- Not modelled: logging, payloads of events beyond their names and ids, the automation queue and
-- its worker, the event bridge, retries on deadlocks, the host's start hooks, payload snapshots;
-- the generated descriptors of an entity, the other config objects, projects, process templates
-- and the CRUD services around them.
pub mod Prelude
pub mod Json
pub mod Access
pub mod Authoring
pub mod Descriptors
pub mod Engine
pub mod Lifecycle
pub mod Scheduler
