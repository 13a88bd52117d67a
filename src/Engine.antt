-- ===== src/Engine.antt =====
-- src/automation: the process engine. Rows holds the tables and the catalogue, Exec the actions
-- that may throw, Gates the tests that a step must pass, Provision the object bindings, Hosts the
-- adapters of the subjects, Instantiate the creation of a process, Child the call_process steps
-- and Orchestrator the operations on steps.
pub mod Rows
pub mod Exec
pub mod Duration
pub mod Gates
pub mod Provision
pub mod Hosts
pub mod Instantiate
pub mod Child
pub mod ChildEnd
pub mod Stepping
pub mod Orchestrator
pub mod Validation
pub mod Opening
pub mod Instantiated
pub mod Frames
pub mod Closed
pub mod Moves
pub mod Tables
pub mod Touch
pub mod Started
pub mod Evolution
pub mod Enabling
pub mod Completing
pub mod Transactions
pub mod Keeping
pub mod Runs
pub mod Unfinished
pub mod Ending
pub mod Spawning
pub mod Atomic
pub mod Examples
pub mod ChildExamples
pub mod ValidationExamples
