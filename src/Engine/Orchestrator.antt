-- ===== src/Engine/Orchestrator.antt =====
-- The transactions of src/automation/step-orchestrator.service.ts.
use six_1_core_api.Prelude.{ℕ, String, Bool, true, false, ◌&&◌, Option, none, some}
use six_1_core_api.Prelude.Tests.{if◌then◌else◌}
use six_1_core_api.Engine.Rows.{
  EngineState, pending, ready, in_progress, blocked, TaskType, automated, Step, Message, Env,
  Options,
}
use six_1_core_api.Engine.Exec.{Exec, pure, gets, modify, state, when, ◌>>=◌, ◌>>◌, transaction}
use six_1_core_api.Engine.Gates.{load_step, check_step_gates, evaluate_triggers}
use six_1_core_api.Engine.Provision.{provision_bindings_on_step_ready}
use six_1_core_api.Engine.Hosts.{state_eq}
use six_1_core_api.Engine.Child.{say}
use six_1_core_api.Engine.ChildEnd.{Terminal, handle_child_terminal}
use six_1_core_api.Engine.Stepping.{enable_next_steps, enter, make_ready, maybe_complete_job}

-- `finalizeChildTerminalIfNeeded`, after the commit.
unfoldable pub finalize : Env → Option ℕ → Exec (Unit {0})
finalize env none = pure tt
finalize env (some child) = modify (handle_child_terminal env child Terminal.completed)

-- Where a transaction ends with no change: `rollback`.
abbrev pub done : Exec (Option ℕ)
done = pure none

abbrev pub is_final : EngineState → Bool
is_final EngineState.completed = true
is_final EngineState.canceled = true
is_final blocked = true
is_final _ = false

abbrev pub is_ready : EngineState → Bool
is_ready ready = true
is_ready _ = false

abbrev pub is_pending : EngineState → Bool
is_pending pending = true
is_pending _ = false

abbrev pub is_automated : Option TaskType → Bool
is_automated (some automated) = true
is_automated _ = false

-- What follows a completed step: the next steps, and the end of the process.
unfoldable pub proceed : Env → Options → Step → Exec (Option ℕ)
proceed env opts s = do
  enable_next_steps env s.process_instance_id s.step_order opts
  maybe_complete_job env s.process_instance_id

unfoldable pub complete_and_proceed : Env → Options → String → Step → Exec (Option ℕ)
complete_and_proceed env opts event s = do
  enter s.process_instance_id s.step_instance_id EngineState.completed opts
  modify (say (Message.emitted event s.step_instance_id))
  proceed env opts s

-- The automated step that `attemptAdvance` runs: it starts, completes and enables what follows.
unfoldable pub run_automated : Env → Options → Step → Exec (Option ℕ)
run_automated env opts s = do
  enter s.process_instance_id s.step_instance_id in_progress opts
  modify (say (Message.emitted "six1-event.process_step_started" s.step_instance_id))
  complete_and_proceed env opts "six1-event.process_step_completed" s

-- The second part of `attemptAdvance`, on the row that is loaded again.
unfoldable pub advance_automated : Env → Options → Bool → Option Step → Exec (Option ℕ)
advance_automated env opts passed none = done
advance_automated env opts passed (some s) =
    if is_automated s.task_type && (is_ready s.status && passed)
    then run_automated env opts s
    else done

-- What `attemptAdvance` does with the verdict of the gates and triggers.
unfoldable pub advance_passed : Env → Options → Step → Bool → Exec (Option ℕ)
advance_passed env opts s passed = do
  when (is_pending s.status && passed) (make_ready env opts "six1-event.process_step_ready" s)
  fresh ← gets (load_step s.step_instance_id)
  advance_automated env opts passed fresh

unfoldable pub advance_gated : Env → Options → Step → Exec (Option ℕ)
advance_gated env opts s = do
  gates ← gets (check_step_gates env s.step_instance_id)
  triggers ← state (evaluate_triggers env s.process_instance_id s.step_instance_id)
  advance_passed env opts s (gates && triggers)

-- The body of `attemptAdvance` on the locked row.
unfoldable pub advance_step : Env → Options → Step → Exec (Option ℕ)
advance_step env opts s = do
  when (is_ready s.status) (modify (provision_bindings_on_step_ready env s.step_instance_id))
  advance_gated env opts s

unfoldable pub attempt_locked : Env → Options → Option Step → Exec (Option ℕ)
attempt_locked env opts none = done
attempt_locked env opts (some s) = if is_final s.status then done else advance_step env opts s

unfoldable pub attempt_transaction : Env → ℕ → Options → Exec (Option ℕ)
attempt_transaction env step opts =
    transaction (do s ← gets (load_step step); attempt_locked env opts s)

unfoldable pub attempt_advance : Env → ℕ → Options → Exec (Unit {0})
attempt_advance env step opts = do child ← attempt_transaction env step opts; finalize env child

abbrev pub is_open : EngineState → Bool
is_open ready = true
is_open in_progress = true
is_open _ = false

-- The body of `markCompleted` after its guards.
unfoldable pub complete_open_step : Env → Options → Step → Exec (Option ℕ)
complete_open_step env opts s =
    complete_and_proceed env opts "six1-event.notification.process_step_completed" s

unfoldable pub mark_gated : Env → Options → Step → Exec (Option ℕ)
mark_gated env opts s = do
  gates ← gets (check_step_gates env s.step_instance_id)
  if gates then complete_open_step env opts s else done

unfoldable pub mark_locked : Env → Options → Option Step → Exec (Option ℕ)
mark_locked env opts none = done
mark_locked env opts (some s) = if is_open s.status then mark_gated env opts s else done

unfoldable pub mark_transaction : Env → ℕ → Options → Exec (Option ℕ)
mark_transaction env step opts = transaction (do s ← gets (load_step step); mark_locked env opts s)

unfoldable pub mark_completed : Env → ℕ → Options → Exec (Unit {0})
mark_completed env step opts = do child ← mark_transaction env step opts; finalize env child

-- `resumeParentAfterChildCallProcess`
unfoldable pub resume_locked : Env → Options → Option Step → Exec (Option ℕ)
resume_locked env opts none = done
resume_locked env opts (some s) =
    if state_eq s.status EngineState.completed then proceed env opts s else done

unfoldable pub resume_transaction : Env → ℕ → Options → Exec (Option ℕ)
resume_transaction env step opts =
    transaction (do s ← gets (load_step step); resume_locked env opts s)

unfoldable pub resume_parent_after_child_call_process : Env → ℕ → Options → Exec (Unit {0})
resume_parent_after_child_call_process env step opts = do
  child ← resume_transaction env step opts
  finalize env child
