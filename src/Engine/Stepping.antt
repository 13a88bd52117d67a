-- ===== src/Engine/Stepping.antt =====
-- src/automation/process-completion.service.ts, and the parts of
-- src/automation/step-orchestrator.service.ts that its transactions share.
use six_1_core_api.Prelude.{
  ℕ, ◌+◌, String, Bool, true, false, ◌&&◌, Option, none, some, List, [], ◌∷◌, ◌++◌,
}
use six_1_core_api.Prelude.Tests.{◌==◌, if◌then◌else◌}
use six_1_core_api.Prelude.Lists.{any, all, filter}
use six_1_core_api.Engine.Rows.{
  EngineState, pending, ready, in_progress, SubjectType, InstanceStatus, Instance, Step, Message,
  World, Env, Options,
}
use six_1_core_api.Engine.Exec.{
  no_host_adapter, Exec, pure, require, gets, modify, state, when, for_each, ◌>>=◌, ◌>>◌,
}
use six_1_core_api.Engine.Gates.{
  load_process, steps_of, are_all_steps_completed, are_mandatory_bindings_valid, check_step_gates,
  evaluate_triggers,
}
use six_1_core_api.Engine.Provision.{provision_bindings_on_step_ready}
use six_1_core_api.Engine.Hosts.{
  Adapter, registry, state_eq, is_id, on_step_state_changed, can_complete_job, on_process_completed,
}
use six_1_core_api.Engine.Child.{update_step, say, is_call_process, spawn_child_and_block_parent}
use six_1_core_api.Engine.ChildEnd.{mark_process_completed_if_eligible, complete_instance}

-- `ProcessCompletionService.evaluate`
pub data Reason : Type 0 where
  no_steps mandatory_steps_not_terminal active_child_process : Reason
  object_bindings_invalid : ℕ → Reason

abbrev pub is_terminal : Step → Bool
is_terminal s = elim s.status [
  | EngineState.completed ↦ true
  | EngineState.canceled ↦ true
  | _ ↦ false
]

abbrev pub step_reasons : List Step → List Reason
step_reasons [] = no_steps ∷ []
step_reasons (s ∷ ss) = if all is_terminal (s ∷ ss) then [] else mandatory_steps_not_terminal ∷ []

abbrev pub is_running : InstanceStatus → Bool
is_running InstanceStatus.completed = false
is_running InstanceStatus.canceled = false
is_running _ = true

abbrev pub child_reasons : ℕ → World → List Reason
child_reasons id w =
    if any (λ (i : Instance). is_id i.parent_instance_id id && is_running i.status) w.core.instances
    then active_child_process ∷ []
    else []

unfoldable pub binding_reasons : Env → World → List Step → List Reason
binding_reasons env w [] = []
binding_reasons env w (s ∷ ss) =
    let rest = binding_reasons env w ss in
    if are_mandatory_bindings_valid env s.step_instance_id w
    then rest
    else object_bindings_invalid s.step_instance_id ∷ []

unfoldable pub evaluate_completion : Env → ℕ → World → List Reason
evaluate_completion env id w =
    step_reasons (steps_of id w) ++ (child_reasons id w ++ binding_reasons env w (steps_of id w))

abbrev pub is_empty {ℓ} : {A : Type ℓ} → List A → Bool
is_empty [] = true
is_empty (_ ∷ _) = false

unfoldable pub can_complete_process : Env → ℕ → World → Bool
can_complete_process env id w = is_empty (evaluate_completion env id w)

-- The times that `setState` writes where they are given.
abbrev pub when_at : EngineState → EngineState → ℕ → Option ℕ → Option ℕ
when_at next s now old = if state_eq next s then some now else old

-- `setState`, whose callers pass the time that belongs to the next state.
abbrev pub entered : EngineState → ℕ → Step → Step
entered next now s = record s {
  status = next;
  ready_at = when_at next ready now s.ready_at;
  started_at = when_at next in_progress now s.started_at;
  completed_at = when_at next EngineState.completed now s.completed_at;
}

unfoldable pub set_state : ℕ → EngineState → World → World
set_state id next w = update_step (entered next w.clock) id w

-- `ProcessHostRegistry.get`
unfoldable pub adapter_of : SubjectType → Exec Adapter
adapter_of t = require (registry t) no_host_adapter

unfoldable pub dispatch_to : ℕ → EngineState → Options → Option Instance → Exec (Unit {0})
dispatch_to step s opts none = pure tt
dispatch_to step s opts (some p) = do
  adapter ← adapter_of p.subject_type
  modify (on_step_state_changed adapter p step s opts)

-- `dispatchStepStateChanged`
unfoldable pub dispatch_step_state_changed : ℕ → ℕ → EngineState → Options → Exec (Unit {0})
dispatch_step_state_changed process step s opts = do
  proc ← gets (load_process process)
  dispatch_to step s opts proc

-- A change of state with what always follows it.
unfoldable pub enter : ℕ → ℕ → EngineState → Options → Exec (Unit {0})
enter process step s opts = do
  modify (set_state step s)
  dispatch_step_state_changed process step s opts

-- A step that passes its gates becomes ready; a call_process step starts its child instead.
unfoldable pub make_ready : Env → Options → String → Step → Exec (Unit {0})
make_ready env opts event s =
    if env.call_process_enabled && is_call_process s.task_type
    then (do spawn_child_and_block_parent env s opts; pure tt)
    else (do
      enter s.process_instance_id s.step_instance_id ready opts
      modify (provision_bindings_on_step_ready env s.step_instance_id)
      modify (say (Message.emitted event s.step_instance_id)))

-- The body of the loop of `enableNextSteps`.
unfoldable pub enable_step : Env → Options → Step → Exec (Unit {0})
enable_step env opts s = do
  gates ← gets (check_step_gates env s.step_instance_id)
  triggers ← state (evaluate_triggers env s.process_instance_id s.step_instance_id)
  when (gates && triggers) (make_ready env opts "six1-event.process_step_task_created" s)

-- The pending steps of the next order, as the query of `enableNextSteps` finds them.
abbrev pub next_rows : ℕ → ℕ → World → List Step
next_rows process order w =
    filter (λ (s : Step). s.step_order == order + 1 && state_eq s.status pending)
      (steps_of process w)

unfoldable pub enable_next_steps : Env → ℕ → ℕ → Options → Exec (Unit {0})
enable_next_steps env process order opts = do
  rows ← gets (next_rows process order)
  for_each (enable_step env opts) rows

abbrev pub is_complete_child : Option Instance → Bool
is_complete_child none = false
is_complete_child (some i) = elim i.parent_step_id [
  | none ↦ false
  | some _ ↦ elim i.status [ InstanceStatus.completed ↦ true | _ ↦ false ]
]

abbrev pub close_job : Bool → Adapter → Instance → Exec (Unit {0})
close_job all_done adapter p = do
  when all_done (modify (complete_instance p.process_instance_id))
  modify (on_process_completed adapter p)
  modify (say (Message.emitted "six1-event.process_completed" p.process_instance_id))

-- The host's part of `maybeCompleteJob`.
unfoldable pub complete_job : Bool → Instance → Exec (Unit {0})
complete_job all_done p = do
  adapter ← adapter_of p.subject_type
  able ← gets (can_complete_job adapter p)
  when able (close_job all_done adapter p)

abbrev pub complete_found : Bool → Option Instance → Exec (Unit {0})
complete_found all_done none = pure tt
complete_found all_done (some p) = complete_job all_done p

-- The part of `maybeCompleteJob` for a process that is no finished child.
unfoldable pub close_process : Env → ℕ → Bool → Exec (Option ℕ)
close_process env id all_done = do
  able ← gets (can_complete_process env id)
  proc ← gets (load_process id)
  when able (complete_found all_done proc)
  pure none

unfoldable pub settle_process : Env → ℕ → Bool → Exec (Option ℕ)
settle_process env id all_done = do
  inst ← gets (load_process id)
  if all_done && is_complete_child inst then pure (some id) else close_process env id all_done

-- `maybeCompleteJob`: the id of a child process that is done.
unfoldable pub maybe_complete_job : Env → ℕ → Exec (Option ℕ)
maybe_complete_job env id = do
  all_done ← gets (are_all_steps_completed id)
  when all_done (modify (mark_process_completed_if_eligible id))
  settle_process env id all_done
