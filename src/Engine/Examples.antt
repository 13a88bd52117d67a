-- ===== src/Engine/Examples.antt =====
-- A process of two steps, its child, and the orchestrator's operations on them.
use mathlib.Core.List.{Memᴰ}
use six_1_core_api.Prelude.{ℕ, ◌≡◌, refl, true, Option, none, some, List, [], ◌∷◌, arith}
use six_1_core_api.Engine.Rows.{
  EngineState, pending, ready, blocked, TaskType, automated, call_process, SubjectType,
  InstanceStatus, pause_parent, none_given, Instance, Step, Trigger, TriggerEnvelope, TemplateStep,
  World, Env, Options, manual,
}
use six_1_core_api.Engine.Exec.{ok}
use six_1_core_api.Engine.Gates.{
  load_process, load_step, check_step_gates, check_requirements_only, are_mandatory_bindings_valid,
  mandatory_binding, evaluate_triggers, evaluate_all, evaluate_one, evaluate, build_context,
}
use six_1_core_api.Engine.ChildEnd.{Terminal, handle_child_terminal}
use six_1_core_api.Engine.Stepping.{maybe_complete_job}
use six_1_core_api.Engine.Orchestrator.{
  attempt_advance, attempt_transaction, mark_completed, mark_transaction, resume_transaction,
}
use six_1_core_api.Engine.Closed.{attempt_advance-closed, event_trigger-never_advances}
use six_1_core_api.Engine.Touch.{Sound}
use six_1_core_api.Engine.Enabling.{Advances}
use six_1_core_api.Engine.Transactions.{
  attempt_transaction-Advances, mark_transaction-Advances, resume_transaction-Advances,
}
use six_1_core_api.Engine.Runs.{
  advance, complete, resume, run, Reaches, at_once, then_call, Reaches-IsDone,
}
use six_1_core_api.Engine.Keeping.{IsDone}
use six_1_core_api.Engine.Unfinished.{maybe_complete_job-unfinished}
use six_1_core_api.Engine.Ending.{Ended, handle_child_terminal-Ended}
use six_1_core_api.Engine.Atomic.{DoneOrUndone, mark_completed-DoneOrUndone}

abbrev pub template : ℕ → ℕ → TaskType → TemplateStep
template id order type = record {
  process_template_step_id = id;
  process_template_id = 1;
  step_order = order;
  task_type = some type;
  child_template_id = none;
  child_subject_policy = none;
  child_context_patch = none;
}

abbrev pub env : Env
env = record {
  call_process_enabled = true;
  config_object_steps_enabled = true;
  subject_model_enabled = true;
  tier1_scheduled_task_enabled = true;
  tier2_instance_subject_enabled = true;
  tier3_workflow_subject_enabled = true;
  template_steps = template 1 1 manual ∷ template 2 2 automated ∷ [];
  template_requirements = [];
  template_triggers = [];
  template_bindings = [];
  config_objects = [];
  apply_logic = λ l c. true;
  number = λ j. 0;
  text = λ j. "";
  iso_time = λ t. "";
}

abbrev pub opts : Options
opts = record { actor_tenant_user_id = none; correlation_id = none }

abbrev pub process : ℕ → Option ℕ → Option ℕ → Instance
process id parent step = record {
  process_instance_id = id;
  process_template_id = 1;
  tenant_id = 1;
  created_by = 1;
  status = InstanceStatus.active;
  subject_type = SubjectType.workflow;
  subject_id = id;
  subject_metadata = none;
  parent_instance_id = parent;
  parent_step_id = step;
  on_child_failure = pause_parent;
  context = none;
  correlation_id = none;
  completed_at = none;
  canceled_at = none;
}

abbrev pub step : ℕ → ℕ → ℕ → TaskType → EngineState → Step
step id proc order type status = record {
  step_instance_id = id;
  process_instance_id = proc;
  process_template_step_id = order;
  step_order = order;
  task_type = some type;
  status = status;
  blocked_reason = none_given;
  ready_at = none;
  started_at = none;
  completed_at = none;
  canceled_at = none;
}

abbrev pub world : List Instance → List Step → List Trigger → World
world instances steps triggers = record {
  clock = 100;
  core = record { instances = instances; steps = steps; next_instance_id = 9; next_step_id = 9 };
  requirements = [];
  triggers = triggers;
  next_trigger_id = 9;
  object_instances = [];
  next_object_instance_id = 9;
  custom_instances = [];
  next_custom_instance_id = 9;
  tasks = [];
  mappings = [];
  projects = [];
  scheduled_tasks = [];
  outbox = [];
}

-- A manual step that is ready, before an automated one.
abbrev started : World
started =
    world (process 1 none none ∷ []) (step 1 1 1 manual ready ∷ step 2 1 2 automated pending ∷ [])
      []

abbrev on_event : Trigger
on_event = record {
  trigger_instance_id = 1;
  step_instance_id = 2;
  json_schema = TriggerEnvelope.event "paid";
  met = true;
  met_at = none;
  last_eval_at = none;
}

-- The second step waits for an event.
abbrev awaiting : World
awaiting =
    world (process 1 none none ∷ [])
      (step 1 1 1 manual EngineState.completed ∷ step 2 1 2 automated pending ∷ []) (on_event ∷ [])

-- A process whose only step waits for a child.
abbrev calling : World
calling =
    world (process 1 none none ∷ process 2 (some 1) (some 1) ∷ [])
      (step 1 1 1 call_process blocked ∷ step 2 2 1 manual EngineState.completed ∷ []) []

started-Sound : Sound started
started-Sound = (omega arith, (omega arith, omega arith))

awaiting-Sound : Sound awaiting
awaiting-Sound = (omega arith, (omega arith, omega arith))

attempt_transaction-Advances_example : Advances started (attempt_transaction env 1 opts started).1
attempt_transaction-Advances_example = attempt_transaction-Advances env opts 1 started started-Sound

mark_transaction-Advances_example : Advances started (mark_transaction env 1 opts started).1
mark_transaction-Advances_example = mark_transaction-Advances env opts 1 started started-Sound

resume_transaction-Advances_example : Advances awaiting (resume_transaction env 1 opts awaiting).1
resume_transaction-Advances_example = resume_transaction-Advances env opts 1 awaiting awaiting-Sound

first-IsDone : IsDone 1 awaiting
unfolding load_step
first-IsDone = (step 1 1 1 manual EngineState.completed, refl, refl)

-- The second step is tried, the first one completed again, and what follows it resumed.
calls_made :
    Reaches env awaiting
      (run env (resume 1 opts) (run env (complete 1 opts) (run env (advance 2 opts) awaiting)))
calls_made =
    then_call (resume 1 opts) (then_call (complete 1 opts) (then_call (advance 2 opts) at_once))

Reaches-IsDone_example :
    Sound (run env (resume 1 opts) (run env (complete 1 opts) (run env (advance 2 opts) awaiting)))
    × IsDone 1
        (run env (resume 1 opts) (run env (complete 1 opts) (run env (advance 2 opts) awaiting)))
Reaches-IsDone_example = Reaches-IsDone env 1 awaiting _ awaiting-Sound first-IsDone calls_made

mark_completed-DoneOrUndone_example : DoneOrUndone 1 started (mark_completed env 1 opts started)
unfolding load_step check_step_gates check_requirements_only are_mandatory_bindings_valid
    mandatory_binding
mark_completed-DoneOrUndone_example =
    mark_completed-DoneOrUndone env opts 1 started started-Sound refl

event_trigger-never_advances_example : (attempt_advance env 2 opts awaiting).1.core ≡ awaiting.core
unfolding load_step
event_trigger-never_advances_example =
    event_trigger-never_advances env opts 2 (step 2 1 2 automated pending) on_event awaiting refl
      (Memᴰ.head refl) refl refl

attempt_advance-closed_example :
    ((attempt_advance env 2 opts awaiting).0 ≡ ok tt)
    × ((attempt_advance env 2 opts awaiting).1.core ≡ awaiting.core)
unfolding load_step check_step_gates check_requirements_only are_mandatory_bindings_valid
    mandatory_binding evaluate_triggers evaluate_all evaluate_one evaluate build_context
attempt_advance-closed_example =
    attempt_advance-closed env opts 2 (step 2 1 2 automated pending) awaiting refl refl

maybe_complete_job-unfinished_example : (maybe_complete_job env 1 awaiting).1 ≡ awaiting
maybe_complete_job-unfinished_example =
    maybe_complete_job-unfinished env 1 (step 2 1 2 automated pending) awaiting
      (Memᴰ.tail (Memᴰ.head refl)) refl refl

handle_child_terminal-Ended_example :
    Ended 1 EngineState.completed calling (handle_child_terminal env 2 Terminal.completed calling)
unfolding load_process load_step
handle_child_terminal-Ended_example =
    handle_child_terminal-Ended env 2 Terminal.completed (process 2 (some 1) (some 1))
      (process 1 none none) 1 1 (step 1 1 1 call_process blocked) calling refl refl refl refl
