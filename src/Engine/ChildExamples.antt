-- ===== src/Engine/ChildExamples.antt =====
-- A call_process step that is visited twice, and a process with two steps that starts.
use six_1_core_api.Prelude.{◌≡◌, refl, false, none, some, [], ◌∷◌, map}
use six_1_core_api.Prelude.Lists.{Memᴰ→map}
use six_1_core_api.Engine.Rows.{
  pending, call_process, SubjectType, OnChildFailure, TemplateStep, Instance, InstanceStatus, Step,
  World, Env,
}
use six_1_core_api.Engine.Exec.{ok}
use six_1_core_api.Engine.Gates.{load_process}
use six_1_core_api.Engine.Hosts.{registry}
use six_1_core_api.Engine.Instantiate.{
  StartParams, start_process, start_in_transaction, instantiate_process_in,
}
use six_1_core_api.Engine.Instantiated.{Instantiated, instantiate_process_in-Instantiated}
use six_1_core_api.Engine.Child.{
  find_child, template_step, resolve_child_subject, workflow_subject, launch, start_from,
  start_under, start_child, spawn, spawn_child_and_block_parent,
}
use six_1_core_api.Engine.Spawning.{StillThere, spawn_child-once}
use six_1_core_api.Engine.Examples.{env, opts, template, process, step, world}

abbrev calls : TemplateStep
calls = record (template 1 1 call_process) { child_template_id = some 1 }

abbrev call_env : Env
call_env = record env { template_steps = calls ∷ [] }

abbrev caller : Step
caller = step 1 1 1 call_process pending

abbrev before_call : World
before_call = world (process 1 none none ∷ []) (caller ∷ []) []

abbrev after_call : World
after_call = (spawn_child_and_block_parent call_env caller opts before_call).1

-- The child that was started is completed since.
abbrev completed_since : World
completed_since = record after_call {
  core = record (after_call.core) {
    instances =
        map (λ (i : Instance). record i { status = InstanceStatus.completed })
          after_call.core.instances;
  };
}

still_there : StillThere after_call completed_since
still_there = record {
  kept = λ i m.
      (_, Memᴰ→map (λ (i : Instance). record i { status = InstanceStatus.completed }) m, refl);
}

spawn_child-once_example :
    ((spawn_child_and_block_parent call_env caller opts completed_since).0 ≡ ok false)
    × ((spawn_child_and_block_parent call_env caller opts completed_since).1.core.instances
        ≡ completed_since.core.instances)
unfolding spawn_child_and_block_parent spawn start_child start_under start_from launch start_process
    start_in_transaction resolve_child_subject find_child load_process template_step
    workflow_subject registry
spawn_child-once_example =
    spawn_child-once call_env call_env opts opts caller caller before_call completed_since refl
      still_there refl

-- The catalogue gives the second step first.
abbrev two_steps : Env
two_steps = record env {
  template_steps = template 2 2 call_process ∷ template 1 1 call_process ∷ [];
}

abbrev start : StartParams
start = record {
  template_id = 1;
  tenant_id = 1;
  created_by = 1;
  subject = record { subject_type = SubjectType.project; subject_id = 1; subject_metadata = none };
  parent_instance_id = none;
  parent_step_id = none;
  on_child_failure = OnChildFailure.ignore;
  context = none;
  correlation_id = none;
}

instantiate_process_in-Instantiated_example :
    Instantiated two_steps start before_call
      (instantiate_process_in two_steps start before_call).0
      (instantiate_process_in two_steps start before_call).1
instantiate_process_in-Instantiated_example =
    instantiate_process_in-Instantiated two_steps start before_call
