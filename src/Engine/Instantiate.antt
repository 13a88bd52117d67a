-- ===== src/Engine/Instantiate.antt =====
-- src/automation/process-instantiation.service.ts, `instantiateProcessIn`, and `startProcess` of
-- src/automation/process-lifecycle.facade.ts with `skipHostOnStart`, as a child is started.
use six_1_core_api.Prelude.{
  ℕ, suc, String, Bool, true, false, not, ◌&&◌, Option, none, some, List, [], ◌∷◌, ◌++◌, map,
}
use six_1_core_api.Prelude.Tests.{◌==◌, leb, if◌then◌else◌}
use six_1_core_api.Prelude.Lists.{filter}
use six_1_core_api.Json.{Object}
use six_1_core_api.Engine.Rows.{
  pending, ready, SubjectType, InstanceStatus, OnChildFailure, none_given, Instance, Step,
  Requirement, Trigger, ObjectStatus, ObjectInstance, Message, World, TemplateStep,
  TemplateRequirement, TemplateTrigger, TemplateBinding, Env,
}
use six_1_core_api.Engine.Exec.{
  unsupported_subject_type, no_host_adapter, subject_type_disabled, Exec, pure, throw, state,
  modify, when, ◌>>=◌, ◌>>◌,
}
use six_1_core_api.Engine.Hosts.{registry}

-- ProcessInstanceSubjectInput
pub record Subject : Type 0 where
  pub subject_type : SubjectType
  pub subject_id : ℕ
  pub subject_metadata : Option Object

-- ProcessInstantiationOptions; StartProcessParams has the same fields.
pub record StartParams : Type 0 where
  pub template_id : ℕ
  pub tenant_id : ℕ
  pub created_by : ℕ
  pub subject : Subject
  pub parent_instance_id : Option ℕ
  pub parent_step_id : Option ℕ
  pub on_child_failure : OnChildFailure
  pub context : Option Object
  pub correlation_id : Option String

abbrev pub is_workflow : SubjectType → Bool
is_workflow SubjectType.workflow = true
is_workflow _ = false

-- INSERT INTO process_instances, and the self-subject of a workflow.
unfoldable pub new_instance : StartParams → ℕ → Instance
new_instance p id = record {
  process_instance_id = id;
  process_template_id = p.template_id;
  tenant_id = p.tenant_id;
  created_by = p.created_by;
  status = InstanceStatus.active;
  subject_type = p.subject.subject_type;
  subject_id =
      if is_workflow p.subject.subject_type && p.subject.subject_id == 0
      then id
      else p.subject.subject_id;
  subject_metadata = p.subject.subject_metadata;
  parent_instance_id = p.parent_instance_id;
  parent_step_id = p.parent_step_id;
  on_child_failure = p.on_child_failure;
  context = p.context;
  correlation_id = none;
  completed_at = none;
  canceled_at = none;
}

-- ORDER BY pts.step_order ASC
unfoldable pub insert_step : TemplateStep → List TemplateStep → List TemplateStep
insert_step s [] = s ∷ []
insert_step s (t ∷ ts) =
    let rest = insert_step s ts in if leb s.step_order t.step_order then s ∷ t ∷ ts else t ∷ rest

unfoldable pub sort_steps : List TemplateStep → List TemplateStep
sort_steps [] = []
sort_steps (s ∷ ss) = insert_step s (sort_steps ss)

unfoldable pub template_steps_of : Env → ℕ → List TemplateStep
unfolding sort_steps insert_step
template_steps_of env template =
    sort_steps (filter (λ (s : TemplateStep). s.process_template_id == template) env.template_steps)

-- INSERT INTO process_instance_steps: the first step is ready, the others are pending.
unfoldable pub new_step : ℕ → ℕ → ℕ → TemplateStep → Step
new_step now process id s =
    let first = s.step_order == 1 in
    record {
      step_instance_id = id;
      process_instance_id = process;
      process_template_step_id = s.process_template_step_id;
      step_order = s.step_order;
      task_type = s.task_type;
      status = if first then ready else pending;
      blocked_reason = none_given;
      ready_at = if first then some now else none;
      started_at = none;
      completed_at = none;
      canceled_at = none;
    }

unfoldable pub new_steps : ℕ → ℕ → ℕ → List TemplateStep → List Step
unfolding new_step
new_steps now process id [] = []
new_steps now process id (s ∷ ss) = new_step now process id s ∷ new_steps now process (suc id) ss

-- `tplToInst`: the last step that a template step was given, as `Map.set` leaves it.
abbrev pub or_later : ℕ → Step → Option ℕ → Option ℕ
or_later template s (some id) = some id
or_later template s none =
    if s.process_template_step_id == template then some s.step_instance_id else none

unfoldable pub step_for : ℕ → List Step → Option ℕ
step_for template [] = none
step_for template (s ∷ ss) = or_later template s (step_for template ss)

unfoldable pub copy_requirements : List Step → List TemplateRequirement → List Requirement
copy_requirements steps [] = []
copy_requirements steps (r ∷ rs) =
    let rest = copy_requirements steps rs in
    elim (step_for r.process_template_step_id steps) [
      | none ↦ rest
      | some step ↦
          record {
            step_instance_id = step;
            requirement_key = r.requirement_key;
            is_mandatory = true;
            status = "none";
          }
          ∷ rest
    ]

unfoldable pub copy_triggers : ℕ → List Step → List TemplateTrigger → List Trigger
copy_triggers id steps [] = []
copy_triggers id steps (t ∷ ts) = elim (step_for t.process_template_step_id steps) [
  | none ↦ copy_triggers id steps ts
  | some step ↦
      record {
        trigger_instance_id = id;
        step_instance_id = step;
        json_schema = t.json_schema;
        met = false;
        met_at = none;
        last_eval_at = none;
      }
      ∷ copy_triggers (suc id) steps ts
]

unfoldable pub copy_bindings : ℕ → List Step → List TemplateBinding → List ObjectInstance
copy_bindings id steps [] = []
copy_bindings id steps (b ∷ bs) = elim (step_for b.process_template_step_id steps) [
  | none ↦ copy_bindings id steps bs
  | some step ↦
      record {
        step_object_instance_id = id;
        step_instance_id = step;
        binding_id = some (b.binding_id);
        config_object_id = b.config_object_id;
        config_custom_object_instance_id = none;
        status = ObjectStatus.pending;
        last_error = none;
      }
      ∷ copy_bindings (suc id) steps bs
]

-- AUTO_INCREMENT: the next id after the rows that were inserted.
abbrev pub after {ℓ} : {A : Type ℓ} → ℕ → List A → ℕ
after id [] = id
after id (_ ∷ xs) = after (suc id) xs

-- `instantiateProcessIn`
unfoldable pub instantiate_process_in : Env → StartParams → World → ℕ × World
unfolding new_instance template_steps_of copy_requirements copy_triggers copy_bindings step_for
instantiate_process_in env p w =
    let id = w.core.next_instance_id in
    let steps = new_steps w.clock id w.core.next_step_id (template_steps_of env p.template_id) in
    let triggers = copy_triggers w.next_trigger_id steps env.template_triggers in
    let objects = copy_bindings w.next_object_instance_id steps env.template_bindings in
    (
      id,
      record w {
        core = record {
          instances = w.core.instances ++ new_instance p id ∷ [];
          steps = w.core.steps ++ steps;
          next_instance_id = suc id;
          next_step_id = after w.core.next_step_id steps;
        };
        requirements = w.requirements ++ copy_requirements steps env.template_requirements;
        triggers = w.triggers ++ triggers;
        next_trigger_id = after w.next_trigger_id triggers;
        object_instances = w.object_instances ++ objects;
        next_object_instance_id = after w.next_object_instance_id objects;
      },
    )

-- `isProcessSubjectType`
abbrev pub is_subject_type : SubjectType → Bool
is_subject_type SubjectType.unknown = false
is_subject_type _ = true

-- `assertSubjectTierEnabled`
abbrev pub tier_enabled : Env → SubjectType → Bool
tier_enabled env SubjectType.config_custom_object_instance = env.tier2_instance_subject_enabled
tier_enabled env SubjectType.workflow = env.tier3_workflow_subject_enabled
tier_enabled env SubjectType.scheduled_task = env.tier1_scheduled_task_enabled
tier_enabled env _ = true

abbrev pub has_adapter : SubjectType → Bool
has_adapter s = elim (registry s) [ none ↦ false | some _ ↦ true ]

-- `if (params.correlationId) UPDATE process_instances SET correlation_id = ?`
unfoldable pub set_correlation : Option String → ℕ → World → World
set_correlation none id w = w
set_correlation (some c) id w = record w {
  core = record w.core {
    instances =
        map
          (λ (i : Instance).
            if i.process_instance_id == id then record i { correlation_id = some c } else i)
          w.core.instances;
  };
}

-- `if (this.isSubjectModelEnabled()) this.events.emit(…)`
abbrev pub announce : Env → ℕ → Exec (Unit {0})
announce env id = when env.subject_model_enabled (
    modify
      (λ w. record w { outbox = w.outbox ++ Message.emitted "six1-event.process_started" id ∷ [] }))

-- `startProcessInTransaction`, without the host's start hook.
unfoldable pub start_in_transaction : Env → StartParams → Exec ℕ
start_in_transaction env p = do
  id ← state (instantiate_process_in env p)
  modify (set_correlation p.correlation_id id)
  announce env id
  pure id

-- `startProcess` in the caller's transaction.
unfoldable pub start_process : Env → StartParams → Exec ℕ
unfolding registry
start_process env p =
    if not (is_subject_type p.subject.subject_type)
    then throw unsupported_subject_type
    else if not (has_adapter p.subject.subject_type)
    then throw no_host_adapter
    else if not (tier_enabled env p.subject.subject_type)
    then throw subject_type_disabled
    else start_in_transaction env p
