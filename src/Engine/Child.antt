-- ===== src/Engine/Child.antt =====
-- src/automation/child-process-orchestration.service.ts: call_process steps, which start a child
-- process and wait for it.
use six_1_core_api.Prelude.{
  ℕ, String, Bool, true, false, not, ◌&&◌, Option, none, some, [], ◌∷◌, ◌++◌, map,
}
use six_1_core_api.Prelude.Tests.{◌==◌, if◌then◌else◌}
use six_1_core_api.Prelude.Lists.{find}
use six_1_core_api.Json.{num, Object, get, put, spread}
use six_1_core_api.Engine.Rows.{
  EngineState, TaskType, ChildSubjectPolicy, inherit, config_instance, waiting_child, SubjectType,
  Instance, Step, Message, World, TemplateStep, Env, Options,
}
use six_1_core_api.Engine.Exec.{
  parent_not_found, child_template_missing, child_instance_missing, Exec, pure, throw, require,
  gets, modify, when, ◌>>=◌, ◌>>◌,
}
use six_1_core_api.Engine.Gates.{load_process}
use six_1_core_api.Engine.Hosts.{is_id}
use six_1_core_api.Engine.Instantiate.{Subject, StartParams, start_process}

unfoldable pub update_step : (Step → Step) → ℕ → World → World
update_step f id w = record w {
  core = record w.core {
    steps = map (λ (s : Step). if s.step_instance_id == id then f s else s) w.core.steps;
  };
}

unfoldable pub update_instance : (Instance → Instance) → ℕ → World → World
update_instance f id w = record w {
  core = record w.core {
    instances =
        map (λ (i : Instance). if i.process_instance_id == id then f i else i) w.core.instances;
  };
}

unfoldable pub say : Message → World → World
say m w = record w { outbox = w.outbox ++ m ∷ [] }

abbrev pub is_call_process : Option TaskType → Bool
is_call_process (some TaskType.call_process) = true
is_call_process _ = false

abbrev pub is_blocked : EngineState → Bool
is_blocked EngineState.blocked = true
is_blocked _ = false

-- `findChildProcessInstanceId`
unfoldable pub find_child : ℕ → World → Option Instance
find_child step w = find (λ (i : Instance). is_id i.parent_step_id step) w.core.instances

-- `blockParentStep`
unfoldable pub block_parent_step : ℕ → World → World
block_parent_step =
    update_step
      (λ (s : Step). record s { status = EngineState.blocked; blocked_reason = waiting_child })

unfoldable pub template_step : Env → ℕ → Option TemplateStep
template_step env id =
    find (λ (t : TemplateStep). t.process_template_step_id == id) env.template_steps

abbrev pub or_empty : Option Object → Object
or_empty none = []
or_empty (some o) = o

-- `Number(ctx[k])`; an absent key is no number.
unfoldable pub number_at : Env → String → Object → ℕ
number_at env k o = elim (get k o) [ none ↦ 0 | some v ↦ env.number v ]

abbrev pub or_number : ℕ → ℕ → ℕ
or_number a b = if a == 0 then b else a

-- The instance id of the policy `config_instance`: 0 where there is none.
unfoldable pub config_instance_id : Env → Instance → ℕ
config_instance_id env parent =
    or_number (number_at env "configCustomObjectInstanceId" (or_empty parent.context)) (
      or_number (number_at env "config_custom_object_instance_id" (or_empty parent.context))
        (elim parent.subject_type [
          | SubjectType.config_custom_object_instance ↦ parent.subject_id
          | _ ↦ 0
        ]))

unfoldable pub workflow_subject : Subject
workflow_subject = record {
  subject_type = SubjectType.workflow;
  subject_id = 0;
  subject_metadata = none;
}

-- `resolveChildSubject`
unfoldable pub resolve_child_subject : Env → Instance → Option ChildSubjectPolicy → Exec Subject
resolve_child_subject env parent (some inherit) = pure (record {
  subject_type = parent.subject_type;
  subject_id = parent.subject_id;
  subject_metadata = parent.subject_metadata;
})
resolve_child_subject env parent (some config_instance) =
    let id = config_instance_id env parent in
    if id == 0
    then throw child_instance_missing
    else pure (record {
      subject_type = SubjectType.config_custom_object_instance;
      subject_id = id;
      subject_metadata = some (or_empty parent.subject_metadata);
    })
resolve_child_subject env parent _ = pure workflow_subject

-- `buildChildContext`
unfoldable pub build_child_context : Instance → TemplateStep → Object
build_child_context parent t =
    put "parentProcessInstanceId" (num parent.process_instance_id)
      (spread (or_empty parent.context) (or_empty t.child_context_patch))

abbrev pub actor_or : Option ℕ → ℕ → ℕ
actor_or none n = n
actor_or (some a) n = a

abbrev pub text_or : Option String → Option String → Option String
text_or none t = t
text_or (some s) t = some s

abbrev pub start_params : Env → Instance → Step → TemplateStep → ℕ → Options → Subject → StartParams
start_params env parent step t template opts subject = record {
  template_id = template;
  tenant_id = parent.tenant_id;
  created_by = actor_or opts.actor_tenant_user_id parent.created_by;
  subject = subject;
  parent_instance_id = some (parent.process_instance_id);
  parent_step_id = some (step.step_instance_id);
  on_child_failure = parent.on_child_failure;
  context = some (build_child_context parent t);
  correlation_id = text_or opts.correlation_id parent.correlation_id;
}

-- `if (!tpl?.child_template_id) throw`
abbrev pub child_template : Option TemplateStep → Option (TemplateStep × ℕ)
child_template none = none
child_template (some t) = elim t.child_template_id [
  | none ↦ none
  | some id ↦ if id == 0 then none else some (t, id)
]

-- The child is started and the step waits for it.
unfoldable pub launch : Step → StartParams → Env → Exec Bool
launch step params env = do
  child ← start_process env params
  modify (block_parent_step step.step_instance_id)
  modify (say (Message.emitted "six1-event.process_child_started" child))
  pure true

unfoldable pub start_from : Env → Step → Options → Instance → TemplateStep × ℕ → Exec Bool
start_from env step opts parent (t, template) = do
  subject ← resolve_child_subject env parent t.child_subject_policy
  launch step (start_params env parent step t template opts subject) env

unfoldable pub start_under : Env → Step → Options → Instance → Exec Bool
start_under env step opts parent = do
  chosen ←
      require (child_template (template_step env step.process_template_step_id))
        child_template_missing
  start_from env step opts parent chosen

-- The part of `spawnChildAndBlockParent` that runs where the step has no child yet.
unfoldable pub start_child : Env → Step → Options → Exec Bool
start_child env step opts = do
  found ← gets (load_process step.process_instance_id)
  parent ← require found parent_not_found
  start_under env step opts parent

unfoldable pub spawn : Env → Step → Options → Option Instance → Exec Bool
spawn env step opts none = start_child env step opts
spawn env step opts (some _) = do
  when (not (is_blocked step.status)) (modify (block_parent_step step.step_instance_id))
  pure false

-- `spawnChildAndBlockParent`: whether a child was started.
unfoldable pub spawn_child_and_block_parent : Env → Step → Options → Exec Bool
spawn_child_and_block_parent env step opts =
    if not (env.call_process_enabled && is_call_process step.task_type)
    then pure false
    else (do existing ← gets (find_child step.step_instance_id); spawn env step opts existing)
