-- ===== src/Engine/Rows.antt =====
-- The tables that the engine writes (process_instances, process_instance_steps and the tables
-- of their entities), the template tables that it reads, and the events and jobs that it emits.
use Prim.Native.String.{String}
use mathlib.Core.Option.{Option}
use mathlib.Core.List.{List}
use six_1_core_api.Prelude.{ℕ, Bool}
use six_1_core_api.Json.{Json, Object}

-- process-engine-state.ts
pub data EngineState : Type 0 where
  pending ready in_progress completed blocked canceled : EngineState

-- process-step-task-type.constants.ts
pub data TaskType : Type 0 where
  manual automated call_process config_object : TaskType

pub data ChildSubjectPolicy : Type 0 where
  inherit workflow config_instance : ChildSubjectPolicy

pub data OnChildFailure : Type 0 where
  ignore pause_parent fail_parent : OnChildFailure

pub data BlockedReason : Type 0 where
  none_given waiting_child child_failed : BlockedReason

-- process-subject.constants.ts; `unknown` is any other text in the column.
pub data SubjectType : Type 0 where
  project scheduled_task config_custom_object_instance workflow sor_entity unknown : SubjectType

pub data InstanceStatus : Type 0 where
  draft active completed canceled : InstanceStatus

pub record Instance : Type 0 where
  pub process_instance_id : ℕ
  pub process_template_id : ℕ
  pub tenant_id : ℕ
  pub created_by : ℕ
  pub status : InstanceStatus
  pub subject_type : SubjectType
  pub subject_id : ℕ
  pub subject_metadata : Option Object
  pub parent_instance_id : Option ℕ
  pub parent_step_id : Option ℕ
  pub on_child_failure : OnChildFailure
  pub context : Option Object
  pub correlation_id : Option String
  pub completed_at : Option ℕ
  pub canceled_at : Option ℕ

pub record Step : Type 0 where
  pub step_instance_id : ℕ
  pub process_instance_id : ℕ
  pub process_template_step_id : ℕ
  pub step_order : ℕ
  pub task_type : Option TaskType
  pub status : EngineState
  pub blocked_reason : BlockedReason
  pub ready_at : Option ℕ
  pub started_at : Option ℕ
  pub completed_at : Option ℕ
  pub canceled_at : Option ℕ

pub record Requirement : Type 0 where
  pub step_instance_id : ℕ
  pub requirement_key : String
  pub is_mandatory : Bool
  pub status : String

-- The union `Action` of trigger-engine.service.ts.
pub data Action : Type 0 where
  emit : String → Action
  enqueue : (queue job : String) (delay_ms : Option ℕ) → Action

-- The union `TriggerEnvelope`; `unknown` is a document of another type.
pub data TriggerEnvelope : Type 0 where
  jsonlogic : (logic : Json) (actions_on_met : List Action) → TriggerEnvelope
  time : (after : String) → TriggerEnvelope
  event : (event_name : String) → TriggerEnvelope
  unknown : TriggerEnvelope

pub record Trigger : Type 0 where
  pub trigger_instance_id : ℕ
  pub step_instance_id : ℕ
  pub json_schema : TriggerEnvelope
  pub met : Bool
  pub met_at : Option ℕ
  pub last_eval_at : Option ℕ

pub data ObjectStatus : Type 0 where
  pending active valid failed skipped : ObjectStatus

-- process_instance_step_object_instances
pub record ObjectInstance : Type 0 where
  pub step_object_instance_id : ℕ
  pub step_instance_id : ℕ
  pub binding_id : Option ℕ
  pub config_object_id : ℕ
  pub config_custom_object_instance_id : Option ℕ
  pub status : ObjectStatus
  pub last_error : Option String

-- config_custom_object_instances
pub record CustomInstance : Type 0 where
  pub config_custom_object_instance_id : ℕ
  pub tenant_id : ℕ
  pub config_object_id : ℕ
  pub payload : Object
  pub status : String
  pub created_by : ℕ

pub data StatusControl : Type 0 where
  manual process hybrid : StatusControl

pub record Task : Type 0 where
  pub task_id : ℕ
  pub project_id : ℕ
  pub step_instance_id : Option ℕ
  pub task_status_id : ℕ
  pub status_control : StatusControl

-- project_step_status_mappings
pub record StatusMapping : Type 0 where
  pub project_id : ℕ
  pub step_instance_id : Option ℕ
  pub step_engine_state : EngineState
  pub task_status_id : ℕ

pub record Project : Type 0 where
  pub project_id : ℕ
  pub process_instance_id : Option ℕ
  pub status : String
  pub completed_at : Option ℕ

pub data ScheduledTaskStatus : Type 0 where
  scheduled queued running completed failed cancelled paused expired : ScheduledTaskStatus

pub record ScheduledTask : Type 0 where
  pub scheduled_task_id : ℕ
  pub tenant_id : ℕ
  pub process_instance_id : Option ℕ
  pub status : ScheduledTaskStatus
  pub actual_start_utc : Option ℕ
  pub actual_end_utc : Option ℕ
  pub is_active : Bool
  pub updated_by : Option ℕ

-- What is handed to the event emitter and to the job queue.
pub data Message : Type 0 where
  emitted : (event : String) (entity_id : ℕ) → Message
  child_event :
      (completed : Bool) (child parent : ℕ) (parent_step : Option ℕ) (resumed_parent : Bool)
      → Message
  scheduled : (delay_ms : ℕ) (queue job : String) (process_instance_id : ℕ) → Message

-- The rows of processes and steps, with the next values of their AUTO_INCREMENT ids.
pub record Core : Type 0 where
  pub instances : List Instance
  pub steps : List Step
  pub next_instance_id : ℕ
  pub next_step_id : ℕ

-- The database and what has been emitted; `clock` is what NOW() gives.
pub record World : Type 0 where
  pub clock : ℕ
  pub core : Core
  pub requirements : List Requirement
  pub triggers : List Trigger
  pub next_trigger_id : ℕ
  pub object_instances : List ObjectInstance
  pub next_object_instance_id : ℕ
  pub custom_instances : List CustomInstance
  pub next_custom_instance_id : ℕ
  pub tasks : List Task
  pub mappings : List StatusMapping
  pub projects : List Project
  pub scheduled_tasks : List ScheduledTask
  pub outbox : List Message

-- Template rows.
pub record TemplateStep : Type 0 where
  pub process_template_step_id : ℕ
  pub process_template_id : ℕ
  pub step_order : ℕ
  pub task_type : Option TaskType
  pub child_template_id : Option ℕ
  pub child_subject_policy : Option ChildSubjectPolicy
  pub child_context_patch : Option Object

pub record TemplateRequirement : Type 0 where
  pub process_template_step_id : ℕ
  pub requirement_key : String

pub record TemplateTrigger : Type 0 where
  pub process_template_step_id : ℕ
  pub json_schema : TriggerEnvelope

pub record TemplateBinding : Type 0 where
  pub binding_id : ℕ
  pub process_template_step_id : ℕ
  pub config_object_id : ℕ
  pub binding_mode : Option String
  pub is_mandatory : Bool
  pub order_index : ℕ
  pub completion_rule : Option Object

pub record ConfigObject : Type 0 where
  pub config_object_id : ℕ
  pub binding_mode : Option String

-- What the trigger engine hands to the json-logic package.
pub record TriggerContext : Type 0 where
  pub tenant_id : Option ℕ
  pub process_template_id : Option ℕ
  pub process_instance_id : ℕ
  pub step_id : ℕ
  pub all_required_submissions_approved : Bool
  pub now : ℕ

-- The feature flags, the catalogue of templates (bindings by order_index and binding_id), and what
-- the engine calls of other packages and of the runtime: json-logic, `Number` (0 for what is no
-- number) and `String` on a JSON value, and ISO times.
pub record Env : Type 0 where
  pub call_process_enabled : Bool
  pub config_object_steps_enabled : Bool
  pub subject_model_enabled : Bool
  pub tier1_scheduled_task_enabled : Bool
  pub tier2_instance_subject_enabled : Bool
  pub tier3_workflow_subject_enabled : Bool
  pub template_steps : List TemplateStep
  pub template_requirements : List TemplateRequirement
  pub template_triggers : List TemplateTrigger
  pub template_bindings : List TemplateBinding
  pub config_objects : List ConfigObject
  pub apply_logic : Json → TriggerContext → Bool
  pub number : Json → ℕ
  pub text : Json → String
  pub iso_time : ℕ → String

-- AdvanceOptions
pub record Options : Type 0 where
  pub actor_tenant_user_id : Option ℕ
  pub correlation_id : Option String
