-- ===== src/Engine/Gates.antt =====
-- What a step must pass: its mandatory requirements and object bindings (`checkStepGates` of
-- src/automation/step-orchestrator.service.ts) and its triggers (`evaluateTriggers`, and
-- src/automation/trigger-engine.service.ts).
use six_1_core_api.Prelude.{
  ℕ, Bool, true, false, not, ◌&&◌, Option, none, some, List, [], ◌∷◌, ◌++◌, map,
}
use six_1_core_api.Prelude.Tests.{◌==◌, str_eq, if◌then◌else◌}
use six_1_core_api.Prelude.Lists.{any, all, filter, find}
use six_1_core_api.Engine.Rows.{
  EngineState, Instance, Step, Requirement, Action, emit, enqueue, TriggerEnvelope, Trigger,
  ObjectStatus, ObjectInstance, Message, World, TemplateBinding, TriggerContext, Env,
}
use six_1_core_api.Engine.Duration.{iso_duration_to_ms}

-- SELECT … FROM process_instances WHERE process_instance_id = ? LIMIT 1
unfoldable pub load_process : ℕ → World → Option Instance
load_process id w = find (λ (i : Instance). i.process_instance_id == id) w.core.instances

-- `loadStepLocked`
unfoldable pub load_step : ℕ → World → Option Step
load_step id w = find (λ (s : Step). s.step_instance_id == id) w.core.steps

-- `SUM(status = 'completed')` equals `COUNT(*)`, which is not 0.
abbrev pub is_completed : Step → Bool
is_completed s = elim s.status [ EngineState.completed ↦ true | _ ↦ false ]

abbrev pub steps_of : ℕ → World → List Step
steps_of id w = filter (λ (s : Step). s.process_instance_id == id) w.core.steps

abbrev pub is_nonempty {ℓ} : {A : Type ℓ} → List A → Bool
is_nonempty [] = false
is_nonempty (_ ∷ _) = true

-- `areAllStepsCompleted`; the host adapters' `canCompleteJob` runs the same query.
unfoldable pub are_all_steps_completed : ℕ → World → Bool
are_all_steps_completed id w = all is_completed (steps_of id w) && is_nonempty (steps_of id w)

-- `checkRequirementsOnly`
unfoldable pub check_requirements_only : ℕ → World → Bool
check_requirements_only step w =
    all (λ (r : Requirement). str_eq r.status "approved")
      (filter (λ (r : Requirement). r.is_mandatory)
        (filter (λ (r : Requirement). r.step_instance_id == step) w.requirements))

-- `b.is_mandatory` of the left join, with 1 where no binding is found.
unfoldable pub mandatory_binding : Env → Option ℕ → Bool
mandatory_binding env none = true
mandatory_binding env (some id) =
    elim (find (λ (b : TemplateBinding). b.binding_id == id) env.template_bindings) [
      | none ↦ true
      | some b ↦ b.is_mandatory
    ]

abbrev pub is_settled : ObjectStatus → Bool
is_settled ObjectStatus.valid = true
is_settled ObjectStatus.skipped = true
is_settled _ = false

abbrev pub blocking : Env → ℕ → ObjectInstance → Bool
blocking env step oi =
    (oi.step_instance_id == step)
    && (mandatory_binding env oi.binding_id && not (is_settled oi.status))

-- `areMandatoryBindingsValid`
unfoldable pub are_mandatory_bindings_valid : Env → ℕ → World → Bool
unfolding mandatory_binding
are_mandatory_bindings_valid env step w =
    if env.config_object_steps_enabled
    then not (any (blocking env step) w.object_instances)
    else true

-- `checkStepGates`
unfoldable pub check_step_gates : Env → ℕ → World → Bool
check_step_gates env step w =
    check_requirements_only step w && are_mandatory_bindings_valid env step w

abbrev pub delay_of : Option ℕ → ℕ
delay_of none = 0
delay_of (some d) = d

unfoldable pub message_of : ℕ → Action → Message
message_of process (emit name) = Message.emitted name process
message_of process (enqueue queue job delay) = Message.scheduled (delay_of delay) queue job process

-- `execActions`
unfoldable pub exec_actions : List Action → TriggerContext → World → World
unfolding message_of
exec_actions actions ctx w = record w {
  outbox = w.outbox ++ map (message_of ctx.process_instance_id) actions;
}

-- `TriggerEngineService.evaluate`
unfoldable pub evaluate : Env → TriggerEnvelope → TriggerContext → World → Bool × World
unfolding exec_actions
evaluate env (TriggerEnvelope.jsonlogic logic actions) ctx w =
    if env.apply_logic logic ctx then (true, exec_actions actions ctx w) else (false, w)
evaluate env (TriggerEnvelope.time after) ctx w =
    let delay_ms = iso_duration_to_ms after in
    if delay_ms == 0 then (false, w) else (
      false,
      record w {
        outbox =
            w.outbox
            ++ Message.scheduled delay_ms "automation" "time-trigger" ctx.process_instance_id ∷ [];
      },
    )
evaluate env (TriggerEnvelope.event _) ctx w = (false, w)
evaluate env TriggerEnvelope.unknown ctx w = (false, w)

-- UPDATE process_instance_step_triggers … WHERE trigger_instance_id = ?
unfoldable pub mark : Bool → ℕ → World → World
mark met id w = record w {
  triggers =
      map
        (λ (t : Trigger).
          if t.trigger_instance_id == id
          then (if met
              then record t { met = true; met_at = some w.clock; last_eval_at = some w.clock }
              else record t { last_eval_at = some w.clock })
          else t)
        w.triggers;
}

unfoldable pub evaluate_one : Env → TriggerContext → Trigger → World → Bool × World
unfolding mark
evaluate_one env ctx t w =
    let (met, w') = evaluate env t.json_schema ctx w in (met, mark met t.trigger_instance_id w')

unfoldable pub evaluate_all : Env → TriggerContext → List Trigger → World → Bool × World
evaluate_all env ctx [] w = (true, w)
evaluate_all env ctx (t ∷ ts) w =
    let (met, w') = evaluate_one env ctx t w in
    let (rest, w'') = evaluate_all env ctx ts w' in (met && rest, w'')

abbrev pub tenant_of : Option Instance → Option ℕ
tenant_of none = none
tenant_of (some i) = some (i.tenant_id)

abbrev pub template_of : Option Instance → Option ℕ
template_of none = none
template_of (some i) = some (i.process_template_id)

-- `buildContext`
unfoldable pub build_context : ℕ → ℕ → World → TriggerContext
build_context process step w = record {
  tenant_id = tenant_of (load_process process w);
  process_template_id = template_of (load_process process w);
  process_instance_id = process;
  step_id = step;
  all_required_submissions_approved = check_requirements_only step w;
  now = w.clock;
}

abbrev pub triggers_of : ℕ → World → List Trigger
triggers_of step w = filter (λ (t : Trigger). t.step_instance_id == step) w.triggers

-- `evaluateTriggers`
unfoldable pub evaluate_triggers : Env → ℕ → ℕ → World → Bool × World
unfolding evaluate_all evaluate_one build_context
evaluate_triggers env process step w =
    evaluate_all env (build_context process step w) (triggers_of step w) w
