-- ===== src/Engine/Frames.antt =====
-- What the gates, the bindings and the hosts leave alone: the rows of processes and steps.
use six_1_core_api.Prelude.{ℕ, ◌≡◌, refl, ◌∙◌, inl, inr, Option, none, some, List, [], ◌∷◌, arith}
use six_1_core_api.Prelude.Tests.{Bool-cases}
use six_1_core_api.Engine.Rows.{
  EngineState, Instance, Trigger, TriggerEnvelope, TriggerContext, World, Env, Options,
}
use six_1_core_api.Engine.Gates.{
  evaluate, evaluate_one, evaluate_all, evaluate_triggers, build_context, triggers_of,
}
use six_1_core_api.Engine.Provision.{
  BindingRow, provision_row, provision_rows, provision_for, pending_rows, process_context,
  provision_bindings_on_step_ready,
}
use six_1_core_api.Engine.Hosts.{
  Adapter, on_step_state_changed, on_process_completed, project_host, scheduled_task_host,
}

evaluate-core :
    (env : Env) (t : TriggerEnvelope) (ctx : TriggerContext) (w : World)
    → (evaluate env t ctx w).1.core ≡ w.core
unfolding evaluate
evaluate-core env (TriggerEnvelope.jsonlogic l actions) ctx w = ground arith
evaluate-core env (TriggerEnvelope.time a) ctx w = ground arith
evaluate-core env (TriggerEnvelope.event e) ctx w = refl
evaluate-core env TriggerEnvelope.unknown ctx w = refl

evaluate_all-core :
    (env : Env) (ctx : TriggerContext) (ts : List Trigger) (w : World)
    → (evaluate_all env ctx ts w).1.core ≡ w.core
unfolding evaluate_all evaluate_one
evaluate_all-core env ctx [] w = refl
evaluate_all-core env ctx (t ∷ ts) w =
    evaluate_all-core env ctx ts (evaluate_one env ctx t w).1
    ∙ evaluate-core env t.json_schema ctx w

pub evaluate_triggers-core :
    (env : Env) (process step : ℕ) (w : World)
    → (evaluate_triggers env process step w).1.core ≡ w.core
unfolding evaluate_triggers
evaluate_triggers-core env process step w =
    evaluate_all-core env (build_context process step w) (triggers_of step w) w

provision_row-core :
    (env : Env) (p : Instance) (r : BindingRow) (w : World)
    → (provision_row env p r w).core ≡ w.core
unfolding provision_row
provision_row-core env p r w = ground arith

provision_rows-core :
    (env : Env) (p : Instance) (rows : List BindingRow) (w : World)
    → (provision_rows env p rows w).core ≡ w.core
unfolding provision_rows
provision_rows-core env p [] w = refl
provision_rows-core env p (r ∷ rows) w =
    provision_rows-core env p rows (provision_row env p r w) ∙ provision_row-core env p r w

provision_for-core :
    (env : Env) (step : ℕ) (p : Option Instance) (w : World)
    → (provision_for env step p w).core ≡ w.core
unfolding provision_for
provision_for-core env step none w = refl
provision_for-core env step (some p) w = provision_rows-core env p (pending_rows env step w) w

pub provision-core :
    (env : Env) (step : ℕ) (w : World) → (provision_bindings_on_step_ready env step w).core ≡ w.core
unfolding provision_bindings_on_step_ready
provision-core env step w = elim (Bool-cases env.config_object_steps_enabled) [
  | inl e ↦ rw e (provision_for-core env step (process_context step w) w)
  | inr e ↦ rw e
]

provision_row-triggers :
    (env : Env) (p : Instance) (r : BindingRow) (w : World)
    → (provision_row env p r w).triggers ≡ w.triggers
unfolding provision_row
provision_row-triggers env p r w = ground arith

provision_rows-triggers :
    (env : Env) (p : Instance) (rows : List BindingRow) (w : World)
    → (provision_rows env p rows w).triggers ≡ w.triggers
unfolding provision_rows
provision_rows-triggers env p [] w = refl
provision_rows-triggers env p (r ∷ rows) w =
    provision_rows-triggers env p rows (provision_row env p r w) ∙ provision_row-triggers env p r w

provision_for-triggers :
    (env : Env) (step : ℕ) (p : Option Instance) (w : World)
    → (provision_for env step p w).triggers ≡ w.triggers
unfolding provision_for
provision_for-triggers env step none w = refl
provision_for-triggers env step (some p) w =
    provision_rows-triggers env p (pending_rows env step w) w

pub provision-triggers :
    (env : Env) (step : ℕ) (w : World)
    → (provision_bindings_on_step_ready env step w).triggers ≡ w.triggers
unfolding provision_bindings_on_step_ready
provision-triggers env step w = elim (Bool-cases env.config_object_steps_enabled) [
  | inl e ↦ rw e (provision_for-triggers env step (process_context step w) w)
  | inr e ↦ rw e
]

pub on_step_state_changed-core :
    (a : Adapter) (p : Instance) (step : ℕ) (s : EngineState) (opts : Options) (w : World)
    → (on_step_state_changed a p step s opts w).core ≡ w.core
unfolding on_step_state_changed
on_step_state_changed-core project_host p step s opts w = ground arith
on_step_state_changed-core scheduled_task_host p step s opts w = ground arith
on_step_state_changed-core _ p step s opts w = refl

pub on_process_completed-core :
    (a : Adapter) (p : Instance) (w : World) → (on_process_completed a p w).core ≡ w.core
unfolding on_process_completed
on_process_completed-core project_host p w = ground arith
on_process_completed-core scheduled_task_host p w = ground arith
on_process_completed-core _ p w = refl
