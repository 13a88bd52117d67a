-- ===== src/Engine/Evolution.antt =====
-- The transactions of the orchestrator move the steps along, and nothing else happens to a row.
use six_1_core_api.Prelude.{
  ℕ, suc, ◌≡◌, refl, ◌∙◌, ap, inl, inr, true, ◌&&◌, Option, none, some, arith,
}
use six_1_core_api.Prelude.Tests.{◌==◌, Bool-cases}
use six_1_core_api.Engine.Rows.{
  EngineState, pending, Instance, Step, SubjectType, World, Env, Options, Message,
  ChildSubjectPolicy, inherit, config_instance,
}
use six_1_core_api.Engine.Exec.{
  no_host_adapter, parent_not_found, child_template_missing, require, modify, pure, ◌>>◌,
}
use six_1_core_api.Engine.Gates.{load_process}
use six_1_core_api.Engine.Hosts.{registry, on_step_state_changed}
use six_1_core_api.Engine.Child.{
  block_parent_step, say, template_step, child_template, spawn, resolve_child_subject,
  config_instance_id, start_params, launch, start_from, start_under, start_child,
  spawn_child_and_block_parent, find_child, is_call_process,
}
use six_1_core_api.Engine.Instantiate.{StartParams, start_process}
use six_1_core_api.Engine.Stepping.{
  set_state, adapter_of, dispatch_to, dispatch_step_state_changed, entered, enter,
}
use six_1_core_api.Engine.Frames.{on_step_state_changed-core}
use six_1_core_api.Engine.Moves.{◌⟶◌, here, more, call}
use six_1_core_api.Engine.Touch.{
  Sound, HasStep, Touches, Touches-refl, Touches-trans, Touches-Same, Touches-update,
  update_step-HasStep, bind-lem, core-Same, after-lem, require-world,
}
use six_1_core_api.Engine.Started.{start_process-Touches}

pub adapter_of-world : (t : SubjectType) (w : World) → (adapter_of t w).1 ≡ w
unfolding adapter_of
adapter_of-world t w = require-world (registry t) no_host_adapter w

dispatch_to-core :
    (step : ℕ) (s : EngineState) (opts : Options) (p : Option Instance) (w : World)
    → (dispatch_to step s opts p w).1.core ≡ w.core
unfolding dispatch_to
dispatch_to-core step s opts none w = refl
dispatch_to-core step s opts (some p) w =
    let e = ap (λ (v : World). v.core) (adapter_of-world p.subject_type w) in
    bind-lem (λ v. v.core ≡ w.core) (adapter_of p.subject_type)
      (λ a. modify (on_step_state_changed a p step s opts)) w e
      (λ a q. on_step_state_changed-core a p step s opts _ ∙ e)

dispatch-core :
    (process step : ℕ) (s : EngineState) (opts : Options) (w : World)
    → (dispatch_step_state_changed process step s opts w).1.core ≡ w.core
unfolding dispatch_step_state_changed
dispatch-core process step s opts w = dispatch_to-core step s opts (load_process process w) w

-- Entering a state is its update, followed by what leaves the tables of steps alone.
enter-core :
    (process step : ℕ) (s : EngineState) (opts : Options) (w : World)
    → (enter process step s opts w).1.core ≡ (set_state step s w).core
unfolding enter
enter-core process step s opts w = dispatch-core process step s opts (set_state step s w)

set_state-Touches :
    (id : ℕ) (next : EngineState) (s : Step) (w : World)
    → Sound w
    → HasStep w id s
    → s.status ⟶ next
    → Touches id w (set_state id next w)
unfolding set_state
set_state-Touches id next s w g h m =
    Touches-update (entered next w.clock) id s w (λ t. refl) g h
      (record {
        same_id = refl;
        same_process = refl;
        same_template_step = refl;
        same_order = refl;
        same_type = refl;
        moves = more m here;
      })

pub enter-Touches :
    (process id : ℕ) (next : EngineState) (opts : Options) (s : Step) (w : World)
    → Sound w
    → HasStep w id s
    → s.status ⟶ next
    → Touches id w (enter process id next opts w).1
enter-Touches process id next opts s w g h m =
    let t = set_state-Touches id next s w g h m in
    Touches-trans t (
      Touches-Same id (set_state id next w) (enter process id next opts w).1 t.sound
        (core-Same (enter-core process id next opts w)))

-- The row that has entered a state is in it.
pub enter-HasStep :
    (process id : ℕ) (next : EngineState) (opts : Options) (s : Step) (w : World)
    → HasStep w id s
    → (t : Step) × HasStep (enter process id next opts w).1 id t × (t.status ≡ next)
unfolding set_state
enter-HasStep process id next opts s w h = (
  entered next w.clock s,
  rw (enter-core process id next opts w)
      (update_step-HasStep (entered next w.clock) id s w (λ t. refl) h),
  refl,
)

block_parent_step-Touches :
    (s : Step) (w : World)
    → Sound w
    → HasStep w s.step_instance_id s
    → s.status ≡ pending
    → Touches s.step_instance_id w (block_parent_step s.step_instance_id w)
unfolding block_parent_step
block_parent_step-Touches s w g h e =
    Touches-update _ s.step_instance_id s w (λ t. refl) g h
      (record {
        same_id = refl;
        same_process = refl;
        same_template_step = refl;
        same_order = refl;
        same_type = refl;
        moves = rw e (more call here);
      })

resolve_child_subject-world :
    (env : Env) (p : Instance) (c : Option ChildSubjectPolicy) (w : World)
    → (resolve_child_subject env p c w).1 ≡ w
unfolding resolve_child_subject
resolve_child_subject-world env p none w = refl
resolve_child_subject-world env p (some inherit) w = refl
resolve_child_subject-world env p (some ChildSubjectPolicy.workflow) w = refl
resolve_child_subject-world env p (some config_instance) w =
    elim (Bool-cases (config_instance_id env p == 0)) [ inl e ↦ rw e | inr e ↦ rw e ]

module _ (env : Env) (opts : Options) (s : Step) (w : World) (g : Sound w)
    (h : HasStep w s.step_instance_id s) (e : s.status ≡ pending) where
  abbrev Moves : World → Type 0
  Moves = Touches s.step_instance_id w

  launch-Touches : (p : StartParams) → Moves (launch s p env w).1
  unfolding launch say
  launch-Touches p =
      bind-lem Moves (start_process env p)
        (λ child.
          modify (block_parent_step s.step_instance_id)
          >> (modify (say (Message.emitted "six1-event.process_child_started" child)) >> pure true))
        w (start_process-Touches s.step_instance_id env p w g)
        (λ child q.
          blocks child (start_process-Touches s.step_instance_id env p w g)
            (start_process-Touches (suc s.step_instance_id) env p w g))
    where
      blocks :
          {w' : World} (child : ℕ)
          → Touches s.step_instance_id w w'
          → Touches (suc s.step_instance_id) w w'
          → Moves (
              say
                (Message.emitted "six1-event.process_child_started" child)
                (block_parent_step s.step_instance_id w'))
      blocks {w'} child t u =
          let b =
            block_parent_step-Touches s w' t.sound (u.others s.step_instance_id s (ground arith) h)
              e in
          Touches-trans t (
            Touches-trans b (
              Touches-Same s.step_instance_id _ _ b.sound
                (record { same_steps = refl; same_next = refl })))

  start_under-Touches : (p : Instance) → Moves (start_under env s opts p w).1
  unfolding start_under start_from
  start_under-Touches p =
      after-lem Moves
        (require (child_template (template_step env s.process_template_step_id))
          child_template_missing)
        (start_from env s opts p) w
        (require-world (child_template (template_step env s.process_template_step_id))
          child_template_missing w)
        (Touches-refl s.step_instance_id w g)
        (λ c.
          after-lem Moves (resolve_child_subject env p c.0.child_subject_policy)
            (λ subject. launch s (start_params env p s c.0 c.1 opts subject) env) w
            (resolve_child_subject-world env p c.0.child_subject_policy w)
            (Touches-refl s.step_instance_id w g)
            (λ subject. launch-Touches (start_params env p s c.0 c.1 opts subject)))

  start_child-Touches : Moves (start_child env s opts w).1
  unfolding start_child
  start_child-Touches =
      after-lem Moves (require (load_process s.process_instance_id w) parent_not_found)
        (start_under env s opts) w
        (require-world (load_process s.process_instance_id w) parent_not_found w)
        (Touches-refl s.step_instance_id w g) start_under-Touches

  spawn-Touches : (found : Option Instance) → Moves (spawn env s opts found w).1
  unfolding spawn
  spawn-Touches none = start_child-Touches
  spawn-Touches (some i) = rw e (block_parent_step-Touches s w g h e)

  pub spawn_child-Touches : Moves (spawn_child_and_block_parent env s opts w).1
  unfolding spawn_child_and_block_parent
  spawn_child-Touches =
      elim (Bool-cases (env.call_process_enabled && is_call_process s.task_type)) [
        | inl c ↦ rw c (spawn-Touches (find_child s.step_instance_id w))
        | inr c ↦ rw c (Touches-refl s.step_instance_id w g)
      ]
