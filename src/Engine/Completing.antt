-- ===== src/Engine/Completing.antt =====
-- Completing a step and its process, `maybeCompleteJob` included, as they change the table of steps.
use six_1_core_api.Prelude.{
  ℕ, ◌≡◌, refl, sym, inl, inr, Bool, true, false, ◌&&◌, Option, none, some, String,
}
use mathlib.Core.Path.{subst}
use six_1_core_api.Prelude.Tests.{Bool-cases}
use six_1_core_api.Engine.Rows.{
  EngineState, ready, in_progress, Instance, Step, Message, World, Env, Options,
}
use six_1_core_api.Engine.Exec.{Exec, when, modify, gets, pure, ◌>>=◌, ◌>>◌}
use six_1_core_api.Engine.Gates.{load_process, are_all_steps_completed}
use six_1_core_api.Engine.Hosts.{Adapter, can_complete_job, on_process_completed}
use six_1_core_api.Engine.Child.{say, update_instance}
use six_1_core_api.Engine.ChildEnd.{complete_instance, mark_process_completed_if_eligible, is_child}
use six_1_core_api.Engine.Stepping.{
  adapter_of, enter, enable_next_steps, close_job, complete_job, complete_found, close_process,
  settle_process, can_complete_process, is_complete_child, maybe_complete_job,
}
use six_1_core_api.Engine.Orchestrator.{proceed, complete_and_proceed, run_automated}
use six_1_core_api.Engine.Frames.{on_process_completed-core}
use six_1_core_api.Engine.Moves.{◌⟶◌, start, finish, Evolves, Evolves-refl, Evolves-trans}
use six_1_core_api.Engine.Touch.{
  Sound, HasStep, Touches, Same, Same-trans, core-Same, bind-lem, after-lem,
}
use six_1_core_api.Engine.Evolution.{adapter_of-world, enter-Touches, enter-HasStep}
use six_1_core_api.Engine.Enabling.{Advances, enable_next_steps-Advances}

mark_process-Same : (id : ℕ) (w : World) → Same w (mark_process_completed_if_eligible id w)
unfolding mark_process_completed_if_eligible complete_instance update_instance
mark_process-Same id w =
    elim (Bool-cases (is_child (load_process id w) && are_all_steps_completed id w)) [
      | inl e ↦ rw e (record { same_steps = refl; same_next = refl })
      | inr e ↦ rw e (record { same_steps = refl; same_next = refl })
    ]

complete_instance-Same : (id : ℕ) (w : World) → Same w (complete_instance id w)
unfolding complete_instance update_instance
complete_instance-Same id w = record { same_steps = refl; same_next = refl }

Same-refl : (w : World) → Same w w
Same-refl w = record { same_steps = refl; same_next = refl }

when-Same :
    (b : Bool) (f : World → World) (w : World) → Same w (f w) → Same w (when b (modify f) w).1
when-Same true f w e = e
when-Same false f w e = Same-refl w

when_exec-Same :
    (b : Bool) (m : Exec (Unit {0})) (w : World) → Same w (m w).1 → Same w (when b m w).1
when_exec-Same true m w e = e
when_exec-Same false m w e = Same-refl w

close_job-Same :
    (all_done : Bool) (a : Adapter) (p : Instance) (w : World) → Same w (close_job all_done a p w).1
unfolding say
close_job-Same all_done a p w =
    let c =
      when-Same all_done (complete_instance p.process_instance_id) w
        (complete_instance-Same p.process_instance_id w) in
    bind-lem (Same w) (when all_done (modify (complete_instance p.process_instance_id)))
      (λ u.
        modify (on_process_completed a p)
        >> modify (say (Message.emitted "six1-event.process_completed" p.process_instance_id)))
      w c (λ u q. Same-trans c (core-Same (on_process_completed-core a p _)))

complete_job-Same :
    (all_done : Bool) (p : Instance) (w : World) → Same w (complete_job all_done p w).1
unfolding complete_job
complete_job-Same all_done p w =
    after-lem (Same w) (adapter_of p.subject_type)
      (λ a. gets (can_complete_job a p) >>= λ able. when able (close_job all_done a p)) w
      (adapter_of-world p.subject_type w) (Same-refl w)
      (λ a.
        when_exec-Same (can_complete_job a p w) (close_job all_done a p) w
          (close_job-Same all_done a p w))

complete_found-Same :
    (all_done : Bool) (p : Option Instance) (w : World) → Same w (complete_found all_done p w).1
complete_found-Same all_done none w = Same-refl w
complete_found-Same all_done (some p) w = complete_job-Same all_done p w

close_process-Same :
    (env : Env) (id : ℕ) (all_done : Bool) (w : World) → Same w (close_process env id all_done w).1
unfolding close_process
close_process-Same env id all_done w =
    let c =
      when_exec-Same (can_complete_process env id w) (complete_found all_done (load_process id w)) w
        (complete_found-Same all_done (load_process id w) w) in
    bind-lem (Same w)
      (when (can_complete_process env id w) (complete_found all_done (load_process id w)))
      (λ u. pure none) w c (λ u q. c)

settle_process-Same :
    (env : Env) (id : ℕ) (all_done : Bool) (w : World) → Same w (settle_process env id all_done w).1
unfolding settle_process
settle_process-Same env id all_done w =
    elim (Bool-cases (all_done && is_complete_child (load_process id w))) [
      | inl e ↦ rw e (Same-refl w)
      | inr e ↦ rw e (close_process-Same env id all_done w)
    ]

-- Completing a process writes no step.
maybe_complete_job-Same : (env : Env) (id : ℕ) (w : World) → Same w (maybe_complete_job env id w).1
unfolding maybe_complete_job
maybe_complete_job-Same env id w =
    let c =
      when-Same (are_all_steps_completed id w) (mark_process_completed_if_eligible id) w
        (mark_process-Same id w) in
    bind-lem (Same w)
      (when (are_all_steps_completed id w) (modify (mark_process_completed_if_eligible id)))
      (λ u. settle_process env id (are_all_steps_completed id w)) w c
      (λ u q. Same-trans c (settle_process-Same env id (are_all_steps_completed id w) _))

pub Advances-Same : {w w' w'' : World} → Advances w w' → Same w' w'' → Advances w w''
Advances-Same {w} a e = record {
  evolves = subst (Evolves w.core.steps) (sym e.same_steps) a.evolves;
  sound = rw (e.same_steps, e.same_next) a.sound;
}

pub Advances-refl : (w : World) → Sound w → Advances w w
Advances-refl w g = record { evolves = Evolves-refl w.core.steps; sound = g }

pub Advances-trans : {w w' w'' : World} → Advances w w' → Advances w' w'' → Advances w w''
Advances-trans {w} {w'} {w''} p q = record {
  evolves = Evolves-trans w.core.steps w'.core.steps w''.core.steps p.evolves q.evolves;
  sound = q.sound;
}

pub advances : {id : ℕ} {w w' : World} → Touches id w w' → Advances w w'
advances t = record { evolves = t.evolves; sound = t.sound }

pub proceed-Advances :
    (env : Env) (opts : Options) (s : Step) (w : World)
    → Sound w
    → Advances w (proceed env opts s w).1
unfolding proceed
proceed-Advances env opts s w g =
    let a = enable_next_steps-Advances env s.process_instance_id s.step_order opts w g in
    bind-lem (Advances w) (enable_next_steps env s.process_instance_id s.step_order opts)
      (λ u. maybe_complete_job env s.process_instance_id) w a
      (λ u q. Advances-Same a (maybe_complete_job-Same env s.process_instance_id _))

pub complete_and_proceed-Advances :
    (env : Env) (opts : Options) (event : String) (s t : Step) (w : World)
    → Sound w
    → HasStep w s.step_instance_id t
    → t.status ⟶ EngineState.completed
    → Advances w (complete_and_proceed env opts event s w).1
unfolding complete_and_proceed say
complete_and_proceed-Advances env opts event s t w g h m =
    let a =
      enter-Touches s.process_instance_id s.step_instance_id EngineState.completed opts t w g h m in
    bind-lem (Advances w)
      (enter s.process_instance_id s.step_instance_id EngineState.completed opts)
      (λ u. modify (say (Message.emitted event s.step_instance_id)) >> proceed env opts s) w
      (advances a)
      (λ u q.
        Advances-trans (Advances-Same (advances a) (record { same_steps = refl; same_next = refl }))
          (proceed-Advances env opts s _ a.sound))

pub run_automated-Advances :
    (env : Env) (opts : Options) (s : Step) (w : World)
    → Sound w
    → HasStep w s.step_instance_id s
    → s.status ≡ ready
    → Advances w (run_automated env opts s w).1
unfolding run_automated say
run_automated-Advances env opts s w g h e =
    let a =
      enter-Touches s.process_instance_id s.step_instance_id in_progress opts s w g h
        (rw e start) in
    let (t, k, i) = enter-HasStep s.process_instance_id s.step_instance_id in_progress opts s w h in
    bind-lem (Advances w) (enter s.process_instance_id s.step_instance_id in_progress opts)
      (λ u.
        modify (say (Message.emitted "six1-event.process_step_started" s.step_instance_id))
        >> complete_and_proceed env opts "six1-event.process_step_completed" s)
      w (advances a)
      (λ u q.
        Advances-trans (Advances-Same (advances a) (record { same_steps = refl; same_next = refl }))
          (complete_and_proceed-Advances env opts "six1-event.process_step_completed" s t _ a.sound
            k (rw i finish)))
