-- ===== src/Engine/Ending.antt =====
-- What the end of a child does to the step that waits for it.
use six_1_core_api.Prelude.{ℕ, ◌≡◌, ◌≢◌, refl, ◌∙◌, ap, Bool, true, some}
use six_1_core_api.Engine.Rows.{
  EngineState, Message, OnChildFailure, ignore, pause_parent, fail_parent, Instance, Step, World,
  Env,
}
use six_1_core_api.Engine.Gates.{load_process, load_step}
use six_1_core_api.Engine.Child.{update_step, update_instance, say}
use six_1_core_api.Engine.ChildEnd.{
  failed, finish_canceled, finish_outcome, merge_child_context_into_parent, closed, complete_step,
  complete_parent_call_process_step, cancel_parent, Terminal, finish_child, parent_link,
  handle_child_terminal,
}
use six_1_core_api.Engine.Moves.{find_step}
use six_1_core_api.Engine.Tables.{find-update_at_self, find-update_at_ne}

-- The state that the end of a child leaves the waiting step in.
abbrev pub after_child : Terminal → OnChildFailure → EngineState → EngineState
after_child Terminal.completed policy s = EngineState.completed
after_child Terminal.canceled ignore s = EngineState.completed
after_child Terminal.canceled pause_parent s = s
after_child Terminal.canceled fail_parent s = EngineState.canceled

-- The step of this id is there in this state, and every other step is as it was in the other world.
pub record Ended (id : ℕ) (state : EngineState) (w w' : World) : Type 0 where
  pub row : Step
  pub is_there : load_step id w' ≡ some row
  pub in_state : row.status ≡ state
  pub others : (j : ℕ) → j ≢ id → load_step j w' ≡ load_step j w

Ended-same :
    {id : ℕ} {state : EngineState} {w w' w'' : World}
    → Ended id state w w'
    → w''.core.steps ≡ w'.core.steps
    → Ended id state w w''
unfolding load_step
Ended-same p e = record {
  row = p.row;
  is_there = rw e p.is_there;
  in_state = p.in_state;
  others = λ j n. rw e (p.others j n);
}

Ended-update :
    (f : Step → Step) (id : ℕ) (s : Step) (w : World)
    → ((s : Step) → (f s).step_instance_id ≡ s.step_instance_id)
    → load_step id w ≡ some s
    → Ended id (f s).status w (update_step f id w)
unfolding load_step update_step
Ended-update f id s w k e = record {
  row = f s;
  is_there = find-update_at_self f id w.core.steps s k e;
  in_state = refl;
  others = λ j n. find-update_at_ne f id j w.core.steps k n;
}

complete_parent-Ended :
    (id : ℕ) (s : Step) (w : World)
    → load_step id w ≡ some s
    → Ended id EngineState.completed w (complete_parent_call_process_step id w)
unfolding complete_parent_call_process_step complete_step say
complete_parent-Ended id s w e =
    let u = Ended-update (closed w.clock) id s w (λ t. refl) e in rw u.is_there (Ended-same u refl)

-- Nothing happens to the step.
Ended-refl : (id : ℕ) (s : Step) (w : World) → load_step id w ≡ some s → Ended id s.status w w
Ended-refl id s w e = record { row = s; is_there = e; in_state = refl; others = λ j n. refl }

Ended-from :
    {id : ℕ} {state : EngineState} {w v w' : World}
    → v.core.steps ≡ w.core.steps
    → Ended id state v w'
    → Ended id state w w'
unfolding load_step
Ended-from e p = record {
  row = p.row;
  is_there = p.is_there;
  in_state = p.in_state;
  others = λ j n. p.others j n ∙ ap (find_step j) e;
}

finish_canceled-Ended :
    (parent step : ℕ) (event : Bool → Message) (policy : OnChildFailure) (s : Step) (w : World)
    → load_step step w ≡ some s
    → Ended step
        (after_child Terminal.canceled policy s.status)
        w
        (finish_canceled parent step event policy w)
unfolding finish_canceled cancel_parent update_instance say load_step
finish_canceled-Ended parent step event pause_parent s w e = Ended-same (Ended-refl step s w e) refl
finish_canceled-Ended parent step event fail_parent s w e =
    Ended-same
      (Ended-from refl
        (Ended-update (failed w.clock) step s (update_instance _ parent w) (λ t. refl) e))
      refl
finish_canceled-Ended parent step event ignore s w e =
    Ended-same (complete_parent-Ended step s w e) refl

finish_outcome-Ended :
    (p : Instance) (step : ℕ) (event : Bool → Message) (outcome : Terminal) (s : Step) (w : World)
    → load_step step w ≡ some s
    → Ended step
        (after_child outcome p.on_child_failure s.status)
        w
        (finish_outcome p step event outcome w)
unfolding finish_outcome say
finish_outcome-Ended p step event Terminal.completed s w e =
    Ended-same (complete_parent-Ended step s w e) refl
finish_outcome-Ended p step event Terminal.canceled s w e =
    finish_canceled-Ended p.process_instance_id step event p.on_child_failure s w e

finish_child-Ended :
    (env : Env) (child : Instance) (step : ℕ) (p : Instance) (outcome : Terminal) (s : Step)
    (w : World)
    → load_step step w ≡ some s
    → Ended step
        (after_child outcome p.on_child_failure s.status)
        w
        (finish_child env child step p outcome w)
unfolding finish_child load_step merge_child_context_into_parent update_instance
finish_child-Ended env child step p outcome s w e = Ended-from refl (
    finish_outcome-Ended p step _ outcome s
      (merge_child_context_into_parent env p.process_instance_id child.context w) e)

-- When a child process ends, with call_process steps enabled, the step that waits for it is
-- completed where the child was completed; where it was canceled, the parent's policy decides:
-- `ignore` completes the step, `pause_parent` leaves its state, `fail_parent` cancels it. This
-- is so in whatever state the step is, and no other step changes.
pub handle_child_terminal-Ended :
    (env : Env) (id : ℕ) (outcome : Terminal) (child p : Instance) (step parent : ℕ) (s : Step)
    (w : World)
    → env.call_process_enabled ≡ true
    → parent_link (load_process id w) ≡ some (child, step, parent)
    → load_process parent w ≡ some p
    → load_step step w ≡ some s
    → Ended step
        (after_child outcome p.on_child_failure s.status)
        w
        (handle_child_terminal env id outcome w)
unfolding handle_child_terminal
handle_child_terminal-Ended env id outcome child p step parent s w c l f e =
    simp (c, l, f) (finish_child-Ended env child step p outcome s w e)
