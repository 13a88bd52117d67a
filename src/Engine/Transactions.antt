-- ===== src/Engine/Transactions.antt =====
-- The three transactions of the orchestrator, whole: `attemptAdvance`, `markCompleted` and
-- `resumeParentAfterChildCallProcess` up to their commit or rollback.
use six_1_core_api.Prelude.{
  ℕ, suc, ◌≡◌, refl, sym, inl, inr, Bool, true, ◌&&◌, Option, none, some, arith,
}
use mathlib.Core.Path.{subst}
use six_1_core_api.Prelude.Tests.{Bool-cases, Option-cases}
use six_1_core_api.Engine.Rows.{
  EngineState, pending, ready, in_progress, blocked, Step, World, Env, Options,
}
use six_1_core_api.Engine.Exec.{Exec, Result, ok, err, when, gets, ◌>>=◌, rolled_back, transaction}
use six_1_core_api.Engine.Gates.{load_step, check_step_gates, evaluate_triggers}
use six_1_core_api.Engine.Hosts.{state_eq}
use six_1_core_api.Engine.Stepping.{make_ready}
use six_1_core_api.Engine.Orchestrator.{
  is_ready, is_pending, is_final, is_open, is_automated, advance_automated, advance_passed,
  advance_gated, advance_step, attempt_locked, attempt_transaction, complete_open_step, mark_gated,
  mark_locked, mark_transaction, resume_locked, resume_transaction,
}
use six_1_core_api.Engine.Frames.{evaluate_triggers-core, provision-core}
use six_1_core_api.Engine.Moves.{◌⟶◌, finish, finish_ready, find_step}
use six_1_core_api.Engine.Tables.{find_step-id}
use six_1_core_api.Engine.Touch.{Sound, HasStep, Touches-Same, core-Same, bind-lem}
use six_1_core_api.Engine.Enabling.{Advances, make_ready-Touches}
use six_1_core_api.Engine.Completing.{
  Advances-refl, Advances-Same, Advances-trans, advances, proceed-Advances,
  complete_and_proceed-Advances, run_automated-Advances,
}

state-ready : (s : EngineState) → is_ready s ≡ true → s ≡ ready
state-ready s h = ground arith

state-pending : (s : EngineState) → is_pending s ≡ true → s ≡ pending
state-pending s h = ground arith

pub found :
    (id : ℕ) (s : Step) (w : World) → load_step id w ≡ some s → HasStep w s.step_instance_id s
unfolding load_step
found id s w e =
    subst (λ j. find_step j w.core.steps ≡ some s) (sym (find_step-id id w.core.steps s e)) e

advance_automated-Advances :
    (env : Env) (opts : Options) (passed : Bool) (id : ℕ) (w : World)
    → Sound w
    → Advances w (advance_automated env opts passed (load_step id w) w).1
unfolding advance_automated load_step
advance_automated-Advances env opts passed id w g = elim (Option-cases (load_step id w)) [
  | inl e ↦ rw e (Advances-refl w g)
  | inr (s, e) ↦ elim (Bool-cases (is_automated s.task_type && (is_ready s.status && passed))) [
    | inr b ↦ rw (e, b) (Advances-refl w g)
    | inl b ↦
        rw (e, b)
          (run_automated-Advances env opts s w g (found id s w e)
            (state-ready s.status (ground arith)))
  ]
]

ready_if_pending-Advances :
    (env : Env) (opts : Options) (s : Step) (passed : Bool) (w : World)
    → Sound w
    → HasStep w s.step_instance_id s
    → Advances w
        (when
          (is_pending s.status && passed)
          (make_ready env opts "six1-event.process_step_ready" s)
          w).1
ready_if_pending-Advances env opts s passed w g h =
    elim (Bool-cases (is_pending s.status && passed)) [
      | inr e ↦ rw e (Advances-refl w g)
      | inl e ↦ rw e (
          advances (
            make_ready-Touches env opts s w g h (state-pending s.status (ground arith))
              "six1-event.process_step_ready"))
    ]

advance_passed-Advances :
    (env : Env) (opts : Options) (s : Step) (passed : Bool) (w : World)
    → Sound w
    → HasStep w s.step_instance_id s
    → Advances w (advance_passed env opts s passed w).1
unfolding advance_passed
advance_passed-Advances env opts s passed w g h =
    let a = ready_if_pending-Advances env opts s passed w g h in
    bind-lem (Advances w)
      (when (is_pending s.status && passed) (make_ready env opts "six1-event.process_step_ready" s))
      (λ u.
        gets (load_step s.step_instance_id) >>= λ fresh. advance_automated env opts passed fresh)
      w a
      (λ u q.
        Advances-trans a (advance_automated-Advances env opts passed s.step_instance_id _ a.sound))

advance_gated-Advances :
    (env : Env) (opts : Options) (s : Step) (w : World)
    → Sound w
    → HasStep w s.step_instance_id s
    → Advances w (advance_gated env opts s w).1
unfolding advance_gated
advance_gated-Advances env opts s w g h =
    let c = evaluate_triggers-core env s.process_instance_id s.step_instance_id w in
    let t =
      Touches-Same (suc s.step_instance_id) w
        (evaluate_triggers env s.process_instance_id s.step_instance_id w).1 g (core-Same c) in
    Advances-trans (advances t) (
      advance_passed-Advances env opts s _ _ t.sound
        (t.others s.step_instance_id s (ground arith) h))

advance_step-Advances :
    (env : Env) (opts : Options) (s : Step) (w : World)
    → Sound w
    → HasStep w s.step_instance_id s
    → Advances w (advance_step env opts s w).1
unfolding advance_step
advance_step-Advances env opts s w g h = elim (Bool-cases (is_ready s.status)) [
  | inr e ↦ rw e (advance_gated-Advances env opts s w g h)
  | inl e ↦
      let t =
        Touches-Same (suc s.step_instance_id) w _ g
          (core-Same (provision-core env s.step_instance_id w)) in
      rw e (
        Advances-trans (advances t) (
          advance_gated-Advances env opts s _ t.sound
            (t.others s.step_instance_id s (ground arith) h)))
]

-- A transaction keeps what its body's commit or its rollback has.
transaction-Advances :
    {A : Type 0} (m : Exec A) (w : World)
    → Sound w
    → Advances w (m w).1
    → Advances w (transaction m w).1
unfolding transaction
transaction-Advances m w g a = by_result (m w).0 (m w).1 a
  where
    by_result :
        {A : Type 0} (r : Result A) (w' : World)
        → Advances w w'
        → Advances w (rolled_back w (r, w')).1
    by_result (ok x) w' a = a
    by_result (err e) w' a =
        Advances-Same (Advances-refl w g) (record { same_steps = refl; same_next = refl })

attempt_locked-Advances :
    (env : Env) (opts : Options) (id : ℕ) (w : World)
    → Sound w
    → Advances w (attempt_locked env opts (load_step id w) w).1
unfolding attempt_locked load_step
attempt_locked-Advances env opts id w g = elim (Option-cases (load_step id w)) [
  | inl e ↦ rw e (Advances-refl w g)
  | inr (s, e) ↦ elim (Bool-cases (is_final s.status)) [
    | inl b ↦ rw (e, b) (Advances-refl w g)
    | inr b ↦ rw (e, b) (advance_step-Advances env opts s w g (found id s w e))
  ]
]

-- `attemptAdvance`, until it commits or rolls back, moves every step along the moves of a
-- step's life (pending to ready or blocked, ready to running or completed, running to
-- completed), removes none, and leaves the step ids rising below the next one; it is so from
-- every world whose step ids rise.
pub attempt_transaction-Advances :
    (env : Env) (opts : Options) (id : ℕ) (w : World)
    → Sound w
    → Advances w (attempt_transaction env id opts w).1
unfolding attempt_transaction
attempt_transaction-Advances env opts id w g =
    transaction-Advances (gets (load_step id) >>= attempt_locked env opts) w g
      (attempt_locked-Advances env opts id w g)

pub open_moves : (s : EngineState) → is_open s ≡ true → s ⟶ EngineState.completed
open_moves ready h = finish_ready
open_moves in_progress h = finish
open_moves pending h = cc
open_moves EngineState.completed h = cc
open_moves blocked h = cc
open_moves EngineState.canceled h = cc

mark_locked-Advances :
    (env : Env) (opts : Options) (id : ℕ) (w : World)
    → Sound w
    → Advances w (mark_locked env opts (load_step id w) w).1
unfolding mark_locked mark_gated complete_open_step load_step
mark_locked-Advances env opts id w g = elim (Option-cases (load_step id w)) [
  | inl e ↦ rw e (Advances-refl w g)
  | inr (s, e) ↦ elim (Bool-cases (is_open s.status)) [
    | inr b ↦ rw (e, b) (Advances-refl w g)
    | inl b ↦ elim (Bool-cases (check_step_gates env s.step_instance_id w)) [
      | inr c ↦ rw (e, b, c) (Advances-refl w g)
      | inl c ↦
          rw (e, b, c)
            (complete_and_proceed-Advances env opts "six1-event.notification.process_step_completed"
              s s w g (found id s w e) (open_moves s.status b))
    ]
  ]
]

-- `markCompleted`, until it commits or rolls back, moves every step along the moves of a
-- step's life, removes none, and leaves the step ids rising; it is so from every world whose
-- step ids rise.
pub mark_transaction-Advances :
    (env : Env) (opts : Options) (id : ℕ) (w : World)
    → Sound w
    → Advances w (mark_transaction env id opts w).1
unfolding mark_transaction
mark_transaction-Advances env opts id w g =
    transaction-Advances (gets (load_step id) >>= mark_locked env opts) w g
      (mark_locked-Advances env opts id w g)

resume_locked-Advances :
    (env : Env) (opts : Options) (s : Option Step) (w : World)
    → Sound w
    → Advances w (resume_locked env opts s w).1
unfolding resume_locked
resume_locked-Advances env opts none w g = Advances-refl w g
resume_locked-Advances env opts (some s) w g =
    elim (Bool-cases (state_eq s.status EngineState.completed)) [
      | inr b ↦ rw b (Advances-refl w g)
      | inl b ↦ rw b (proceed-Advances env opts s w g)
    ]

-- `resumeParentAfterChildCallProcess`, until it commits or rolls back, moves every step along
-- the moves of a step's life, removes none, and leaves the step ids rising; it is so from
-- every world whose step ids rise.
pub resume_transaction-Advances :
    (env : Env) (opts : Options) (id : ℕ) (w : World)
    → Sound w
    → Advances w (resume_transaction env id opts w).1
unfolding resume_transaction
resume_transaction-Advances env opts id w g =
    transaction-Advances (gets (load_step id) >>= resume_locked env opts) w g
      (resume_locked-Advances env opts (load_step id w) w g)
