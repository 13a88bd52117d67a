-- ===== src/Engine/Closed.antt =====
-- The operations on steps whose guards fail.
use six_1_core_api.Prelude.{
  ℕ, ◌≡◌, refl, ◌∙◌, inl, inr, Bool, true, false, ◌&&◌, Option, none, some, List, [], ◌∷◌, arith,
}
use mathlib.Core.List.{Memᴰ}
use six_1_core_api.Prelude.Tests.{Bool-cases, ==_iff, and_false, if◌then◌else◌}
use six_1_core_api.Prelude.Lists.{Memᴰ→filter}
use six_1_core_api.Engine.Rows.{Step, Trigger, TriggerEnvelope, TriggerContext, World, Env, Options}
use six_1_core_api.Engine.Exec.{ok, transaction}
use six_1_core_api.Engine.Gates.{
  load_step, check_step_gates, evaluate, evaluate_one, evaluate_all, evaluate_triggers,
  build_context, triggers_of,
}
use six_1_core_api.Engine.Provision.{provision_bindings_on_step_ready}
use six_1_core_api.Engine.Orchestrator.{
  is_ready, is_pending, is_final, is_open, is_automated, advance_automated, advance_passed,
  advance_gated, advance_step, finalize, attempt_locked, attempt_transaction, attempt_advance,
}
use six_1_core_api.Engine.Frames.{evaluate_triggers-core, provision-core, provision-triggers}

-- The world in which `attemptAdvance` tests the gates: a ready step's bindings are there.
abbrev pub prepared : Env → Step → World → World
prepared env s w =
    if is_ready s.status then provision_bindings_on_step_ready env s.step_instance_id w else w

abbrev pub passes : Env → Step → World → Bool
passes env s w =
    check_step_gates env s.step_instance_id (prepared env s w)
    && (evaluate_triggers env s.process_instance_id s.step_instance_id (prepared env s w)).0

prepared-core : (env : Env) (s : Step) (w : World) → (prepared env s w).core ≡ w.core
prepared-core env s w = elim (Bool-cases (is_ready s.status)) [
  | inl e ↦ rw e (provision-core env s.step_instance_id w)
  | inr e ↦ rw e
]

advance_automated-closed :
    (env : Env) (opts : Options) (s : Option Step) (w : World)
    → advance_automated env opts false s w ≡ (ok none, w)
unfolding advance_automated
advance_automated-closed env opts none w = refl
advance_automated-closed env opts (some s) w = elim (Bool-cases (is_automated s.task_type)) [
  | inl e ↦ elim (Bool-cases (is_ready s.status)) [ inl r ↦ rw (e, r) | inr r ↦ rw (e, r) ]
  | inr e ↦ rw e
]

advance_passed-closed :
    (env : Env) (opts : Options) (s : Step) (w : World)
    → advance_passed env opts s false w ≡ (ok none, w)
unfolding advance_passed
advance_passed-closed env opts s w = elim (Bool-cases (is_pending s.status)) [
  | inl e ↦ rw e (advance_automated-closed env opts (load_step s.step_instance_id w) w)
  | inr e ↦ rw e (advance_automated-closed env opts (load_step s.step_instance_id w) w)
]

advance_gated-closed :
    (env : Env) (opts : Options) (s : Step) (w : World)
    → (check_step_gates env s.step_instance_id w
        && (evaluate_triggers env s.process_instance_id s.step_instance_id w).0)
      ≡ false
    → advance_gated env opts s w
      ≡ (ok none, (evaluate_triggers env s.process_instance_id s.step_instance_id w).1)
unfolding advance_gated
advance_gated-closed env opts s w h = rw h (advance_passed-closed env opts s _)

advance_step-closed :
    (env : Env) (opts : Options) (s : Step) (w : World)
    → passes env s w ≡ false
    → advance_step env opts s w ≡ (
      ok none,
      (evaluate_triggers env s.process_instance_id s.step_instance_id (prepared env s w)).1,
    )
unfolding advance_step
advance_step-closed env opts s w h = elim (Bool-cases (is_ready s.status)) [
  | inl e ↦ rw e (advance_gated-closed env opts s _ (rw e at h))
  | inr e ↦ rw e (advance_gated-closed env opts s _ (rw e at h))
]

-- An attempt to advance a step whose gates or triggers do not pass changes no process and no
-- step, whatever state the step is in.
pub attempt_advance-closed :
    (env : Env) (opts : Options) (id : ℕ) (s : Step) (w : World)
    → load_step id w ≡ some s
    → passes env s w ≡ false
    → ((attempt_advance env id opts w).0 ≡ ok tt)
      × ((attempt_advance env id opts w).1.core ≡ w.core)
unfolding attempt_advance attempt_transaction attempt_locked transaction finalize
attempt_advance-closed env opts id s w e h = elim (Bool-cases (is_final s.status)) [
  | inl f ↦ (rw (e, f), rw (e, f))
  | inr f ↦ (
    rw (e, f, advance_step-closed env opts s w h),
    rw (e, f, advance_step-closed env opts s w h)
        (evaluate_triggers-core env _ _ (prepared env s w) ∙ prepared-core env s w),
  )
]

-- A trigger that the engine's own evaluation can meet: a json-logic condition.
abbrev pub is_logic : TriggerEnvelope → Bool
is_logic (TriggerEnvelope.jsonlogic _ _) = true
is_logic _ = false

evaluate-not_logic :
    (env : Env) (t : TriggerEnvelope) (ctx : TriggerContext) (w : World)
    → is_logic t ≡ false
    → (evaluate env t ctx w).0 ≡ false
unfolding evaluate
evaluate-not_logic env t ctx w h = ground arith

evaluate_all-not_logic :
    (env : Env) (ctx : TriggerContext) {t : Trigger} (ts : List Trigger) (w : World)
    → Memᴰ t ts
    → is_logic t.json_schema ≡ false
    → (evaluate_all env ctx ts w).0 ≡ false
unfolding evaluate_all evaluate_one
evaluate_all-not_logic env ctx [] w m h = elim m [ ]
evaluate_all-not_logic env ctx {t} (u ∷ ts) w (Memᴰ.head e) h =
    rw (evaluate-not_logic env u.json_schema ctx w (rw e at h))
evaluate_all-not_logic env ctx (u ∷ ts) w (Memᴰ.tail m) h =
    rw (evaluate_all-not_logic env ctx ts (evaluate_one env ctx u w).1 m h)
      (and_false (evaluate env u.json_schema ctx w).0)

evaluate_triggers-not_logic :
    (env : Env) (process : ℕ) {t : Trigger} (step : ℕ) (w : World)
    → Memᴰ t w.triggers
    → t.step_instance_id ≡ step
    → is_logic t.json_schema ≡ false
    → (evaluate_triggers env process step w).0 ≡ false
unfolding evaluate_triggers
evaluate_triggers-not_logic env process step w m e h =
    evaluate_all-not_logic env (build_context process step w) (triggers_of step w) w
      (Memᴰ→filter _ m ((==_iff _ _).1 e)) h

prepared-triggers : (env : Env) (s : Step) (w : World) → (prepared env s w).triggers ≡ w.triggers
prepared-triggers env s w = elim (Bool-cases (is_ready s.status)) [
  | inl e ↦ rw e (provision-triggers env s.step_instance_id w)
  | inr e ↦ rw e
]

-- A step that has a trigger of type event or time, or of an unknown type, is never advanced:
-- an attempt changes no process and no step, also where the trigger is already marked as met.
pub event_trigger-never_advances :
    (env : Env) (opts : Options) (id : ℕ) (s : Step) (t : Trigger) (w : World)
    → load_step id w ≡ some s
    → Memᴰ t w.triggers
    → t.step_instance_id ≡ s.step_instance_id
    → is_logic t.json_schema ≡ false
    → (attempt_advance env id opts w).1.core ≡ w.core
event_trigger-never_advances env opts id s t w e m of_step h =
    (attempt_advance-closed env opts id s w e (
      rw
        (evaluate_triggers-not_logic env s.process_instance_id {t = t} s.step_instance_id
          (prepared env s w) (rw (prepared-triggers env s w) m) of_step h)
        (and_false (check_step_gates env s.step_instance_id (prepared env s w))))).1

-- The step is there, is ready or in progress, and passes its requirements and bindings.
abbrev pub completable : Env → Option Step → World → Bool
completable env none w = false
completable env (some s) w = is_open s.status && check_step_gates env s.step_instance_id w
