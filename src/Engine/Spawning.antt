-- ===== src/Engine/Spawning.antt =====
-- A call_process step starts one child.
use mathlib.Core.List.{Memᴰ}
use mathlib.Core.Path.{subst}
use six_1_core_api.Prelude.{
  ℕ, ◌≡◌, refl, sym, ◌∙◌, ap, inl, inr, Bool, true, false, ◌&&◌, Option, none, some, List, [], ◌∷◌,
  ◌++◌, map, String, arith,
}
use six_1_core_api.Prelude.Tests.{◌==◌, ==_refl, Bool-cases, if◌then◌else◌}
use six_1_core_api.Prelude.Lists.{any, find, any→Memᴰ, Memᴰ→any}
use six_1_core_api.Engine.Rows.{Instance, Step, TemplateStep, Message, Core, World, Env, Options}
use six_1_core_api.Engine.Exec.{
  Error, Exec, Result, ok, err, continue, require, parent_not_found, child_template_missing, modify,
  pure, ◌>>=◌, ◌>>◌,
}
use six_1_core_api.Engine.Gates.{load_process}
use six_1_core_api.Engine.Hosts.{is_id}
use six_1_core_api.Engine.Instantiate.{
  StartParams, new_instance, instantiate_process_in, set_correlation, announce, is_subject_type,
  has_adapter, tier_enabled, start_in_transaction, start_process,
}
use six_1_core_api.Engine.Child.{
  update_step, say, is_call_process, is_blocked, find_child, block_parent_step, template_step,
  child_template, resolve_child_subject, start_params, launch, start_from, start_under, start_child,
  spawn, spawn_child_and_block_parent,
}
use six_1_core_api.Engine.Touch.{when-core, bind-lem}

abbrev waits_for : ℕ → List Instance → Bool
waits_for step = any (λ (i : Instance). is_id i.parent_step_id step)

-- A process instance is there that was started by this step.
abbrev pub HasChild : ℕ → World → Type 0
HasChild step w = waits_for step w.core.instances ≡ true

waits_for-added :
    (step : ℕ) (xs : List Instance) (i : Instance)
    → is_id i.parent_step_id step ≡ true
    → waits_for step (xs ++ i ∷ []) ≡ true
waits_for-added step [] i h = rw h
waits_for-added step (x ∷ xs) i h = let ih = waits_for-added step xs i h in ground arith

waits_for-map :
    (step : ℕ) (f : Instance → Instance) (xs : List Instance)
    → ((i : Instance) → (f i).parent_step_id ≡ i.parent_step_id)
    → waits_for step (map f xs) ≡ waits_for step xs
waits_for-map step f [] k = refl
waits_for-map step f (x ∷ xs) k = rw (k x, waits_for-map step f xs k)

waits_for-find :
    (step : ℕ) (xs : List Instance)
    → waits_for step xs ≡ true
    → (c : Instance) × (find (λ (i : Instance). is_id i.parent_step_id step) xs ≡ some c)
waits_for-find step [] h = cc
waits_for-find step (x ∷ xs) h = elim (Bool-cases (is_id x.parent_step_id step)) [
  | inl e ↦ (x, rw e)
  | inr e ↦ let (c, f) = waits_for-find step xs (rw e at h) in (c, rw e f)
]

corrected :
    (c : String) (id : ℕ) (i : Instance)
    → (if i.process_instance_id == id
        then record i { correlation_id = some c }
        else i).parent_step_id
      ≡ i.parent_step_id
corrected c id i = elim (Bool-cases (i.process_instance_id == id)) [ inl e ↦ rw e | inr e ↦ rw e ]

correlated-HasChild :
    (step : ℕ) (c : Option String) (id : ℕ) (w : World)
    → HasChild step w
    → HasChild step (set_correlation c id w)
unfolding set_correlation
correlated-HasChild step none id w h = h
correlated-HasChild step (some c) id w h =
    waits_for-map step _ w.core.instances (corrected c id) ∙ h

instantiate-HasChild :
    (step : ℕ) (env : Env) (p : StartParams) (w : World)
    → is_id p.parent_step_id step ≡ true
    → HasChild step (instantiate_process_in env p w).1
unfolding instantiate_process_in new_instance
instantiate-HasChild step env p w h =
    waits_for-added step w.core.instances (new_instance p w.core.next_instance_id) h

announced-HasChild :
    (step : ℕ) (env : Env) (id : ℕ) (w : World)
    → HasChild step w
    → HasChild step (announce env id w).1
announced-HasChild step env id w h =
    ap (λ (k : Core). waits_for step k.instances) (when-core env.subject_model_enabled _ w refl) ∙ h

-- An action that succeeds has succeeded in both its parts.
record Both {A B : Type 0} (m : Exec A) (f : A → Exec B) (w : World) (b : B) : Type 0 where
  mid : A
  first : (m w).0 ≡ ok mid
  second : (f mid (m w).1).0 ≡ ok b
  whole : ((m >>= f) w).1 ≡ (f mid (m w).1).1

both :
    {A B : Type 0} (m : Exec A) (f : A → Exec B) (w : World) (b : B)
    → ((m >>= f) w).0 ≡ ok b
    → Both m f w b
both {A} {B} m f w b e = go (m w).0 refl e
  where
    go : (r : Result A) → (m w).0 ≡ r → (continue r f (m w).1).0 ≡ ok b → Both m f w b
    go (err x) q e = cc
    go (ok a) q e = record { mid = a; first = q; second = e; whole = rw q }

err-ne-ok : {A : Type 0} {a : A} {e : Error} → err e ≡ ok a → ⊥
err-ne-ok h = cc

start_in_transaction-HasChild :
    (step : ℕ) (env : Env) (p : StartParams) (w : World)
    → is_id p.parent_step_id step ≡ true
    → HasChild step (start_in_transaction env p w).1
unfolding start_in_transaction
start_in_transaction-HasChild step env p w h =
    let made = instantiate_process_in env p w in
    let k = announced-HasChild step env made.0 (set_correlation p.correlation_id made.0 made.1) (
      correlated-HasChild step p.correlation_id made.0 made.1
        (instantiate-HasChild step env p w h)) in
    bind-lem (HasChild step) (announce env made.0) (λ u. pure made.0)
      (set_correlation p.correlation_id made.0 made.1) k (λ u q. k)

start_process-HasChild :
    (step : ℕ) (env : Env) (p : StartParams) (w : World) (c : ℕ)
    → is_id p.parent_step_id step ≡ true
    → (start_process env p w).0 ≡ ok c
    → HasChild step (start_process env p w).1
unfolding start_process
start_process-HasChild step env p w c h e =
    elim (Bool-cases (is_subject_type p.subject.subject_type)) [
      | inr a ↦ absurd (err-ne-ok (rw a at e))
      | inl a ↦ elim (Bool-cases (has_adapter p.subject.subject_type)) [
        | inr b ↦ absurd (err-ne-ok (rw (a, b) at e))
        | inl b ↦ elim (Bool-cases (tier_enabled env p.subject.subject_type)) [
          | inr t ↦ absurd (err-ne-ok (rw (a, b, t) at e))
          | inl t ↦ rw (a, b, t) (start_in_transaction-HasChild step env p w h)
        ]
      ]
    ]

false-ne-true : ok false ≡ ok true → ⊥
false-ne-true h = cc

-- Where the step has a child, it is blocked at most.
spawn-found :
    (env : Env) (opts : Options) (s : Step) (i : Instance) (w : World)
    → ((spawn env s opts (some i) w).0 ≡ ok false)
      × ((spawn env s opts (some i) w).1.core.instances ≡ w.core.instances)
unfolding spawn block_parent_step update_step
spawn-found env opts s i w = elim (Bool-cases (is_blocked s.status)) [
  | inl e ↦ (rw e, rw e)
  | inr e ↦ (rw e, rw e)
]

module _ (env : Env) (opts : Options) (s : Step) where
  launch-HasChild :
      (p : StartParams) (w : World)
      → is_id p.parent_step_id s.step_instance_id ≡ true
      → (launch s p env w).0 ≡ ok true
      → HasChild s.step_instance_id (launch s p env w).1
  unfolding launch block_parent_step update_step say
  launch-HasChild p w h e =
      let b =
        both (start_process env p)
          (λ child.
            modify (block_parent_step s.step_instance_id)
            >> (modify (say (Message.emitted "six1-event.process_child_started" child))
                >> pure true))
          w true e in
      subst (λ (v : World). HasChild s.step_instance_id v) (sym b.whole)
        (start_process-HasChild s.step_instance_id env p w b.mid h b.first)

  start_from-HasChild :
      (parent : Instance) (c : TemplateStep × ℕ) (w : World)
      → (start_from env s opts parent c w).0 ≡ ok true
      → HasChild s.step_instance_id (start_from env s opts parent c w).1
  unfolding start_from
  start_from-HasChild parent (t, template) w e =
      let b =
        both (resolve_child_subject env parent t.child_subject_policy)
          (λ subject. launch s (start_params env parent s t template opts subject) env) w true e in
      subst (λ (v : World). HasChild s.step_instance_id v) (sym b.whole)
        (launch-HasChild (start_params env parent s t template opts b.mid) _
          (==_refl s.step_instance_id) b.second)

  start_child-HasChild :
      (w : World)
      → (start_child env s opts w).0 ≡ ok true
      → HasChild s.step_instance_id (start_child env s opts w).1
  unfolding start_child start_under
  start_child-HasChild w e =
      let b =
        both (require (load_process s.process_instance_id w) parent_not_found)
          (start_under env s opts) w true e in
      let d =
        both
          (require (child_template (template_step env s.process_template_step_id))
            child_template_missing)
          (start_from env s opts b.mid) _ true b.second in
      subst (λ (v : World). HasChild s.step_instance_id v) (sym (b.whole ∙ d.whole))
        (start_from-HasChild b.mid d.mid _ d.second)

  spawn-HasChild :
      (found : Option Instance) (w : World)
      → (spawn env s opts found w).0 ≡ ok true
      → HasChild s.step_instance_id (spawn env s opts found w).1
  unfolding spawn
  spawn-HasChild none w e = start_child-HasChild w e
  spawn-HasChild (some i) w e = absurd (false-ne-true (sym (spawn-found env opts s i w).0 ∙ e))

  spawn_child-HasChild :
      (w : World)
      → (spawn_child_and_block_parent env s opts w).0 ≡ ok true
      → HasChild s.step_instance_id (spawn_child_and_block_parent env s opts w).1
  unfolding spawn_child_and_block_parent
  spawn_child-HasChild w e =
      elim (Bool-cases (env.call_process_enabled && is_call_process s.task_type)) [
        | inl c ↦ rw c (spawn-HasChild (find_child s.step_instance_id w) w (rw c at e))
        | inr c ↦ absurd (false-ne-true (rw c at e))
      ]

  -- No second child is started where there is one.
  spawn_child-kept :
      (w : World)
      → HasChild s.step_instance_id w
      → ((spawn_child_and_block_parent env s opts w).0 ≡ ok false)
        × ((spawn_child_and_block_parent env s opts w).1.core.instances ≡ w.core.instances)
  unfolding spawn_child_and_block_parent find_child
  spawn_child-kept w h =
      let (i, f) = waits_for-find s.step_instance_id w.core.instances h in
      elim (Bool-cases (env.call_process_enabled && is_call_process s.task_type)) [
        | inl c ↦
            (rw (c, f) (spawn-found env opts s i w).0, rw (c, f) (spawn-found env opts s i w).1)
        | inr c ↦ (rw c, rw c)
      ]

-- Every instance of a world is still there, with the step that started it, whatever its status.
pub record StillThere (before after : World) : Type 0 where
  pub kept :
      (i : Instance)
      → Memᴰ i before.core.instances
      → (j : Instance) × Memᴰ j after.core.instances × (j.parent_step_id ≡ i.parent_step_id)

HasChild-kept : (step : ℕ) (v w : World) → StillThere v w → HasChild step v → HasChild step w
HasChild-kept step v w k h =
    let (i, m, e) = any→Memᴰ (λ (i : Instance). is_id i.parent_step_id step) v.core.instances h in
    let (j, n, q) = k.kept i m in
    Memᴰ→any (λ (i : Instance). is_id i.parent_step_id step) n (ap (λ o. is_id o step) q ∙ e)

-- A call_process step gets one child: when a visit of the step has started a child, a visit of
-- it in any later world, with whatever row, options and catalogue, starts none and leaves the
-- process instances as they are; a later world is one where each process instance is still
-- there with the step that started it, whatever its status has become.
pub spawn_child-once :
    (env later_env : Env) (opts later : Options) (s t : Step) (w v : World)
    → (spawn_child_and_block_parent env s opts w).0 ≡ ok true
    → StillThere (spawn_child_and_block_parent env s opts w).1 v
    → t.step_instance_id ≡ s.step_instance_id
    → ((spawn_child_and_block_parent later_env t later v).0 ≡ ok false)
      × ((spawn_child_and_block_parent later_env t later v).1.core.instances ≡ v.core.instances)
spawn_child-once env later_env opts later s t w v e k q = spawn_child-kept later_env later t v (
    subst (λ j. HasChild j v) (sym q)
      (HasChild-kept s.step_instance_id _ v k (spawn_child-HasChild env opts s w e)))
