-- ===== src/Engine/Instantiated.antt =====
-- The rows of a new process against its template.
use mathlib.Core.List.Permᴰ
use mathlib.Core.List.{Permᴰ}
use six_1_core_api.Prelude.{
  ℕ, suc, ◌≤◌, ◌<◌, ◌≡◌, ◌≢◌, refl, ap, inl, inr, List, [], ◌∷◌, ◌++◌, map, arith,
}
use six_1_core_api.Prelude.Tests.{◌==◌, leb, leb→le, ==_iff, Bool-cases}
use six_1_core_api.Prelude.Lists.{All, filter}
use six_1_core_api.Engine.Rows.{
  pending, ready, InstanceStatus, Instance, Step, World, TemplateStep, Env,
}
use six_1_core_api.Engine.Instantiate.{
  StartParams, new_instance, insert_step, sort_steps, template_steps_of, new_step, new_steps, after,
  instantiate_process_in,
}

abbrev pub steps_of_template : Env → ℕ → List TemplateStep
steps_of_template env template =
    filter (λ (s : TemplateStep). s.process_template_id == template) env.template_steps

-- The orders do not fall, from `lo` on.
abbrev pub Ordered : ℕ → List TemplateStep → Type 0
Ordered lo [] = Unit
Ordered lo (s ∷ ss) = (lo ≤ s.step_order) × Ordered s.step_order ss

-- The template step that a row is for, and its order.
abbrev pub row_key : Step → ℕ × ℕ
row_key s = (s.process_template_step_id, s.step_order)

abbrev pub template_key : TemplateStep → ℕ × ℕ
template_key t = (t.process_template_step_id, t.step_order)

-- A row of a process, with an id that is new, ready if it is the first and pending if not.
pub record Opened (process lo next : ℕ) (s : Step) : Type 0 where
  pub of_process : s.process_instance_id ≡ process
  pub is_new : (lo ≤ s.step_instance_id) × (s.step_instance_id < next)
  pub first : s.step_order ≡ 1 → s.status ≡ ready
  pub others : s.step_order ≢ 1 → s.status ≡ pending

-- What a new process has: one more instance, active, and a row for each step of its template, in
-- the steps' order.
pub record Instantiated (env : Env) (p : StartParams) (w : World) (id : ℕ) (w' : World)
    : Type 0 where
  pub instance : Instance
  pub templates : List TemplateStep
  pub rows : List Step
  pub one_more : w'.core.instances ≡ w.core.instances ++ instance ∷ []
  pub is_active : (instance.process_instance_id ≡ id) × (instance.status ≡ InstanceStatus.active)
  pub added : w'.core.steps ≡ w.core.steps ++ rows
  pub of_template : Permᴰ templates (steps_of_template env p.template_id)
  pub in_order : Ordered 0 templates
  pub copies : map row_key rows ≡ map template_key templates
  pub opened : All (Opened id w.core.next_step_id w'.core.next_step_id) rows

insert_step-Perm : (s : TemplateStep) (ts : List TemplateStep) → Permᴰ (insert_step s ts) (s ∷ ts)
unfolding insert_step
insert_step-Perm s [] = Permᴰ.refl (s ∷ [])
insert_step-Perm s (t ∷ ts) = elim (Bool-cases (leb s.step_order t.step_order)) [
  | inl e ↦ rw e (Permᴰ.refl (s ∷ t ∷ ts))
  | inr e ↦ rw e (Permᴰ.trans (Permᴰ.cons refl (insert_step-Perm s ts)) (Permᴰ.swap refl refl))
]

sort_steps-Perm : (ts : List TemplateStep) → Permᴰ (sort_steps ts) ts
unfolding sort_steps
sort_steps-Perm [] = Permᴰ.nil
sort_steps-Perm (t ∷ ts) =
    Permᴰ.trans (insert_step-Perm t (sort_steps ts)) (Permᴰ.cons refl (sort_steps-Perm ts))

insert_step-Ordered :
    (lo : ℕ) (s : TemplateStep) (ts : List TemplateStep)
    → lo ≤ s.step_order
    → Ordered lo ts
    → Ordered lo (insert_step s ts)
unfolding insert_step
insert_step-Ordered lo s [] l h = (l, tt)
insert_step-Ordered lo s (t ∷ ts) l h = elim (Bool-cases (leb s.step_order t.step_order)) [
  | inl e ↦ rw e (l, (leb→le _ _ e, h.1))
  | inr e ↦ rw e (h.0, insert_step-Ordered t.step_order s ts (ground arith) h.1)
]

sort_steps-Ordered : (ts : List TemplateStep) → Ordered 0 (sort_steps ts)
unfolding sort_steps
sort_steps-Ordered [] = tt
sort_steps-Ordered (t ∷ ts) =
    insert_step-Ordered 0 t (sort_steps ts) (omega arith) (sort_steps-Ordered ts)

new_steps-copies :
    (now process id : ℕ) (ts : List TemplateStep)
    → map row_key (new_steps now process id ts) ≡ map template_key ts
unfolding new_steps new_step
new_steps-copies now process id [] = refl
new_steps-copies now process id (t ∷ ts) =
    ap (λ xs. template_key t ∷ xs) (new_steps-copies now process (suc id) ts)

after-le : {A : Type 0} (id : ℕ) (xs : List A) → id ≤ after id xs
after-le id [] = omega arith
after-le id (x ∷ xs) = omega (arith, after-le (suc id) xs)

new_step-Opened :
    (now process lo next id : ℕ) (t : TemplateStep)
    → lo ≤ id
    → id < next
    → Opened process lo next (new_step now process id t)
unfolding new_step
new_step-Opened now process lo next id t l h = record {
  of_process = refl;
  is_new = (l, h);
  first = λ e. rw ((==_iff _ _).1 e) refl;
  others = λ n. elim (Bool-cases (t.step_order == 1)) [
    | inl e ↦ absurd (n ((==_iff _ _).0 e))
    | inr e ↦ rw e refl
  ];
}

new_steps-Opened :
    (now process lo next id : ℕ) (ts : List TemplateStep)
    → lo ≤ id
    → after id (new_steps now process id ts) ≤ next
    → All (Opened process lo next) (new_steps now process id ts)
unfolding new_steps
new_steps-Opened now process lo next id [] l h = tt
new_steps-Opened now process lo next id (t ∷ ts) l h = (
  new_step-Opened now process lo next id t l
      (omega (arith, h, after-le (suc id) (new_steps now process (suc id) ts))),
  new_steps-Opened now process lo next (suc id) ts (omega arith) h,
)

-- A new process has one instance, active, and a row for each step of its template and no
-- other: the rows stand in the order of the steps, have ids from the next step id on, and are
-- ready where the order is 1 and pending elsewhere; the instances and steps of other processes
-- stay as they are.
pub instantiate_process_in-Instantiated :
    (env : Env) (p : StartParams) (w : World)
    → Instantiated env p w (instantiate_process_in env p w).0 (instantiate_process_in env p w).1
unfolding instantiate_process_in new_instance template_steps_of
instantiate_process_in-Instantiated env p w = record {
  instance = new_instance p w.core.next_instance_id;
  templates = template_steps_of env p.template_id;
  rows = new_rows;
  one_more = refl;
  is_active = (refl, refl);
  added = refl;
  of_template = sort_steps-Perm (steps_of_template env p.template_id);
  in_order = sort_steps-Ordered (steps_of_template env p.template_id);
  copies =
      new_steps-copies w.clock w.core.next_instance_id w.core.next_step_id
        (template_steps_of env p.template_id);
  opened =
      new_steps-Opened w.clock w.core.next_instance_id w.core.next_step_id
        (after w.core.next_step_id new_rows) w.core.next_step_id
        (template_steps_of env p.template_id) (omega arith) (omega arith);
}
  where
    new_rows : List Step
    new_rows =
        new_steps w.clock w.core.next_instance_id w.core.next_step_id
          (template_steps_of env p.template_id)
