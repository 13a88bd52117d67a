-- ===== src/Engine/Moves.antt =====
-- The life of a step: the moves that the engine makes, and tables of steps that evolve by them.
use mathlib.Core.Path.{subst}
use six_1_core_api.Prelude.{ℕ, ◌≡◌, refl, ◌∙◌, inl, inr, Option, none, some, List, [], ◌∷◌, ◌++◌}
use six_1_core_api.Prelude.Tests.{◌==◌, Bool-cases, some_inj}
use six_1_core_api.Prelude.Lists.{find}
use six_1_core_api.Engine.Rows.{EngineState, pending, ready, in_progress, blocked, Step}

-- One move of a step.
infix 40 ◌⟶◌ ◌⟶*◌
pub data ◌⟶◌ : EngineState → EngineState → Type 0 where
  unlock : pending ⟶ ready
  call : pending ⟶ blocked
  start : ready ⟶ in_progress
  finish_ready : ready ⟶ EngineState.completed
  finish : in_progress ⟶ EngineState.completed

pub data ◌⟶*◌ : EngineState → EngineState → Type 0 where
  here : {s : EngineState} → s ⟶* s
  more : {s t u : EngineState} → s ⟶ t → t ⟶* u → s ⟶* u

pub ⟶*-trans : {s t u : EngineState} → s ⟶* t → t ⟶* u → s ⟶* u
⟶*-trans here q = q
⟶*-trans (more m p) q = more m (⟶*-trans p q)

-- A state that no move leaves.
pub stuck : {s t : EngineState} → s ⟶* t → s ≡ EngineState.completed → t ≡ EngineState.completed
stuck here e = e
stuck (more unlock p) e = cc
stuck (more call p) e = cc
stuck (more start p) e = cc
stuck (more finish_ready p) e = cc
stuck (more finish p) e = cc

-- A row that has become another: the same step, in a state that moves lead to.
pub record Moved (x y : Step) : Type 0 where
  pub same_id : y.step_instance_id ≡ x.step_instance_id
  pub same_process : y.process_instance_id ≡ x.process_instance_id
  pub same_template_step : y.process_template_step_id ≡ x.process_template_step_id
  pub same_order : y.step_order ≡ x.step_order
  pub same_type : y.task_type ≡ x.task_type
  pub moves : x.status ⟶* y.status

pub Moved-refl : (x : Step) → Moved x x
Moved-refl x = record {
  same_id = refl;
  same_process = refl;
  same_template_step = refl;
  same_order = refl;
  same_type = refl;
  moves = here;
}

Moved-trans : {x y z : Step} → Moved x y → Moved y z → Moved x z
Moved-trans p q = record {
  same_id = q.same_id ∙ p.same_id;
  same_process = q.same_process ∙ p.same_process;
  same_template_step = q.same_template_step ∙ p.same_template_step;
  same_order = q.same_order ∙ p.same_order;
  same_type = q.same_type ∙ p.same_type;
  moves = ⟶*-trans p.moves q.moves;
}

-- Every row has moved, none has gone, and rows may have been added behind them.
abbrev pub Evolves : List Step → List Step → Type 0
Evolves [] ys = Unit
Evolves (x ∷ xs) [] = ⊥
Evolves (x ∷ xs) (y ∷ ys) = Moved x y × Evolves xs ys

pub Evolves-refl : (xs : List Step) → Evolves xs xs
Evolves-refl [] = tt
Evolves-refl (x ∷ xs) = (Moved-refl x, Evolves-refl xs)

pub Evolves-trans : (xs ys zs : List Step) → Evolves xs ys → Evolves ys zs → Evolves xs zs
Evolves-trans [] ys zs p q = tt
Evolves-trans (x ∷ xs) (y ∷ ys) (z ∷ zs) p q = (Moved-trans p.0 q.0, Evolves-trans xs ys zs p.1 q.1)
Evolves-trans (x ∷ xs) [] zs p q = absurd p
Evolves-trans (x ∷ xs) (y ∷ ys) [] p q = absurd q

pub Evolves-append : (xs ys : List Step) → Evolves xs (xs ++ ys)
Evolves-append [] ys = tt
Evolves-append (x ∷ xs) ys = (Moved-refl x, Evolves-append xs ys)

abbrev pub find_step : ℕ → List Step → Option Step
find_step id = find (λ (s : Step). s.step_instance_id == id)

none-some : {s : Step} → none ≡ some s → ⊥
none-some h = cc

-- A row that was found is found again by its id, moved.
pub Evolves-find :
    (j : ℕ) (xs ys : List Step) (s : Step)
    → Evolves xs ys
    → find_step j xs ≡ some s
    → (t : Step) × (find_step j ys ≡ some t) × Moved s t
Evolves-find j [] ys s v e = absurd (none-some e)
Evolves-find j (x ∷ xs) [] s v e = absurd v
Evolves-find j (x ∷ xs) (y ∷ ys) s v e = elim (Bool-cases (x.step_instance_id == j)) [
  | inl h ↦ (y, rw (v.0.same_id, h), subst (λ z. Moved z y) (some_inj (rw h at e)) v.0)
  | inr h ↦ let (t, f, m) = Evolves-find j xs ys s v.1 (rw h at e) in (t, rw (v.0.same_id, h) f, m)
]
