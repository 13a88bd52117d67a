-- ===== src/Engine/Tables.antt =====
-- Tables of steps with rising ids: updates, lookups and rows that are added.
use mathlib.Core.Path.{subst}
use mathlib.Core.List.{Memᴰ}
use six_1_core_api.Prelude.{
  ℕ, suc, ◌≤◌, ◌<◌, ◌≡◌, ◌≢◌, refl, sym, ◌∙◌, ap, inl, inr, Bool, false, some, List, [], ◌∷◌, ◌++◌,
  map, arith,
}
use six_1_core_api.Prelude.Tests.{◌==◌, ==_iff, Bool-cases, some_inj, if◌then◌else◌}
use six_1_core_api.Prelude.Lists.{filter}
use six_1_core_api.Engine.Rows.{Step}
use six_1_core_api.Engine.Moves.{Evolves, Moved, Moved-refl, find_step}

-- The ids of a table rise, from `lo` on, and stay below the next id.
abbrev pub Rising : ℕ → List Step → ℕ → Type 0
Rising lo [] next = lo ≤ next
Rising lo (s ∷ ss) next = (lo ≤ s.step_instance_id) × Rising (suc s.step_instance_id) ss next

abbrev pub update_at : (Step → Step) → ℕ → List Step → List Step
update_at f id = map (λ (s : Step). if s.step_instance_id == id then f s else s)

Rising-le : (lo : ℕ) (xs : List Step) (next : ℕ) → Rising lo xs next → lo ≤ next
Rising-le lo [] next h = h
Rising-le lo (x ∷ xs) next h = omega (arith, Rising-le (suc x.step_instance_id) xs next h.1)

-- Nothing is updated where every id is larger.
update_at-above :
    (f : Step → Step) (id lo : ℕ) (xs : List Step) (next : ℕ)
    → Rising lo xs next
    → id < lo
    → Evolves xs (update_at f id xs)
update_at-above f id lo [] next r h = tt
update_at-above f id lo (x ∷ xs) next r h = elim (Bool-cases (x.step_instance_id == id)) [
  | inl e ↦ absurd (ground arith)
  | inr e ↦
      rw e (Moved-refl x, update_at-above f id (suc x.step_instance_id) xs next r.1 (ground arith))
]

-- The update of a row that has moved.
pub update_at-Evolves :
    (f : Step → Step) (id lo : ℕ) (xs : List Step) (next : ℕ) (s : Step)
    → Rising lo xs next
    → find_step id xs ≡ some s
    → Moved s (f s)
    → Evolves xs (update_at f id xs)
update_at-Evolves f id lo [] next s r e m = tt
update_at-Evolves f id lo (x ∷ xs) next s r e m = elim (Bool-cases (x.step_instance_id == id)) [
  | inl h ↦ rw h (
    subst (λ z. Moved z (f z)) (sym (some_inj (rw h at e))) m,
    update_at-above f id (suc x.step_instance_id) xs next r.1 (ground arith),
  )
  | inr h ↦
      rw h
        (Moved-refl x, update_at-Evolves f id (suc x.step_instance_id) xs next s r.1 (rw h at e) m)
]

pub update_at-Rising :
    (f : Step → Step) (id lo : ℕ) (xs : List Step) (next : ℕ)
    → ((s : Step) → (f s).step_instance_id ≡ s.step_instance_id)
    → Rising lo xs next
    → Rising lo (update_at f id xs) next
update_at-Rising f id lo [] next k r = r
update_at-Rising f id lo (x ∷ xs) next k r = elim (Bool-cases (x.step_instance_id == id)) [
  | inl h ↦ rw h (
      subst (λ n. (lo ≤ n) × Rising (suc n) (update_at f id xs) next) (sym (k x))
        (r.0, update_at-Rising f id (suc x.step_instance_id) xs next k r.1))
  | inr h ↦ rw h (r.0, update_at-Rising f id (suc x.step_instance_id) xs next k r.1)
]

pub find-update_at_self :
    (f : Step → Step) (id : ℕ) (xs : List Step) (s : Step)
    → ((s : Step) → (f s).step_instance_id ≡ s.step_instance_id)
    → find_step id xs ≡ some s
    → find_step id (update_at f id xs) ≡ some (f s)
find-update_at_self f id [] s k e = cc
find-update_at_self f id (x ∷ xs) s k e = elim (Bool-cases (x.step_instance_id == id)) [
  | inl h ↦
      rw (h, (==_iff _ _).1 (k x ∙ (==_iff _ _).0 h))
        (ap (λ (z : Step). some (f z)) (some_inj (rw h at e)))
  | inr h ↦ rw (h, h) (find-update_at_self f id xs s k (rw h at e))
]

missed :
    (x : Step) (j : ℕ) {id : ℕ}
    → x.step_instance_id ≡ id
    → j ≢ id
    → (x.step_instance_id == j) ≡ false
missed x j e n = ground arith

pub find-update_at_ne :
    (f : Step → Step) (id j : ℕ) (xs : List Step)
    → ((s : Step) → (f s).step_instance_id ≡ s.step_instance_id)
    → j ≢ id
    → find_step j (update_at f id xs) ≡ find_step j xs
find-update_at_ne f id j [] k n = refl
find-update_at_ne f id j (x ∷ xs) k n =
    let ih = find-update_at_ne f id j xs k n in
    elim (Bool-cases (x.step_instance_id == id)) [
      | inl h ↦
          rw (h, missed (f x) j (k x ∙ (==_iff _ _).0 h) n, missed x j ((==_iff _ _).0 h) n) ih
      | inr h ↦ rw (h, ih)
    ]

pub find-append :
    (j : ℕ) (xs ys : List Step) (s : Step)
    → find_step j xs ≡ some s
    → find_step j (xs ++ ys) ≡ some s
find-append j [] ys s e = cc
find-append j (x ∷ xs) ys s e = elim (Bool-cases (x.step_instance_id == j)) [
  | inl h ↦ rw h (rw h at e)
  | inr h ↦ rw h (find-append j xs ys s (rw h at e))
]

pub find_step-id :
    (j : ℕ) (xs : List Step) (s : Step) → find_step j xs ≡ some s → s.step_instance_id ≡ j
find_step-id j [] s e = cc
find_step-id j (x ∷ xs) s e = elim (Bool-cases (x.step_instance_id == j)) [
  | inl h ↦ ap (λ (z : Step). z.step_instance_id) (sym (some_inj (rw h at e))) ∙ (==_iff _ _).0 h
  | inr h ↦ find_step-id j xs s (rw h at e)
]

pub Rising-append :
    (lo : ℕ) (xs ys : List Step) (mid next : ℕ)
    → Rising lo xs mid
    → Rising mid ys next
    → Rising lo (xs ++ ys) next
Rising-append lo [] [] mid next r q = omega arith
Rising-append lo [] (y ∷ ys) mid next r q = (omega arith, q.1)
Rising-append lo (x ∷ xs) ys mid next r q =
    (r.0, Rising-append (suc x.step_instance_id) xs ys mid next r.1 q)

Rising-lower :
    (lo lo' : ℕ) (xs : List Step) (next : ℕ) → lo' ≤ lo → Rising lo xs next → Rising lo' xs next
Rising-lower lo lo' [] next h r = omega arith
Rising-lower lo lo' (x ∷ xs) next h r = (omega arith, r.1)

pub Rising-filter :
    (p : Step → Bool) (lo : ℕ) (xs : List Step) (next : ℕ)
    → Rising lo xs next
    → Rising lo (filter p xs) next
Rising-filter p lo [] next r = r
Rising-filter p lo (x ∷ xs) next r = elim (Bool-cases (p x)) [
  | inl h ↦ rw h (r.0, Rising-filter p (suc x.step_instance_id) xs next r.1)
  | inr h ↦ rw h (
      Rising-lower (suc x.step_instance_id) lo (filter p xs) next (omega arith)
        (Rising-filter p (suc x.step_instance_id) xs next r.1))
]

Rising-Memᴰ :
    (lo : ℕ) (xs : List Step) (next : ℕ) {x : Step}
    → Rising lo xs next
    → Memᴰ x xs
    → lo ≤ x.step_instance_id
Rising-Memᴰ lo [] next r m = elim m [ ]
Rising-Memᴰ lo (y ∷ xs) next r (Memᴰ.head e) = rw e r.0
Rising-Memᴰ lo (y ∷ xs) next r (Memᴰ.tail m) =
    omega (arith, Rising-Memᴰ (suc y.step_instance_id) xs next r.1 m)

-- A later row has another id.
pub Rising-apart :
    (lo : ℕ) (x : Step) (xs : List Step) (next : ℕ) {y : Step}
    → Rising lo (x ∷ xs) next
    → Memᴰ y xs
    → y.step_instance_id ≢ x.step_instance_id
Rising-apart lo x xs next r m e =
    absurd (omega (arith, Rising-Memᴰ (suc x.step_instance_id) xs next r.1 m))

pub Memᴰ→find_step :
    (lo : ℕ) (xs : List Step) (next : ℕ) {x : Step}
    → Rising lo xs next
    → Memᴰ x xs
    → find_step x.step_instance_id xs ≡ some x
Memᴰ→find_step lo [] next r m = elim m [ ]
Memᴰ→find_step lo (y ∷ xs) next {x} r (Memᴰ.head e) =
    rw
      ((==_iff y.step_instance_id x.step_instance_id).1
        (ap (λ (z : Step). z.step_instance_id) (sym e)))
      (ap some (sym e))
Memᴰ→find_step lo (y ∷ xs) next {x} r (Memᴰ.tail m) =
    rw (missed y x.step_instance_id refl (Rising-apart lo y xs next r m))
      (Memᴰ→find_step (suc y.step_instance_id) xs next r.1 m)
