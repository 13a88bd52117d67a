-- ===== src/Scheduler/Gate.antt =====
-- What the gate of a task's predecessors and the next start of a calendar promise.
use mathlib.Core.List.{Memᴰ}
use mathlib.Core.Path.{subst}
use six_1_core_api.Prelude.{
  ap, ◌⊎◌, ℕ, ◌≡◌, ◌≢◌, sym, ◌∙◌, ◌≤◌, ◌<◌, refl, inl, inr, true, false, Option, none, some, List,
  [], ◌∷◌, max, arith,
}
use six_1_core_api.Prelude.Tests.{◌==◌, ==_iff, ltb, ltb→lt, lt→ltb, Bool-cases, some_inj}
use six_1_core_api.Prelude.Lists.{filter, Memᴰ→filter}
use six_1_core_api.Scheduler.{ScheduledTask, Interval, earlier, next_start_after}
use six_1_core_api.Scheduler.Dependencies.{
  Dependency, DependencyType, fs, ss, ff, sf, end_of, greatest, last_end, active_rows_of, gate_of,
  join_gate, gates, earliest_gate_utc,
}

-- A time is there, and not before t.
abbrev pub NotBefore : ℕ → Option ℕ → Type 0
NotBefore t o = (g : ℕ) × (o ≡ some g) × (t ≤ g)

greatest-left : (t u : ℕ) (o : Option ℕ) → NotBefore t o → NotBefore t (greatest o u)
greatest-left t u none (g, e, l) = cc
greatest-left t u (some g') (g, e, l) = elim (Bool-cases (ltb u g')) [
  | inl h ↦ (g, rw h e, l)
  | inr h ↦ (u, rw h, le_of_not t u g' g l (some_inj e) h)
]
  where
    le_of_not : (t u g' g : ℕ) → t ≤ g → g' ≡ g → ltb u g' ≡ false → t ≤ u
    le_of_not t u g' g l e h = ground arith

greatest-right : (t : ℕ) (o : Option ℕ) → NotBefore t (greatest o t)
greatest-right t none = (t, refl, omega arith)
greatest-right t (some g) = elim (Bool-cases (ltb t g)) [
  | inl h ↦ (g, rw h, omega (arith, ltb→lt t g h))
  | inr h ↦ (t, rw h, omega arith)
]

last_end-keeps :
    (t : ℕ) (o : Option ℕ) (rs : List ScheduledTask) → NotBefore t o → NotBefore t (last_end o rs)
unfolding last_end
last_end-keeps t o [] n = n
last_end-keeps t o (r ∷ rs) n =
    last_end-keeps t (greatest o (end_of r)) rs (greatest-left t (end_of r) o n)

last_end-reaches :
    (o : Option ℕ) {r : ScheduledTask} (rs : List ScheduledTask)
    → Memᴰ r rs
    → NotBefore (end_of r) (last_end o rs)
unfolding last_end
last_end-reaches o [] m = elim m [ ]
last_end-reaches o {r} (x ∷ rs) (Memᴰ.head e) =
    rw e (last_end-keeps (end_of x) (greatest o (end_of x)) rs (greatest-right (end_of x) o))
last_end-reaches o (x ∷ rs) (Memᴰ.tail m) = last_end-reaches (greatest o (end_of x)) rs m

join-left : (t : ℕ) (gate x : Option ℕ) → NotBefore t gate → NotBefore t (join_gate gate x)
join-left t gate none n = n
join-left t none (some u) (g, e, l) = cc
join-left t (some g') (some u) (g, e, l) = (max g' u, refl, ground arith)

join-right : (t : ℕ) (gate x : Option ℕ) → NotBefore t x → NotBefore t (join_gate gate x)
join-right t gate none (g, e, l) = cc
join-right t none (some u) n = n
join-right t (some g') (some u) (g, e, l) = (max g' u, refl, ground arith)

gates-keeps :
    (t : ℕ) (rows : List ScheduledTask) (gate : Option ℕ) (ds : List Dependency)
    → NotBefore t gate
    → NotBefore t (gates rows gate ds)
unfolding gates
gates-keeps t rows gate [] n = n
gates-keeps t rows gate (d ∷ ds) n =
    gates-keeps t rows
      (join_gate gate (gate_of d.dependency_type (active_rows_of d.depends_on_task_id rows))) ds
      (join-left t gate _ n)

gates-reaches :
    (t : ℕ) (rows : List ScheduledTask) (gate : Option ℕ) {d : Dependency} (ds : List Dependency)
    → Memᴰ d ds
    → NotBefore t (gate_of d.dependency_type (active_rows_of d.depends_on_task_id rows))
    → NotBefore t (gates rows gate ds)
unfolding gates
gates-reaches t rows gate [] m n = elim m [ ]
gates-reaches t rows gate {d} (x ∷ ds) (Memᴰ.head e) n =
    gates-keeps t rows _ ds (join-right t gate _ (rw e at n))
gates-reaches t rows gate (x ∷ ds) (Memᴰ.tail m) n =
    gates-reaches t rows
      (join_gate gate (gate_of x.dependency_type (active_rows_of x.depends_on_task_id rows))) ds m n

waits_for_end :
    (k : DependencyType) (rs : List ScheduledTask) → k ≢ ss → gate_of k rs ≡ last_end none rs
unfolding gate_of
waits_for_end fs rs n = refl
waits_for_end ff rs n = refl
waits_for_end sf rs n = refl
waits_for_end ss rs n = absurd (n refl)

-- A successor does not start before its predecessors end: where a task depends on another in
-- any way but start to start, and the other has an active row, there is a gate, and it is not
-- before the end of that row, the actual one if it is known.
pub earliest_gate_utc-after_ends :
    (deps : List Dependency) (rows : List ScheduledTask) (task : ℕ) (d : Dependency)
    (r : ScheduledTask)
    → Memᴰ d deps
    → d.task_id ≡ task
    → d.dependency_type ≢ ss
    → Memᴰ r rows
    → r.is_active ≡ true
    → r.task_id ≡ d.depends_on_task_id
    → NotBefore (end_of r) (earliest_gate_utc deps rows task)
unfolding earliest_gate_utc
earliest_gate_utc-after_ends deps rows task d r m e k mr a et =
    gates-reaches (end_of r) rows none (filter (λ (d : Dependency). d.task_id == task) deps)
      (Memᴰ→filter _ m ((==_iff _ _).1 e))
      (rw (waits_for_end d.dependency_type (active_rows_of d.depends_on_task_id rows) k) (
        last_end-reaches none (active_rows_of d.depends_on_task_id rows)
          (Memᴰ→filter _ mr (rw (a, (==_iff _ _).1 et)))))

-- A time is there, and not after u.
abbrev pub NotAfter : ℕ → Option ℕ → Type 0
NotAfter u o = (g : ℕ) × (o ≡ some g) × (g ≤ u)

earlier-le : (a : ℕ) (o : Option ℕ) → earlier a o ≤ a
earlier-le a none = omega arith
earlier-le a (some b) = ground arith

earlier-NotAfter : (a u : ℕ) (o : Option ℕ) → NotAfter u o → earlier a o ≤ u
earlier-NotAfter a u none (g, e, l) = cc
earlier-NotAfter a u (some b) (g, e, l) = ground arith

earlier-same : (a : ℕ) (o : Option ℕ) → (earlier a o ≡ a) ⊎ (o ≡ some (earlier a o))
earlier-same a none = inl refl
earlier-same a (some b) = elim (Bool-cases (ltb b a)) [
  | inl h ↦ inr (ap some (ground arith))
  | inr h ↦ inl (ground arith)
]

-- The time that is found is a later start.
pub next_start_after-attained :
    (t u : ℕ) (is : List Interval)
    → next_start_after t is ≡ some u
    → (i : Interval) × Memᴰ i is × (u ≡ i.start)
unfolding next_start_after
next_start_after-attained t u [] e = cc
next_start_after-attained t u (i ∷ is) e = elim (Bool-cases (ltb t i.start)) [
  | inr h ↦ let (j, m, q) = next_start_after-attained t u is (rw h at e) in (j, Memᴰ.tail m, q)
  | inl h ↦ elim (earlier-same i.start (next_start_after t is)) [
    | inl k ↦ (i, Memᴰ.head refl, sym (some_inj (rw h at e)) ∙ k)
    | inr k ↦
        let (j, m, q) = next_start_after-attained t u is (k ∙ rw h at e) in (j, Memᴰ.tail m, q)
  ]
]

pub next_start_after-reaches :
    (t : ℕ) {i : Interval} (is : List Interval)
    → Memᴰ i is
    → t < i.start
    → NotAfter i.start (next_start_after t is)
unfolding next_start_after
next_start_after-reaches t [] m l = elim m [ ]
next_start_after-reaches t {i} (x ∷ is) (Memᴰ.head e) l = rw (lt→ltb t x.start (rw e at l)) (
  earlier x.start (next_start_after t is),
  refl,
  rw e (earlier-le x.start (next_start_after t is)),
)
next_start_after-reaches t {i} (x ∷ is) (Memᴰ.tail m) l =
    let (g, e, k) = next_start_after-reaches t is m l in
    elim (Bool-cases (ltb t x.start)) [
      | inl h ↦ rw h (
        earlier x.start (next_start_after t is),
        refl,
        earlier-NotAfter x.start i.start (next_start_after t is) (g, e, k),
      )
      | inr h ↦ rw h (g, e, k)
    ]

earlier-later : (t a : ℕ) (o : Option ℕ) → t < a → ((n : ℕ) → o ≡ some n → t < n) → t < earlier a o
earlier-later t a none l h = l
earlier-later t a (some b) l h = let k = h b refl in ground arith

-- The next start is later than the time.
pub next_start_after-later : (t n : ℕ) (is : List Interval) → next_start_after t is ≡ some n → t < n
unfolding next_start_after
next_start_after-later t n [] e = cc
next_start_after-later t n (i ∷ is) e = elim (Bool-cases (ltb t i.start)) [
  | inr h ↦ next_start_after-later t n is (rw h at e)
  | inl h ↦
      subst (λ m. t < m) (some_inj (rw h at e))
        (earlier-later t i.start (next_start_after t is) (ltb→lt t i.start h)
          (λ m q. next_start_after-later t m is q))
]

-- No start that is later than the time is before the next one.
pub next_start_after-least :
    (t n : ℕ) (i : Interval) (is : List Interval)
    → next_start_after t is ≡ some n
    → Memᴰ i is
    → t < i.start
    → n ≤ i.start
next_start_after-least t n i is e m l =
    let (g, q, k) = next_start_after-reaches t is m l in
    subst (λ z. z ≤ i.start) (some_inj (sym q ∙ e)) k
