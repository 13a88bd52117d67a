-- ===== src/Scheduler/Allowed.antt =====
-- `nextAllowedUtc` against a description of the first working time.
use mathlib.Core.List.{Memᴰ}
use six_1_core_api.Prelude.{
  ℕ, zero, suc, ◌≤◌, ◌<◌, ◌≡◌, ◌⊎◌, refl, sym, ap, ◌∙◌, inl, inr, Bool, true, false, Option, none,
  some, List, [], ◌∷◌, arith,
}
use six_1_core_api.Prelude.Tests.{
  leb, leb→le, ltb, ltb→lt, Bool-cases, Option-cases, some_inj, and_true,
}
use six_1_core_api.Prelude.Lists.{any, any→Memᴰ, Memᴰ→any}
use six_1_core_api.Scheduler.{Interval, contains, earlier, is_within_any_interval, next_start_after}
use six_1_core_api.Scheduler.Gate.{
  next_start_after-reaches, next_start_after-later, next_start_after-least,
}
use six_1_core_api.Scheduler.Planning.{
  Days, intervals_on, allowed_on, next_allowed_from, next_allowed_utc,
}

-- A time at which the calendar works.
abbrev pub works : Days → ℕ → Bool
works d t = any (contains t) (intervals_on d t)

-- What days are: they follow each other, the times of one day have the same intervals, and these
-- end by the end of the day and are not empty.
pub record Sound (d : Days) : Type 0 where
  pub rises : (t : ℕ) → t < d.next_day t
  pub same_day : (t u : ℕ) → t ≤ u → u < d.next_day t → intervals_on d u ≡ intervals_on d t
  pub inside : (t : ℕ) (i : Interval) → Memᴰ i (intervals_on d t) → i.finish ≤ d.next_day t
  pub not_empty : (t : ℕ) (i : Interval) → Memᴰ i (intervals_on d t) → i.start < i.finish

abbrev pub Idle : Days → ℕ → ℕ → Type 0
Idle d a b = (t : ℕ) → a ≤ t → t < b → works d t ≡ false

-- The first working time that is not before a.
pub record FirstWorking (d : Days) (a b : ℕ) : Type 0 where
  pub not_before : a ≤ b
  pub is_working : works d b ≡ true
  pub idle_until : Idle d a b

abbrev pub days_after : ℕ → Days → ℕ → ℕ
days_after zero d t = t
days_after (suc n) d t = days_after n d (d.next_day t)

pub contains_iff : (t : ℕ) (i : Interval) → contains t i ≡ true → (i.start ≤ t) × (t < i.finish)
contains_iff t i h =
    let (a, b) = and_true (leb i.start t) (ltb t i.finish) h in (leb→le _ _ a, ltb→lt _ _ b)

pub contains_both : (t : ℕ) (i : Interval) → i.start ≤ t → t < i.finish → contains t i ≡ true
contains_both t i a b = ground arith

pub not_less : (a b : ℕ) → ltb a b ≡ false → b ≤ a
not_less a b h = ground arith

-- A time is the start of one of the intervals.
abbrev StartOf : ℕ → List Interval → Type 0
StartOf n is = (i : Interval) × Memᴰ i is × (n ≡ i.start)

earlier-StartOf :
    (n : ℕ) (i : Interval) (is : List Interval) (o : Option ℕ)
    → earlier i.start o ≡ n
    → ((m : ℕ) → o ≡ some m → StartOf m is)
    → StartOf n (i ∷ is)
earlier-StartOf n i is none k h = (i, Memᴰ.head refl, sym k)
earlier-StartOf n i is (some m) k h = elim (Bool-cases (leb i.start m)) [
  | inl l ↦ (i, Memᴰ.head refl, sym (rw l at k))
  | inr l ↦ let (j, r, q) = h m refl in (j, Memᴰ.tail r, sym (rw l at k) ∙ q)
]

next_start_after-StartOf :
    (t n : ℕ) (is : List Interval) → next_start_after t is ≡ some n → StartOf n is
unfolding next_start_after
next_start_after-StartOf t n [] e = cc
next_start_after-StartOf t n (i ∷ is) e = elim (Bool-cases (ltb t i.start)) [
  | inr h ↦ let (j, m, q) = next_start_after-StartOf t n is (rw h at e) in (j, Memᴰ.tail m, q)
  | inl h ↦
      earlier-StartOf n i is (next_start_after t is) (some_inj (rw h at e))
        (λ m q. next_start_after-StartOf t m is q)
]

-- A time between a cursor that is in no interval and the next start is in none.
before_next :
    (c t : ℕ) (is : List Interval)
    → any (contains c) is ≡ false
    → c ≤ t
    → ((i : Interval) → Memᴰ i is → c < i.start → t < i.start)
    → any (contains t) is ≡ false
before_next c t is e l h = elim (Bool-cases (any (contains t) is)) [
  | inr q ↦ q
  | inl q ↦
      let (i, m, k) = any→Memᴰ (contains t) is q in
      let (a, b) = contains_iff t i k in
      elim (Bool-cases (ltb c i.start)) [
        | inl z ↦ absurd (omega (arith, a, h i m (ltb→lt c i.start z)))
        | inr z ↦ absurd (
            true-false (
              sym (
                Memᴰ→any (contains c) m
                  (contains_both c i (not_less c i.start z) (omega (arith, l, b))))
              ∙ e))
      ]
]
  where
    true-false : true ≡ false → ⊥
    true-false h = cc

module _ (d : Days) (sound : Sound d) where
  pub works_on :
      (c t : ℕ) → c ≤ t → t < d.next_day c → works d t ≡ any (contains t) (intervals_on d c)
  works_on c t a b = ap (any (contains t)) (sound.same_day c t a b)

  next_start-FirstWorking :
      (c n : ℕ)
      → works d c ≡ false
      → next_start_after c (intervals_on d c) ≡ some n
      → FirstWorking d c n
  next_start-FirstWorking c n e h =
      let (i, m, q) = next_start_after-StartOf c n (intervals_on d c) h in
      let later = next_start_after-later c n (intervals_on d c) h in
      let full = sound.not_empty c i m in
      let fits = sound.inside c i m in
      record {
        not_before = omega (arith, later);
        is_working =
            works_on c n (omega (arith, later)) (omega (arith, q, full, fits))
            ∙ Memᴰ→any (contains n) m
                (contains_both n i (omega (arith, q)) (omega (arith, q, full)));
        idle_until = λ t a b.
            works_on c t a (omega (arith, b, q, full, fits))
            ∙ before_next c t (intervals_on d c) e a
                (λ j k l. omega (arith, b, next_start_after-least c n j (intervals_on d c) h k l));
      }

  no_start-Idle :
      (c : ℕ)
      → works d c ≡ false
      → next_start_after c (intervals_on d c) ≡ none
      → Idle d c (d.next_day c)
  no_start-Idle c e h t a b =
      works_on c t a b
      ∙ before_next c t (intervals_on d c) e a
          (λ j k l. let (g, q, r) = next_start_after-reaches c (intervals_on d c) k l in cc)

  allowed_on-some : (c n : ℕ) → allowed_on d c ≡ some n → FirstWorking d c n
  unfolding allowed_on is_within_any_interval
  allowed_on-some c n e = elim (Bool-cases (works d c)) [
    | inr h ↦ next_start-FirstWorking c n h (rw h at e)
    | inl h ↦ rw (← some_inj (rw h at e)) (record {
      not_before = omega arith;
      is_working = h;
      idle_until = λ t a b. absurd (omega (arith, a, b));
    })
  ]

  allowed_on-none : (c : ℕ) → allowed_on d c ≡ none → Idle d c (d.next_day c)
  unfolding allowed_on is_within_any_interval
  allowed_on-none c e = elim (Bool-cases (works d c)) [
    | inr h ↦ no_start-Idle c h (rw h at e)
    | inl h ↦ cc
  ]

  found : (n a c t : ℕ) → allowed_on d c ≡ some t → next_allowed_from (suc n) d a c ≡ t
  unfolding next_allowed_from
  found n a c t e = rw (e, next_allowed_from) refl

  not_found :
      (n a c : ℕ)
      → allowed_on d c ≡ none
      → next_allowed_from (suc n) d a c ≡ next_allowed_from n d a (d.next_day c)
  unfolding next_allowed_from
  not_found n a c e = rw (e, next_allowed_from) refl

  -- The loop, where there is no working time before the cursor.
  next_allowed_from-lem :
      (n requested cursor : ℕ)
      → requested ≤ cursor
      → Idle d requested cursor
      → FirstWorking d requested (next_allowed_from n d requested cursor)
        ⊎ ((next_allowed_from n d requested cursor ≡ requested)
            × Idle d requested (days_after n d cursor))
  unfolding next_allowed_from
  next_allowed_from-lem zero a c l h = inr (refl, h)
  next_allowed_from-lem (suc n) a c l h = elim (Option-cases (allowed_on d c)) [
    | inr (t, e) ↦
        let first = allowed_on-some c t e in
        rw (found n a c t e) (
          inl (record {
            not_before = omega (arith, l, first.not_before);
            is_working = first.is_working;
            idle_until = λ u x y. elim (Bool-cases (ltb u c)) [
              | inl k ↦ h u x (ltb→lt u c k)
              | inr k ↦ first.idle_until u (not_less u c k) y
            ];
          }))
    | inl e ↦ rw (not_found n a c e) (
        next_allowed_from-lem n a (d.next_day c) (omega (arith, l, sound.rises c)) (λ u x y.
          elim (Bool-cases (ltb u c)) [
            | inl k ↦ h u x (ltb→lt u c k)
            | inr k ↦ allowed_on-none c e u (not_less u c k) y
          ]))
  ]

  -- `nextAllowedUtc` gives the first time that is not before the requested one and at which
  -- the calendar works, where the days follow each other, the times of a day have the same
  -- working intervals, and these are not empty and end by the end of the day; or, where no
  -- time of the 366 days from the requested one on works, it gives the requested time.
  pub next_allowed_utc-First :
      (requested : ℕ)
      → FirstWorking d requested (next_allowed_utc d requested)
        ⊎ ((next_allowed_utc d requested ≡ requested)
            × Idle d requested (days_after 366 d requested))
  unfolding next_allowed_utc
  next_allowed_utc-First a =
      next_allowed_from-lem 366 a a (omega arith) (λ t x y. absurd (omega (arith, x, y)))
