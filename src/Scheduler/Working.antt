-- ===== src/Scheduler/Working.antt =====
-- `addDurationWithinWorkingHours` against a count of the working milliseconds.
use six_1_core_api.Prelude.{
  ℕ, zero, suc, ◌+◌, ◌-◌, ◌≤◌, ◌<◌, ◌≡◌, refl, ap, ◌∙◌, inl, inr, Bool, true, false, List, [], ◌∷◌,
  arith,
}
use six_1_core_api.Prelude.Tests.{Bool-cases, if◌then◌else◌}
use six_1_core_api.Prelude.Lists.{All, any}
use six_1_core_api.Scheduler.{Interval, contains}
use six_1_core_api.Scheduler.Planning.{Progress, finished, going}

-- How many of the n times from a on pass.
abbrev pub count : (ℕ → Bool) → ℕ → ℕ → ℕ
count p a zero = 0
count p a (suc n) = let rest = count p (suc a) n in if p a then suc rest else rest

-- There are k working milliseconds from a on and before b.
abbrev pub Worked : (ℕ → Bool) → ℕ → ℕ → ℕ → Type 0
Worked p a b k = (n : ℕ) × (b ≡ a + n) × (count p a n ≡ k)

-- The intervals stand in order and do not overlap.
abbrev pub Apart : List Interval → Type 0
Apart [] = Unit
Apart (i ∷ is) = All (λ (j : Interval). i.finish ≤ j.start) is × Apart is

count_add :
    (p : ℕ → Bool) (a b m n c : ℕ) → b ≡ a + m → c ≡ m + n → count p a c ≡ count p a m + count p b n
count_add p a b zero n c e f =
    let same_end : c ≡ n = omega (arith, f) in
    let same_start : b ≡ a = omega (arith, e) in rw (same_end, same_start) (omega arith)
count_add p a b (suc m) n zero e f = absurd (omega (arith, f))
count_add p a b (suc m) n (suc c) e f =
    let ih = count_add p (suc a) b m n c (omega (arith, e)) (omega (arith, f)) in
    elim (Bool-cases (p a)) [ inl h ↦ rw h (omega (arith, ih)) | inr h ↦ rw h ih ]

count_none :
    (p : ℕ → Bool) (a n : ℕ) → ((t : ℕ) → a ≤ t → t < a + n → p t ≡ false) → count p a n ≡ 0
count_none p a zero h = refl
count_none p a (suc n) h =
    rw (h a (omega arith) (omega arith))
      (count_none p (suc a) n (λ t x y. h t (omega (arith, x)) (omega (arith, y))))

count_all : (p : ℕ → Bool) (a n : ℕ) → ((t : ℕ) → a ≤ t → t < a + n → p t ≡ true) → count p a n ≡ n
count_all p a zero h = refl
count_all p a (suc n) h =
    rw (h a (omega arith) (omega arith))
      (ap suc (count_all p (suc a) n (λ t x y. h t (omega (arith, x)) (omega (arith, y)))))

pub Worked-trans :
    (p : ℕ → Bool) (a b c k l : ℕ) → Worked p a b k → Worked p b c l → Worked p a c (k + l)
Worked-trans p a b c k l (m, e, x) (n, f, y) =
    (m + n, omega (arith, e, f), count_add p a b m n (m + n) e refl ∙ rw (x, y) refl)

pub Worked-none :
    (p : ℕ → Bool) (a b : ℕ) → a ≤ b → ((t : ℕ) → a ≤ t → t < b → p t ≡ false) → Worked p a b 0
Worked-none p a b l h =
    (b - a, omega (arith, l), count_none p a (b - a) (λ t x y. h t x (omega (arith, y, l))))

Worked-all :
    (p : ℕ → Bool) (a n : ℕ) → ((t : ℕ) → a ≤ t → t < a + n → p t ≡ true) → Worked p a (a + n) n
Worked-all p a n h = (n, refl, count_all p a n h)

-- Idle from a to b, and at work for n milliseconds from b on.
pub Worked-after :
    (p : ℕ → Bool) (a b n : ℕ)
    → a ≤ b
    → ((t : ℕ) → a ≤ t → t < b → p t ≡ false)
    → ((t : ℕ) → b ≤ t → t < b + n → p t ≡ true)
    → Worked p a (b + n) n
Worked-after p a b n l h k =
    let (m, e, q) = Worked-trans p a b (b + n) 0 n (Worked-none p a b l h) (Worked-all p b n k) in
    (m, e, omega (arith, q))

-- From p on and before e, a time works exactly where one of the intervals contains it.
abbrev pub Covered : (ℕ → Bool) → List Interval → ℕ → ℕ → Type 0
Covered w is p e = (t : ℕ) → p ≤ t → t < e → w t ≡ any (contains t) is

-- The duration has been worked when it ends, and the millisecond before its end works.
pub record Ended (w : ℕ → Bool) (start duration end : ℕ) : Type 0 where
  pub is_worked : Worked w start end duration
  pub last_works : 0 < duration → w (end - 1) ≡ true

-- A part of a duration has been worked where the pointer stands; the other intervals are to come.
pub record Used (w : ℕ → Bool) (e : ℕ) (is : List Interval) (p duration p' rest : ℕ) : Type 0 where
  pub used : ℕ
  pub is_worked : Worked w p p' used
  pub sum : used + rest ≡ duration
  pub more : 0 < rest
  pub in_day : p' ≤ e
  pub to_come : Covered w is p' e

abbrev pub Served : (ℕ → Bool) → ℕ → List Interval → ℕ → ℕ → Progress → Type 0
Served w e is p r (finished b) = Ended w p r b
Served w e is p r (going p' r') = Used w e is p r p' r'
