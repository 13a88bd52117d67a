-- ===== src/Scheduler/Served.antt =====
-- The body of the inner loop of `addDurationWithinWorkingHours`: an interval and a usable start.
use six_1_core_api.Prelude.{
  ℕ, ◌+◌, ◌-◌, ◌≤◌, ◌<◌, ◌≡◌, refl, ◌∙◌, inl, inr, Bool, true, false, List, [], ◌∷◌, arith,
}
use six_1_core_api.Prelude.Tests.{leb, leb→le, ltb, ltb→lt, Bool-cases, if◌then◌else◌}
use six_1_core_api.Prelude.Lists.{All, any}
use six_1_core_api.Scheduler.{Interval, contains}
use six_1_core_api.Scheduler.Planning.{finished, going}
use six_1_core_api.Scheduler.Allowed.{contains_both, not_less}
use six_1_core_api.Scheduler.Working.{Worked-none, Worked-after, Covered, Ended, Used, Served}

contains_before : (t : ℕ) (i : Interval) → t < i.start → contains t i ≡ false
contains_before t i l = ground arith

contains_after : (t : ℕ) (i : Interval) → i.finish ≤ t → contains t i ≡ false
contains_after t i l = ground arith

before-All :
    (t end : ℕ) (is : List Interval)
    → t < end
    → All (λ (j : Interval). end ≤ j.start) is
    → any (contains t) is ≡ false
before-All t end [] l h = refl
before-All t end (i ∷ is) l h =
    rw (contains_before t i (omega (arith, l, h.0)), before-All t end is l h.1) refl

not_leb : (a b : ℕ) → leb a b ≡ false → b < a
not_leb a b h = ground arith

-- What is common to the three ways on from a usable start.
pub record Usable (w : ℕ → Bool) (e : ℕ) (i : Interval) (is : List Interval) (p u : ℕ)
    : Type 0 where
  pub covered : Covered w (i ∷ is) p e
  pub apart : All (λ (j : Interval). i.finish ≤ j.start) is
  pub in_day : p ≤ e
  pub ends_in_day : i.finish ≤ e
  pub from_pointer : p ≤ u
  pub from_start : i.start ≤ u
  pub not_begun : (t : ℕ) → p ≤ t → t < u → t < i.start

module _ (w : ℕ → Bool) (e : ℕ) (i : Interval) (is : List Interval) (p u r : ℕ)
    (us : Usable w e i is p u) where
  idle_before : u ≤ i.finish → (t : ℕ) → p ≤ t → t < u → w t ≡ false
  idle_before l t a b =
      us.covered t a (omega (arith, b, l, us.ends_in_day))
      ∙ rw
          (
            contains_before t i (us.not_begun t a b),
            before-All t i.finish is (omega (arith, b, l)) us.apart,
          )
          refl

  works_within : (t : ℕ) → u ≤ t → t < i.finish → w t ≡ true
  works_within t a b =
      us.covered t (omega (arith, a, us.from_pointer)) (omega (arith, b, us.ends_in_day))
      ∙ rw (contains_both t i (omega (arith, a, us.from_start)) b) refl

  over : i.finish ≤ u → 0 < r → Used w e is p r p r
  over l m = record {
    used = 0;
    is_worked = Worked-none w p p (omega arith) (λ t a b. absurd (omega (arith, a, b)));
    sum = omega arith;
    more = m;
    in_day = us.in_day;
    to_come = λ t a b. us.covered t a b ∙ (elim (Bool-cases (ltb t u)) [
      | inl h ↦ rw (contains_before t i (us.not_begun t a (ltb→lt t u h))) refl
      | inr h ↦ rw (contains_after t i (omega (arith, l, not_less t u h))) refl
    ]);
  }

  enough : 0 < r → u + r ≤ i.finish → Ended w p r (u + r)
  enough m l = record {
    is_worked =
        Worked-after w p u r us.from_pointer (idle_before (omega (arith, l)))
          (λ t a b. works_within t a (omega (arith, b, l)));
    last_works = λ k. works_within (u + r - 1) (omega (arith, m)) (omega (arith, m, l));
  }

  too_little : u < i.finish → i.finish - u < r → Used w e is p r i.finish (r - (i.finish - u))
  too_little l m = record {
    used = i.finish - u;
    is_worked =
        let end : u + (i.finish - u) ≡ i.finish = omega (arith, l) in
        rw end at (
          Worked-after w p u (i.finish - u) us.from_pointer (idle_before (omega (arith, l)))
            (λ t a b. works_within t a (omega (arith, b, l))));
    sum = omega (arith, m);
    more = omega (arith, m);
    in_day = us.ends_in_day;
    to_come = λ t a b.
        us.covered t (omega (arith, a, l, us.from_pointer)) b ∙ rw (contains_after t i a) refl;
  }

  pub used_from :
      0 < r
      → Served w e is p r (
          if leb i.finish u
          then going p r
          else if leb r (i.finish - u)
          then finished (u + r)
          else going i.finish (r - (i.finish - u)))
  used_from m = elim (Bool-cases (leb i.finish u)) [
    | inl h ↦ rw h (over (leb→le i.finish u h) m)
    | inr h ↦ elim (Bool-cases (leb r (i.finish - u))) [
      | inl k ↦
          rw (h, k) (enough m (omega (arith, leb→le r (i.finish - u) k, not_leb i.finish u h)))
      | inr k ↦ rw (h, k) (too_little (not_leb i.finish u h) (not_leb r (i.finish - u) k))
    ]
  ]
