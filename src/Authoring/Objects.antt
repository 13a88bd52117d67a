-- ===== src/Authoring/Objects.antt =====
-- Objects that are validated by rules are accepted again.
use mathlib.Core.Path.{subst}
use six_1_core_api.Prelude.{
  String, ◌≡◌, refl, ap, ◌∙◌, Bool, true, Option, none, some, List, [], ◌∷◌,
}
use six_1_core_api.Prelude.Tests.{str_eq, some_inj, and_true}
use six_1_core_api.Prelude.Lists.{any, all}
use six_1_core_api.Json.{Json, obj, Fields, Object, entries, fields}
use six_1_core_api.Authoring.{
  Result, ok, present, Rule, with_entry, run, others, only, as_object, normal, unless_empty,
  object_with, object_then, object_of,
}
use six_1_core_api.Authoring.Rules.{
  Agree, AllStable, distinct, run-Ran, run-stable, ok_inj, >>=-passed,
}
use six_1_core_api.Authoring.Stable.{StableOn}

pub entries-fields : (o : Object) → entries (fields o) ≡ o
entries-fields [] = refl
entries-fields ((k, v) ∷ o) = ap (λ z. (k, v) ∷ z) (entries-fields o)

-- The rules are for keys that are allowed.
abbrev pub within : List String → List Rule → Bool
within allowed = all (λ (r : Rule). any (str_eq r.key) allowed)

others-with_entry :
    (allowed : List String) (k : String) (v : Option Json) (o : Object)
    → any (str_eq k) allowed ≡ true
    → others allowed (with_entry k v o) ≡ others allowed o
others-with_entry allowed k none o h = refl
others-with_entry allowed k (some w) o h = rw h refl

pub others-run :
    (allowed : List String) (rs : List Rule) (o out : Object)
    → within allowed rs ≡ true
    → run rs o ≡ ok out
    → others allowed out ≡ []
unfolding run
others-run allowed [] o out h e = rw (← ok_inj e) refl
others-run allowed (r ∷ rs) o out h e =
    let q = run-Ran r rs o out e in
    let (here, later) = and_true (any (str_eq r.key) allowed) (within allowed rs) h in
    ap (others allowed) q.result
    ∙ others-with_entry allowed r.key q.value q.rest here
    ∙ others-run allowed rs o q.rest later q.others

pub only-run :
    (label : String) (allowed : List String) (rs : List Rule) (o out : Object)
    → within allowed rs ≡ true
    → run rs o ≡ ok out
    → only label allowed out ≡ ok tt
unfolding only
only-run label allowed rs o out h e = rw (others-run allowed rs o out h e) refl

Agree-refl : (rs : List Rule) (o : Object) → Agree rs o o
Agree-refl [] o = tt
Agree-refl (r ∷ rs) o = (refl, Agree-refl rs o)

-- Rules that can be applied to what they give: they differ in their keys, are within the allowed
-- ones, and each is stable.
pub record Sound (allowed : List String) (rs : List Rule) : Type 0 where
  pub differ : distinct rs ≡ true
  pub are_within : within allowed rs ≡ true
  pub all_stable : AllStable rs

pub run-again :
    (allowed : List String) (rs : List Rule) (o out : Object)
    → Sound allowed rs
    → run rs o ≡ ok out
    → run rs out ≡ ok out
run-again allowed rs o out s h = run-stable rs o out out s.differ s.all_stable h (Agree-refl rs out)

-- What ends a validation gives the object itself, or nothing.
abbrev pub Ends : (Object → Result (Option Json)) → Type 0
Ends end = (o : Object) (w : Json) → end o ≡ ok (some w) → obj (fields o) ≡ w

pub normal-Ends : Ends normal
normal-Ends o w h = some_inj (ok_inj h)

pub unless_empty-Ends : Ends unless_empty
unless_empty-Ends [] w h = cc
unless_empty-Ends (e ∷ o) w h = some_inj (ok_inj h)

module _ (label : String) (allowed : List String) (end : Object → Result (Option Json))
    (ends : Ends end) where
  pub object_with-StableOn :
      (rules : Object → List Rule)
      → ((o : Object) → Sound allowed (rules o))
      → ((o out : Object) → run (rules o) o ≡ ok out → rules out ≡ rules o)
      → StableOn (object_with label allowed rules end)
  unfolding object_with
  object_with-StableOn rules s same = record {
    keeps = λ j w h. (result j w h).0;
    is_present = λ j w h. (result j w h).1;
  }
    where
      result :
          (j w : Json)
          → object_with label allowed rules end j ≡ ok (some w)
          → (object_with label allowed rules end w ≡ ok (some w)) × (present (some w) ≡ some w)
      result j w h =
          let (o, e, h') = >>=-passed (as_object label j) _ h in
          let (u, e', h'') = >>=-passed (only label allowed o) _ h' in
          let (out, r, n) = >>=-passed (run (rules o) o) end h'' in
          let a = only-run label allowed (rules o) o out (s o).are_within r in
          let b = run-again allowed (rules o) o out (s o) r in
          subst
            (λ z.
              (object_with label allowed rules end z ≡ ok (some w)) × (present (some z) ≡ some z))
            (ends out w n) (rw (entries-fields out, a, same o out r, b) n, refl)

  pub object_then-StableOn :
      (rules : List Rule) → Sound allowed rules → StableOn (object_then label allowed rules end)
  unfolding object_then
  object_then-StableOn rules s = record {
    keeps = λ j w h. (result j w h).0;
    is_present = λ j w h. (result j w h).1;
  }
    where
      result :
          (j w : Json)
          → object_then label allowed rules end j ≡ ok (some w)
          → (object_then label allowed rules end w ≡ ok (some w)) × (present (some w) ≡ some w)
      result j w h =
          let (o, e, h') = >>=-passed (as_object label j) _ h in
          let (out, r, h'') = >>=-passed (run rules o) _ h' in
          let (u, e', n) = >>=-passed (only label allowed o) _ h'' in
          let a = only-run label allowed rules o out s.are_within r in
          let b = run-again allowed rules o out s r in
          subst
            (λ z.
              (object_then label allowed rules end z ≡ ok (some w)) × (present (some z) ≡ some z))
            (ends out w n) (rw (entries-fields out, b, a) n, refl)

pub object_with-some :
    (label : String) (allowed : List String) (rules : Object → List Rule) (j : Json)
    → object_with label allowed rules normal j ≡ ok none
    → ⊥
unfolding object_with
object_with-some label allowed rules j h =
    let (o, e, h') = >>=-passed (as_object label j) _ h in
    let (u, e', h'') = >>=-passed (only label allowed o) _ h' in
    let (out, r, n) = >>=-passed (run (rules o) o) normal h'' in cc

pub object_of-StableOn :
    (label : String) (allowed : List String) (rules : List Rule)
    → Sound allowed rules
    → StableOn (object_of label rules)
unfolding object_of
object_of-StableOn label allowed rules s = record {
  keeps = λ j w h. (result j w h).0;
  is_present = λ j w h. (result j w h).1;
}
  where
    result :
        (j w : Json)
        → object_of label rules j ≡ ok (some w)
        → (object_of label rules w ≡ ok (some w)) × (present (some w) ≡ some w)
    result j w h =
        let (o, e, h') = >>=-passed (as_object label j) _ h in
        let (out, r, n) = >>=-passed (run rules o) normal h' in
        let b = run-again allowed rules o out s r in
        subst (λ z. (object_of label rules z ≡ ok (some w)) × (present (some z) ≡ some z))
          (normal-Ends out w n) (rw (entries-fields out, b) n, refl)

-- What is given is an object.
pub object_with-obj :
    (label : String) (allowed : List String) (rules : Object → List Rule) (j w : Json)
    → object_with label allowed rules normal j ≡ ok (some w)
    → (fs : Fields) × (obj fs ≡ w)
unfolding object_with
object_with-obj label allowed rules j w h =
    let (o, e, h') = >>=-passed (as_object label j) _ h in
    let (u, e', h'') = >>=-passed (only label allowed o) _ h' in
    let (out, r, n) = >>=-passed (run (rules o) o) normal h'' in (fields out, normal-Ends out w n)
