-- ===== src/Authoring/Layouts.antt =====
-- Layouts of which one of several entries must be given are accepted again.
use mathlib.Core.Path.{subst}
use six_1_core_api.Prelude.{
  String, ◌≡◌, refl, inl, inr, Bool, true, not, none, some, List, [], ◌∷◌, ◌++◌,
}
use six_1_core_api.Prelude.Tests.{str_eq, Bool-cases, some_inj, and_true}
use six_1_core_api.Prelude.Lists.{any, all}
use six_1_core_api.Json.{Json, Object, get}
use six_1_core_api.Authoring.{ok, present, Rule, run, others, only, as_object}
use six_1_core_api.Authoring.Rules.{
  Agree, has_rule, run-keys, run-stable, ok_inj, >>=-passed, not-true,
}
use six_1_core_api.Authoring.Stable.{StableOn}
use six_1_core_api.Authoring.Objects.{Sound, entries-fields, others-run}
use six_1_core_api.Authoring.Panel.{some_entry, layout_with}

get-append_left : (k : String) (a b : Object) → get k b ≡ none → get k (a ++ b) ≡ get k a
unfolding get
get-append_left k [] b h = h
get-append_left k ((j, v) ∷ a) b h = elim (Bool-cases (str_eq j k)) [
  | inl e ↦ rw e refl
  | inr e ↦ rw e (get-append_left k a b h)
]

get-append_right : (k : String) (a b : Object) → get k a ≡ none → get k (a ++ b) ≡ get k b
unfolding get
get-append_right k [] b h = refl
get-append_right k ((j, v) ∷ a) b h = elim (Bool-cases (str_eq j k)) [
  | inl e ↦ let q : some v ≡ none = rw e at h in cc
  | inr e ↦ rw e (get-append_right k a b (rw e at h))
]

-- No rule of the one list has a key of the other.
abbrev pub apart : List Rule → List Rule → Bool
apart rs more = all (λ (r : Rule). not (has_rule r.key more)) rs

Agree-left :
    (rs more : List Rule) (o a b : Object)
    → apart rs more ≡ true
    → run more o ≡ ok b
    → Agree rs (a ++ b) a
Agree-left [] more o a b h e = tt
Agree-left (r ∷ rs) more o a b h e =
    let (here, later) = and_true (not (has_rule r.key more)) (apart rs more) h in
    let free = not-true (has_rule r.key more) true (rw here refl) in
    (get-append_left r.key a b (run-keys more o b r.key e free), Agree-left rs more o a b later e)

Agree-right :
    (rs more : List Rule) (o a b : Object)
    → apart more rs ≡ true
    → run rs o ≡ ok a
    → Agree more (a ++ b) b
Agree-right rs [] o a b h e = tt
Agree-right rs (r ∷ more) o a b h e =
    let (here, later) = and_true (not (has_rule r.key rs)) (apart more rs) h in
    let free = not-true (has_rule r.key rs) true (rw here refl) in
    (get-append_right r.key a b (run-keys rs o a r.key e free), Agree-right rs more o a b later e)

others-append :
    (allowed : List String) (a b : Object)
    → others allowed a ≡ []
    → others allowed b ≡ []
    → others allowed (a ++ b) ≡ []
others-append allowed [] b h k = k
others-append allowed ((j, v) ∷ a) b h k = elim (Bool-cases (any (str_eq j) allowed)) [
  | inl e ↦ rw e (others-append allowed a b (rw e at h) k)
  | inr e ↦ let q : j ∷ others allowed a ≡ [] = rw e at h in cc
]

module _ (allowed : List String) (first more : List Rule) (s : Sound allowed first)
    (s' : Sound allowed more) (lr : apart first more ≡ true) (rl : apart more first ≡ true) where
  layout_with-keeps :
      (j w : Json)
      → layout_with allowed first more j ≡ ok (some w)
      → (layout_with allowed first more w ≡ ok (some w)) × (present (some w) ≡ some w)
  unfolding layout_with only
  layout_with-keeps j w h =
      let (o, e, h1) = >>=-passed (as_object "layout" j) _ h in
      let (u, e', h2) = >>=-passed (only "layout" allowed o) _ h1 in
      let (a, ra, h3) = >>=-passed (run first o) _ h2 in
      let (t, g, h4) = >>=-passed (some_entry "layout" a) _ h3 in
      let (b, rb, n) = >>=-passed (run more o) _ h4 in
      let keys =
        others-append allowed a b (others-run allowed first o a s.are_within ra)
          (others-run allowed more o b s'.are_within rb) in
      let fa =
        run-stable first o a (a ++ b) s.differ s.all_stable ra
          (Agree-left first more o a b lr rb) in
      let fb =
        run-stable more o b (a ++ b) s'.differ s'.all_stable rb
          (Agree-right first more o a b rl ra) in
      subst (λ z. (layout_with allowed first more z ≡ ok (some z)) × (present (some z) ≡ some z))
        (some_inj (ok_inj n)) (rw (entries-fields (a ++ b), keys, fa, g, fb) refl, refl)

  pub layout_with-StableOn : StableOn (layout_with allowed first more)
  layout_with-StableOn = record {
    keeps = λ j w h. (layout_with-keeps j w h).0;
    is_present = λ j w h. (layout_with-keeps j w h).1;
  }

  pub layout_with-some : (j : Json) → layout_with allowed first more j ≡ ok none → ⊥
  unfolding layout_with
  layout_with-some j h =
      let (o, e, h1) = >>=-passed (as_object "layout" j) _ h in
      let (u, e', h2) = >>=-passed (only "layout" allowed o) _ h1 in
      let (a, ra, h3) = >>=-passed (run first o) _ h2 in
      let (t, g, h4) = >>=-passed (some_entry "layout" a) _ h3 in
      let (b, rb, n) = >>=-passed (run more o) _ h4 in cc
