-- ===== src/Authoring/Mapped.antt =====
-- Arrays of which each element is normalised, and configurations with a default, are accepted again.
use mathlib.Core.Path.{subst}
use six_1_core_api.Prelude.{String, ◌≡◌, ◌≢◌, refl, sym, ap, ◌∙◌, Option, none, some, List, [], ◌∷◌}
use six_1_core_api.Prelude.Tests.{some_inj}
use six_1_core_api.Json.{Json, arr, obj, Object, elements, items, fields, get}
use six_1_core_api.Authoring.{
  Problem, Result, ok, ◌>>=◌, present, needed, Empty, kept, omitted, refused, on_elements,
  map_elements, array_map, Rule, with_entry, run, only, as_object, normal, run_or, default_or,
}
use six_1_core_api.Authoring.Rules.{run-Ran, ok_inj, >>=-passed}
use six_1_core_api.Authoring.Stable.{StableOn, handled_needed}
use six_1_core_api.Authoring.Objects.{Sound, entries-fields, only-run, run-again}

pub elements-items : (js : List Json) → elements (items js) ≡ js
elements-items [] = refl
elements-items (j ∷ js) = ap (λ z. j ∷ z) (elements-items js)

map_elements-again :
    (f : Json → Result (Option Json)) (js vs : List Json)
    → StableOn f
    → map_elements f js ≡ ok vs
    → map_elements f vs ≡ ok vs
unfolding map_elements
map_elements-again f [] vs s h = rw (← ok_inj h) refl
map_elements-again f (j ∷ js) vs s h =
    let (v, e, h1) = >>=-passed (f j) _ h in
    let (us, e', h2) = >>=-passed (map_elements f js) _ h1 in
    subst (λ z. map_elements f z ≡ ok z) (ok_inj h2) (one v us e (map_elements-again f js us s e'))
  where
    one :
        (v : Option Json) (us : List Json)
        → f j ≡ ok v
        → map_elements f us ≡ ok us
        → map_elements f (elim v [ none ↦ us | some w ↦ w ∷ us ])
          ≡ ok (elim v [ none ↦ us | some w ↦ w ∷ us ])
    one none us e ih = ih
    one (some w) us e ih = rw (s.keeps j w e, ih) refl

on_elements-Ends :
    (m : Empty) (label : String) (js : List Json) (w : Json)
    → on_elements m label (arr (items js)) js ≡ ok (some w)
    → arr (items js) ≡ w
on_elements-Ends kept label [] w h = some_inj (ok_inj h)
on_elements-Ends omitted label [] w h = cc
on_elements-Ends refused label [] w h = cc
on_elements-Ends kept label (j ∷ js) w h = some_inj (ok_inj h)
on_elements-Ends omitted label (j ∷ js) w h = some_inj (ok_inj h)
on_elements-Ends refused label (j ∷ js) w h = some_inj (ok_inj h)

module _ (f : Json → Result (Option Json)) (m : Empty) (label : String) where
  array_map-keeps :
      (j w : Json)
      → StableOn f
      → array_map f m label j ≡ ok (some w)
      → (array_map f m label w ≡ ok (some w)) × (present (some w) ≡ some w)
  unfolding array_map
  array_map-keeps (arr js) w s h =
      let (vs, e, n) = >>=-passed (map_elements f (elements js)) _ h in
      subst (λ z. (array_map f m label z ≡ ok (some w)) × (present (some z) ≡ some z))
        (on_elements-Ends m label vs w n)
        (rw (elements-items vs, map_elements-again f (elements js) vs s e) n, refl)
  array_map-keeps _ w s h = cc

  pub array_map-StableOn : StableOn f → StableOn (array_map f m label)
  array_map-StableOn s = record {
    keeps = λ j w h. (array_map-keeps j w s h).0;
    is_present = λ j w h. (array_map-keeps j w s h).1;
  }

refused-some :
    (label : String) (js : List Json) → on_elements refused label (arr (items js)) js ≡ ok none → ⊥
refused-some label [] h = cc
refused-some label (j ∷ js) h = cc

pub array_map-some :
    (f : Json → Result (Option Json)) (label : String) (j : Json)
    → array_map f refused label j ≡ ok none
    → ⊥
unfolding array_map
array_map-some f label (arr js) h =
    let (vs, e, n) = >>=-passed (map_elements f (elements js)) _ h in refused-some label vs n
array_map-some f label _ h = cc

-- Rules whose normal form has an entry.
abbrev pub Given : List Rule → Type 0
Given rules = (o out : Object) → run rules o ≡ ok out → out ≢ []

pub Given-needed :
    (key : String) (p : Problem) (f : Json → Result (Option Json)) (rs : List Rule)
    → ((j : Json) → f j ≡ ok none → ⊥)
    → Given (record { key = key; check = needed p f } ∷ rs)
unfolding needed
Given-needed key p f rs never o out h e =
    let q = run-Ran _ rs o out h in value q.value q.rest q.checked (sym q.result ∙ e)
  where
    value :
        (v : Option Json) (rest : Object)
        → needed p f (get key o) ≡ ok v
        → with_entry key v rest ≡ []
        → ⊥
    value none rest c r = let (j, k) = handled_needed p f (present (get key o)) none c in never j k
    value (some w) rest c r = cc

run_or-cons :
    (least : Object) (rules : List Rule) (o : Object)
    → o ≢ []
    → run_or least rules o ≡ (run rules o >>= normal)
run_or-cons least rules [] n = absurd (n refl)
run_or-cons least rules (e ∷ o) n = refl

module _ (least : Object) (label : String) (allowed : List String) (rules : List Rule)
    (s : Sound allowed rules) (given : Given rules) (are_allowed : only label allowed least ≡ ok tt)
    (fits : run_or least rules least ≡ normal least) where
  second :
      (out : Object)
      → only label allowed out ≡ ok tt
      → run_or least rules out ≡ normal out
      → default_or least label allowed rules (obj (fields out)) ≡ normal out
  unfolding default_or
  second out a b = rw (entries-fields out, a) b

  run_or-Ends :
      (o : Object) (w : Json)
      → run_or least rules o ≡ ok (some w)
      → (default_or least label allowed rules w ≡ ok (some w)) × (present (some w) ≡ some w)
  run_or-Ends [] w h =
      subst
        (λ z. (default_or least label allowed rules z ≡ ok (some z)) × (present (some z) ≡ some z))
        (some_inj (ok_inj h)) (second least are_allowed fits, refl)
  run_or-Ends (e ∷ o) w h =
      let (out, r, n) = >>=-passed (run rules (e ∷ o)) normal h in
      subst
        (λ z. (default_or least label allowed rules z ≡ ok (some z)) × (present (some z) ≡ some z))
        (some_inj (ok_inj n))
        (
          second out (only-run label allowed rules (e ∷ o) out s.are_within r) (
              run_or-cons least rules out (given (e ∷ o) out r)
              ∙ rw (run-again allowed rules (e ∷ o) out s r) refl),
          refl,
        )

  pub default_or-StableOn : StableOn (default_or least label allowed rules)
  unfolding default_or
  default_or-StableOn = record {
    keeps = λ j w h. (result j w h).0;
    is_present = λ j w h. (result j w h).1;
  }
    where
      result :
          (j w : Json)
          → default_or least label allowed rules j ≡ ok (some w)
          → (default_or least label allowed rules w ≡ ok (some w)) × (present (some w) ≡ some w)
      result j w h =
          let (o, e, h1) = >>=-passed (as_object label j) _ h in
          let (u, e', h2) = >>=-passed (only label allowed o) _ h1 in run_or-Ends o w h2

pub default_or-some :
    (least : Object) (label : String) (allowed : List String) (rules : List Rule) (j : Json)
    → default_or least label allowed rules j ≡ ok none
    → ⊥
unfolding default_or
default_or-some least label allowed rules j h =
    let (o, e, h1) = >>=-passed (as_object label j) _ h in
    let (u, e', h2) = >>=-passed (only label allowed o) _ h1 in none_left o h2
  where
    none_left : (o : Object) → run_or least rules o ≡ ok none → ⊥
    none_left [] h = cc
    none_left (e ∷ o) h = let (out, r, n) = >>=-passed (run rules (e ∷ o)) normal h in cc
