-- ===== src/Authoring/LookupAgain.antt =====
-- A lookup that has been validated is accepted again.
use mathlib.Core.Path.{subst}
use six_1_core_api.Prelude.{String, ◌≡◌, refl, sym, Option, none, some, List, [], ◌∷◌}
use six_1_core_api.Json.{Json, str, Object, get}
use six_1_core_api.Authoring.{
  ok, needed, present, keep_if, is_string, not_object, required, only, run, as_object, normal, Rule,
  with_entry,
}
use six_1_core_api.Authoring.Rules.{Stable, run-Ran, Ran-run, >>=-passed}
use six_1_core_api.Authoring.Stable.{needed-Stable}
use six_1_core_api.Authoring.Objects.{Sound, entries-fields, only-run, run-again, normal-Ends}
use six_1_core_api.Authoring.Metadata
use six_1_core_api.Authoring.MetadataAgain.{stable}

-- A list of rules that passes wherever another one does.
abbrev Follows : List Rule → List Rule → Type 0
Follows [] rs = Unit
Follows (t ∷ ts) [] = ⊥
Follows (t ∷ ts) (r ∷ rs) =
    (t.key ≡ r.key)
    × ((v w : Option Json) → r.check v ≡ ok w → (u : Option Json) × (t.check v ≡ ok u))
    × Follows ts rs

run-Follows :
    (ts rs : List Rule) (o out : Object)
    → Follows ts rs
    → run rs o ≡ ok out
    → (u : Object) × (run ts o ≡ ok u)
unfolding run
run-Follows [] rs o out f h = ([], refl)
run-Follows (t ∷ ts) [] o out f h = absurd f
run-Follows (t ∷ ts) (r ∷ rs) o out f h =
    let q = run-Ran r rs o out h in
    let (v, e) =
      f.1 (get t.key o) q.value (subst (λ k. r.check (get k o) ≡ ok q.value) (sym f.0) q.checked) in
    let (u, e') = run-Follows ts rs o q.rest f.2 q.others in
    (
      with_entry t.key v u,
      Ran-run t ts o _ (record { value = v; rest = u; checked = e; others = e'; result = refl }),
    )

-- What is a token is a text.
token-is_string :
    (key : String) (v w : Option Json)
    → needed (required key) (Metadata.ref_token key) v ≡ ok w
    → (u : Option Json) × (needed (required key) (keep_if is_string (required key)) v ≡ ok u)
unfolding needed keep_if Metadata.ref_token
token-is_string key (some (str s)) w h = (some (str s), refl)
token-is_string key none w h = cc
token-is_string key (some _) w h = cc

lookup-Sound : Sound Metadata.lookup_keys Metadata.lookup_rules
lookup-Sound = record { differ = refl; are_within = refl; all_stable = search stable }

lookup-Follows : Follows Metadata.lookup_types Metadata.lookup_rules
lookup-Follows = (
  refl,
  λ v w h. (w, h),
  (
    refl,
    token-is_string "dataRef",
    (refl, token-is_string "valueKey", (refl, token-is_string "labelKey", tt)),
  ),
)

lookup-keeps :
    (j w : Json)
    → Metadata.lookup_select j ≡ ok (some w)
    → (Metadata.lookup_select w ≡ ok (some w)) × (present (some w) ≡ some w)
unfolding Metadata.lookup_select
lookup-keeps j w h =
    let (o, e, h1) = >>=-passed (as_object "_six1LookupSelectAuthoring" j) _ h in
    let (u, e', h2) = >>=-passed (only "_six1LookupSelectAuthoring" Metadata.lookup_keys o) _ h1 in
    let (typed, t, h3) = >>=-passed (run Metadata.lookup_types o) _ h2 in
    let (out, r, n) = >>=-passed (run Metadata.lookup_rules o) normal h3 in
    let a =
      only-run "_six1LookupSelectAuthoring" Metadata.lookup_keys Metadata.lookup_rules o out refl
        r in
    let b = run-again Metadata.lookup_keys Metadata.lookup_rules o out lookup-Sound r in
    let (again, c) =
      run-Follows Metadata.lookup_types Metadata.lookup_rules out out lookup-Follows b in
    subst (λ z. (Metadata.lookup_select z ≡ ok (some w)) × (present (some z) ≡ some z))
      (normal-Ends out w n) (rw (entries-fields out, a, c, b) n, refl)

lookup-some : (j : Json) → Metadata.lookup_select j ≡ ok none → ⊥
unfolding Metadata.lookup_select
lookup-some j h =
    let (o, e, h1) = >>=-passed (as_object "_six1LookupSelectAuthoring" j) _ h in
    let (u, e', h2) = >>=-passed (only "_six1LookupSelectAuthoring" Metadata.lookup_keys o) _ h1 in
    let (typed, t, h3) = >>=-passed (run Metadata.lookup_types o) _ h2 in
    let (out, r, n) = >>=-passed (run Metadata.lookup_rules o) normal h3 in cc

lookup-Stable : Stable Metadata.validate_lookup_select
unfolding Metadata.validate_lookup_select
lookup-Stable =
    needed-Stable (not_object "_six1LookupSelectAuthoring") Metadata.lookup_select
      (record {
        keeps = λ j w h. (lookup-keeps j w h).0;
        is_present = λ j w h. (lookup-keeps j w h).1;
      })
      lookup-some

-- The metadata of a lookup that has been validated is accepted again as it is: a reference
-- that is trimmed to a token, and is no URL, stays one.
pub validate_lookup_select-again :
    (v : Option Json) (w : Json)
    → Metadata.validate_lookup_select v ≡ ok (some w)
    → Metadata.validate_lookup_select (some w) ≡ ok (some w)
validate_lookup_select-again v w h = lookup-Stable.keeps v w h
