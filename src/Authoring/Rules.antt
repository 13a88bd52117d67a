-- ===== src/Authoring/Rules.antt =====
-- A second validation of what a first one gave: the rules on their own normal form.
use mathlib.Core.Path.{subst}
use six_1_core_api.Prelude.{
  String, ◌≡◌, refl, sym, ap, ◌∙◌, Bool, true, false, ◌&&◌, ◌||◌, not, Option, none, some, List, [],
  ◌∷◌, arith,
}
use six_1_core_api.Prelude.Tests.{str_eq, str_eq_iff, str_eq_refl, and_true}
use six_1_core_api.Prelude.Lists.{All, any}
use six_1_core_api.Json.{Json, Object, get}
use six_1_core_api.Authoring.{Result, ok, failed, ◌>>=◌, Check, Rule, with_entry, run}

-- What a check gives is accepted again as it is, and where it gives nothing, nothing is accepted.
pub record Stable (c : Check) : Type 0 where
  pub keeps : (v : Option Json) (w : Json) → c v ≡ ok (some w) → c (some w) ≡ ok (some w)
  pub leaves : (v : Option Json) → c v ≡ ok none → c none ≡ ok none

abbrev pub has_rule : String → List Rule → Bool
has_rule k = any (λ (r : Rule). str_eq r.key k)

-- No key has two rules.
abbrev pub distinct : List Rule → Bool
distinct [] = true
distinct (r ∷ rs) = not (has_rule r.key rs) && distinct rs

abbrev pub AllStable : List Rule → Type 0
AllStable = All (λ (r : Rule). Stable r.check)

-- Two objects agree on the keys of the rules.
abbrev pub Agree : List Rule → Object → Object → Type 0
Agree rs o o' = All (λ (r : Rule). get r.key o ≡ get r.key o') rs

-- Where a chain of checks passes, its first check has passed, and the others on what it gave.
pub >>=-passed :
    {X Y : Type 0} (first : Result X) (others : X → Result Y) {given : Y}
    → (first >>= others) ≡ ok given
    → (value : X) × (first ≡ ok value) × (others value ≡ ok given)
>>=-passed (failed problem) others passes = cc
>>=-passed (ok value) others passes = (value, refl, passes)

pub ok_inj : {A : Type 0} {a b : A} → ok a ≡ ok b → a ≡ b
ok_inj h = cc

-- The parts of a run that succeeds.
pub record Ran (r : Rule) (rs : List Rule) (o out : Object) : Type 0 where
  pub value : Option Json
  pub rest : Object
  pub checked : r.check (get r.key o) ≡ ok value
  pub others : run rs o ≡ ok rest
  pub result : out ≡ with_entry r.key value rest

pub run-Ran :
    (r : Rule) (rs : List Rule) (o out : Object) → run (r ∷ rs) o ≡ ok out → Ran r rs o out
unfolding run
run-Ran r rs o out h =
    let (v, e, h') = >>=-passed (r.check (get r.key o)) _ h in
    let (rest, e', h'') = >>=-passed (run rs o) _ h' in
    record { value = v; rest = rest; checked = e; others = e'; result = sym (ok_inj h'') }

pub Ran-run :
    (r : Rule) (rs : List Rule) (o out : Object) → Ran r rs o out → run (r ∷ rs) o ≡ ok out
unfolding run
Ran-run r rs o out h = rw (h.checked, h.others, h.result) refl

-- Equality of texts is symmetric.
pub str_eq_sym : (s t : String) → str_eq s t ≡ false → str_eq t s ≡ false
str_eq_sym s t h = ground (arith, str_eq_iff s t, str_eq_iff t s)

pub get-with_entry_other :
    (k j : String) (v : Option Json) (o : Object)
    → str_eq k j ≡ false
    → get j (with_entry k v o) ≡ get j o
unfolding get
get-with_entry_other k j none o h = refl
get-with_entry_other k j (some w) o h = rw h refl

pub get-with_entry_self :
    (k : String) (v : Option Json) (o : Object) → get k o ≡ none → get k (with_entry k v o) ≡ v
unfolding get
get-with_entry_self k none o h = h
get-with_entry_self k (some w) o h = rw (str_eq_refl k) refl

pub not-true : (b c : Bool) → (not b && c) ≡ true → b ≡ false
not-true b c h = ground arith

pub or_false : (b c : Bool) → (b || c) ≡ false → (b ≡ false) × (c ≡ false)
or_false b c h = ground arith

-- The entries of a normal form stand under the keys of its rules.
pub run-keys :
    (rs : List Rule) (o out : Object) (k : String)
    → run rs o ≡ ok out
    → has_rule k rs ≡ false
    → get k out ≡ none
unfolding run get
run-keys [] o out k h n = rw (← ok_inj h) refl
run-keys (r ∷ rs) o out k h n =
    let q = run-Ran r rs o out h in
    let (here, later) = or_false (str_eq r.key k) (has_rule k rs) n in
    rw (ap (get k) q.result, get-with_entry_other r.key k q.value q.rest here)
      (run-keys rs o q.rest k q.others later)

-- A run reads the keys of its rules only.
pub run-Agree : (rs : List Rule) (o o' : Object) → Agree rs o o' → run rs o ≡ run rs o'
unfolding run
run-Agree [] o o' a = refl
run-Agree (r ∷ rs) o o' a = rw (a.0, run-Agree rs o o' a.1) refl

-- A rule of another key does not see the first entry.
Agree-other :
    (k : String) (v : Option Json) (rs : List Rule) (p o : Object)
    → has_rule k rs ≡ false
    → Agree rs p (with_entry k v o)
    → Agree rs p o
Agree-other k v [] p o n a = tt
Agree-other k v (r ∷ rs) p o n a =
    let (here, later) = or_false (str_eq r.key k) (has_rule k rs) n in
    (
      a.0 ∙ get-with_entry_other k r.key v o (str_eq_sym r.key k here),
      Agree-other k v rs p o later a.1,
    )

again : (c : Check) (v w : Option Json) → Stable c → c v ≡ ok w → c w ≡ ok w
again c v none s h = s.leaves v h
again c v (some w) s h = s.keeps v w h

-- Rules with keys of their own accept what they have given, and give the same; what stands under
-- other keys does not matter.
pub run-stable :
    (rs : List Rule) (o out p : Object)
    → distinct rs ≡ true
    → AllStable rs
    → run rs o ≡ ok out
    → Agree rs p out
    → run rs p ≡ ok out
unfolding run
run-stable [] o out p d s h a = h
run-stable (r ∷ rs) o out p d s h a =
    let q = run-Ran r rs o out h in
    let alone = not-true (has_rule r.key rs) (distinct rs) d in
    let absent = run-keys rs o q.rest r.key q.others alone in
    let seen = a.0 ∙ ap (get r.key) q.result ∙ get-with_entry_self r.key q.value q.rest absent in
    Ran-run r rs p out (record {
      value = q.value;
      rest = q.rest;
      checked = ap r.check seen ∙ again r.check (get r.key o) q.value s.0 q.checked;
      others =
          run-stable rs o q.rest p (and_true (not (has_rule r.key rs)) (distinct rs) d).1 s.1
            q.others
            (Agree-other r.key q.value rs p q.rest alone (subst (Agree rs p) q.result a.1));
      result = q.result;
    })
