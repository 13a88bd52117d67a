-- ===== src/Authoring/Stable.antt =====
-- The checks that the validators use are stable.
use mathlib.Core.Path.{subst}
use six_1_core_api.Prelude.{
  ℕ, String, ◌≡◌, ◌≢◌, refl, ◌∙◌, inl, inr, Bool, true, false, Option, none, some, List, [], ◌∷◌,
}
use six_1_core_api.Prelude.Tests.{◌==◌, Bool-cases, some_inj}
use six_1_core_api.Prelude.Texts.{has_text, trim, has_text-trim, trim_idem}
use six_1_core_api.Json.{Json, null, bool, num, negsuc, fraction, str, arr, obj, elements}
use six_1_core_api.Authoring.{
  Problem, Result, ok, failed, present, handle, optional, needed, keep_if, trimmed, Empty, kept,
  omitted, refused, on_elements, check_elements, array_of, version_one, unsupported_version,
}
use six_1_core_api.Authoring.Rules.{Stable, ok_inj, >>=-passed}

-- What f makes of a value it makes of that again, and it gives no `null`.
pub record StableOn (f : Json → Result (Option Json)) : Type 0 where
  pub keeps : (j w : Json) → f j ≡ ok (some w) → f w ≡ ok (some w)
  pub is_present : (j w : Json) → f j ≡ ok (some w) → present (some w) ≡ some w

pub handled :
    (f : Json → Result (Option Json)) (v : Option Json) (w : Json)
    → handle (ok none) f v ≡ ok (some w)
    → (j : Json) × (f j ≡ ok (some w))
handled f none w h = cc
handled f (some j) w h = (j, h)

pub handled_needed :
    (p : Problem) (f : Json → Result (Option Json)) (v : Option Json) (w : Option Json)
    → handle (failed p) f v ≡ ok w
    → (j : Json) × (f j ≡ ok w)
handled_needed p f none w h = cc
handled_needed p f (some j) w h = (j, h)

pub optional-Stable : (f : Json → Result (Option Json)) → StableOn f → Stable (optional f)
unfolding optional
optional-Stable f s = record {
  keeps =
      λ v w h. let (j, e) = handled f (present v) w h in rw (s.is_present j w e) (s.keeps j w e);
  leaves = λ v h. refl;
}

-- A needed value is never left out.
pub needed-Stable :
    (p : Problem) (f : Json → Result (Option Json))
    → StableOn f
    → ((j : Json) → f j ≡ ok none → ⊥)
    → Stable (needed p f)
unfolding needed
needed-Stable p f s never = record {
  keeps = λ v w h.
      let (j, e) = handled_needed p f (present v) (some w) h in
      rw (s.is_present j w e) (s.keeps j w e);
  leaves = λ v h. let (j, e) = handled_needed p f (present v) none h in absurd (never j e);
}

-- Every value but `null` is present.
present_value : (w : Json) → w ≢ null → present (some w) ≡ some w
present_value null n = absurd (n refl)
present_value (bool b) n = refl
present_value (num k) n = refl
present_value (negsuc k) n = refl
present_value (fraction s) n = refl
present_value (str s) n = refl
present_value (arr js) n = refl
present_value (obj fs) n = refl

-- A function that gives its value or nothing, and refuses `null`.
pub same-StableOn :
    (f : Json → Result (Option Json))
    → ((j w : Json) → f j ≡ ok (some w) → j ≡ w)
    → ((w : Json) → f null ≡ ok (some w) → ⊥)
    → StableOn f
same-StableOn f same never = record {
  keeps = λ j w h. subst (λ z. f z ≡ ok (some w)) (same j w h) h;
  is_present =
      λ j w h. present_value w (λ e. never w (subst (λ z. f z ≡ ok (some w)) (same j w h ∙ e) h));
}

pub keep_if-same :
    (test : Json → Bool) (p : Problem) (j w : Json)
    → keep_if test p j ≡ ok (some w)
    → (j ≡ w) × (test j ≡ true)
unfolding keep_if
keep_if-same test p j w h = elim (Bool-cases (test j)) [
  | inl e ↦ (some_inj (ok_inj (rw e at h)), e)
  | inr e ↦ let r : failed p ≡ ok (some w) = rw e at h in cc
]

pub keep_if-some : (test : Json → Bool) (p : Problem) (j : Json) → keep_if test p j ≡ ok none → ⊥
unfolding keep_if
keep_if-some test p j h = elim (Bool-cases (test j)) [
  | inl e ↦ let r : ok (some j) ≡ ok none = rw e at h in cc
  | inr e ↦ let r : failed p ≡ ok none = rw e at h in cc
]

pub keep_if-StableOn :
    (test : Json → Bool) (p : Problem) → test null ≡ false → StableOn (keep_if test p)
keep_if-StableOn test p n =
    same-StableOn (keep_if test p) (λ j w h. (keep_if-same test p j w h).0)
      (λ w h. let e = (keep_if-same test p null w h).1 in cc)

pub optional-keep_if :
    (test : Json → Bool) (p : Problem) → test null ≡ false → Stable (optional (keep_if test p))
optional-keep_if test p n = optional-Stable (keep_if test p) (keep_if-StableOn test p n)

pub needed-keep_if :
    (q : Problem) (test : Json → Bool) (p : Problem)
    → test null ≡ false
    → Stable (needed q (keep_if test p))
needed-keep_if q test p n =
    needed-Stable q (keep_if test p) (keep_if-StableOn test p n) (keep_if-some test p)

-- A text that has been trimmed is trimmed to itself.
trimmed-keeps :
    (p : Problem) (j w : Json)
    → trimmed p j ≡ ok (some w)
    → (trimmed p w ≡ ok (some w)) × (present (some w) ≡ some w)
unfolding trimmed
trimmed-keeps p (str s) w h = elim (Bool-cases (has_text s)) [
  | inr e ↦ let r : failed p ≡ ok (some w) = rw e at h in cc
  | inl e ↦
      let q : str (trim s) ≡ w = some_inj (ok_inj (rw e at h)) in
      subst (λ z. (trimmed p z ≡ ok (some z)) × (present (some z) ≡ some z)) q
        (rw (has_text-trim s, e, trim_idem s) (refl, refl))
]
trimmed-keeps p _ w h = cc

pub trimmed-StableOn : (p : Problem) → StableOn (trimmed p)
trimmed-StableOn p = record {
  keeps = λ j w h. (trimmed-keeps p j w h).0;
  is_present = λ j w h. (trimmed-keeps p j w h).1;
}

trimmed-some : (p : Problem) (j : Json) → trimmed p j ≡ ok none → ⊥
unfolding trimmed
trimmed-some p (str s) h = elim (Bool-cases (has_text s)) [
  | inr e ↦ let r : failed p ≡ ok none = rw e at h in cc
  | inl e ↦ let r : ok (some (str (trim s))) ≡ ok none = rw e at h in cc
]
trimmed-some p _ h = cc

pub optional-trimmed : (p : Problem) → Stable (optional (trimmed p))
optional-trimmed p = optional-Stable (trimmed p) (trimmed-StableOn p)

pub needed-trimmed : (q p : Problem) → Stable (needed q (trimmed p))
needed-trimmed q p = needed-Stable q (trimmed p) (trimmed-StableOn p) (trimmed-some p)

on_elements-same :
    (e : Empty) (label : String) (j : Json) (js : List Json) (w : Json)
    → on_elements e label j js ≡ ok (some w)
    → j ≡ w
on_elements-same kept label j [] w h = some_inj (ok_inj h)
on_elements-same omitted label j [] w h = cc
on_elements-same refused label j [] w h = cc
on_elements-same kept label j (x ∷ js) w h = some_inj (ok_inj h)
on_elements-same omitted label j (x ∷ js) w h = some_inj (ok_inj h)
on_elements-same refused label j (x ∷ js) w h = some_inj (ok_inj h)

on_elements-some :
    (label : String) (j : Json) (js : List Json) → on_elements refused label j js ≡ ok none → ⊥
on_elements-some label j [] h = cc
on_elements-some label j (x ∷ js) h = cc

module _ (test : Json → Bool) (p : ℕ → Problem) (label : String) where
  array_of-same : (e : Empty) (j w : Json) → array_of test p e label j ≡ ok (some w) → j ≡ w
  unfolding array_of
  array_of-same e (arr js) w h =
      let (u, a, b) = >>=-passed (check_elements test p 0 (elements js)) _ h in
      on_elements-same e label (arr js) (elements js) w b
  array_of-same e _ w h = cc

  array_of-some : (j : Json) → array_of test p refused label j ≡ ok none → ⊥
  unfolding array_of
  array_of-some (arr js) h =
      let (u, a, b) = >>=-passed (check_elements test p 0 (elements js)) _ h in
      on_elements-some label (arr js) (elements js) b
  array_of-some _ h = cc

  array_of-null : (e : Empty) (w : Json) → array_of test p e label null ≡ ok (some w) → ⊥
  unfolding array_of
  array_of-null e w h = cc

  array_of-StableOn : (e : Empty) → StableOn (array_of test p e label)
  array_of-StableOn e = same-StableOn (array_of test p e label) (array_of-same e) (array_of-null e)

  pub optional-array_of : (e : Empty) → Stable (optional (array_of test p e label))
  optional-array_of e = optional-Stable (array_of test p e label) (array_of-StableOn e)

  pub needed-array_of : (q : Problem) → Stable (needed q (array_of test p refused label))
  needed-array_of q =
      needed-Stable q (array_of test p refused label) (array_of-StableOn refused) array_of-some

version_one-keeps : (label : String) (j w : Json) → version_one label j ≡ ok (some w) → j ≡ w
unfolding version_one
version_one-keeps label (num n) w h = elim (Bool-cases (n == 1)) [
  | inl e ↦ some_inj (ok_inj (rw e at h))
  | inr e ↦ let r : failed unsupported_version ≡ ok (some w) = rw e at h in cc
]
version_one-keeps label _ w h = cc

pub version_one-some : (label : String) (j : Json) → version_one label j ≡ ok none → ⊥
unfolding version_one
version_one-some label (num n) h = elim (Bool-cases (n == 1)) [
  | inl e ↦ let r : ok (some (num n)) ≡ ok none = rw e at h in cc
  | inr e ↦ let r : failed unsupported_version ≡ ok none = rw e at h in cc
]
version_one-some label _ h = cc

version_one-null : (label : String) (w : Json) → version_one label null ≡ ok (some w) → ⊥
unfolding version_one
version_one-null label w h = cc

pub needed-version_one : (q : Problem) (label : String) → Stable (needed q (version_one label))
needed-version_one q label =
    needed-Stable q (version_one label)
      (same-StableOn (version_one label) (version_one-keeps label) (version_one-null label))
      (version_one-some label)
