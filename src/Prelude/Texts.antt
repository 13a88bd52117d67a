-- ===== src/Prelude/Texts.antt =====
-- `trim` of JavaScript's texts, and the texts that have more than white space.
use Prim.Native.Char.{Char, code}
use Prim.Native.Nat.{ℕ}
use Prim.Native.String.{String}
use mathlib.Core.Path.{◌≡◌, refl, ap, ◌∙◌}
use mathlib.Core.Logic.{inl, inr}
use mathlib.Core.Bool.{Bool, true, false, not, ◌&&◌, ◌||◌}
use mathlib.Core.List.{[], ◌∷◌}
use native.Mathlib.Omega.{arith}
use six_1_core_api.Prelude.Tests.{◌==◌, leb, if◌then◌else◌, Bool-cases}
use six_1_core_api.Prelude.Lists.{any}

-- The code units that `trim` removes.
abbrev pub is_space : ℕ → Bool
is_space c =
    (leb 9 c && leb c 13)
    || ((leb 8192 c && leb c 8202)
        || any (λ d. c == d) (32 ∷ 160 ∷ 5760 ∷ 8232 ∷ 8233 ∷ 8239 ∷ 8287 ∷ 12288 ∷ 65279 ∷ []))

unfoldable pub blank : Char → Bool
blank c = is_space (code c)

-- `value.trim().length > 0`
unfoldable pub has_text : String → Bool
has_text String.[] = false
has_text (String.◌∷◌ c s) = not (blank c) || has_text s

unfoldable pub trim_start : String → String
trim_start String.[] = String.[]
trim_start (String.◌∷◌ c s) = let rest = trim_start s in if blank c then rest else String.◌∷◌ c s

unfoldable pub trim_end : String → String
trim_end String.[] = String.[]
trim_end (String.◌∷◌ c s) =
    let rest = trim_end s in if blank c && not (has_text s) then String.[] else String.◌∷◌ c rest

unfoldable pub trim : String → String
trim s = trim_end (trim_start s)

module _ (c : Char) (s : String) where
  trim_end_drop : (blank c && not (has_text s)) ≡ true → trim_end (String.◌∷◌ c s) ≡ String.[]
  unfolding trim_end
  trim_end_drop h = rw h refl

  trim_end_keep :
      (blank c && not (has_text s)) ≡ false → trim_end (String.◌∷◌ c s) ≡ String.◌∷◌ c (trim_end s)
  unfolding trim_end
  trim_end_keep h = rw h refl

  trim_start_drop : blank c ≡ true → trim_start (String.◌∷◌ c s) ≡ trim_start s
  unfolding trim_start
  trim_start_drop h = rw h refl

  trim_start_keep : blank c ≡ false → trim_start (String.◌∷◌ c s) ≡ String.◌∷◌ c s
  unfolding trim_start
  trim_start_keep h = rw h refl

  has_text-blank : (blank c && not (has_text s)) ≡ true → false ≡ (not (blank c) || has_text s)
  has_text-blank h = ground arith

has_text-trim_end : (s : String) → has_text (trim_end s) ≡ has_text s
unfolding has_text trim_end
has_text-trim_end String.[] = refl
has_text-trim_end (String.◌∷◌ c s) = elim (Bool-cases (blank c && not (has_text s))) [
  | inl h ↦ rw (trim_end_drop c s h) (has_text-blank c s h)
  | inr h ↦ rw (trim_end_keep c s h) (ap (λ b. not (blank c) || b) (has_text-trim_end s))
]

has_text-trim_start : (s : String) → has_text (trim_start s) ≡ has_text s
unfolding has_text trim_start
has_text-trim_start String.[] = refl
has_text-trim_start (String.◌∷◌ c s) = elim (Bool-cases (blank c)) [
  | inl h ↦ rw (trim_start_drop c s h, h) (has_text-trim_start s)
  | inr h ↦ rw (trim_start_keep c s h) refl
]

-- Trimming neither empties a text that has one nor fills one that has none.
pub has_text-trim : (s : String) → has_text (trim s) ≡ has_text s
unfolding trim
has_text-trim s = has_text-trim_end (trim_start s) ∙ has_text-trim_start s

trim_end_idem : (s : String) → trim_end (trim_end s) ≡ trim_end s
unfolding trim_end
trim_end_idem String.[] = refl
trim_end_idem (String.◌∷◌ c s) = elim (Bool-cases (blank c && not (has_text s))) [
  | inl h ↦ rw (trim_end_drop c s h) refl
  | inr h ↦ rw (trim_end_keep c s h) (
      trim_end_keep c (trim_end s) (rw (has_text-trim_end s) h)
      ∙ ap (String.◌∷◌ c) (trim_end_idem s))
]

-- A text that begins with no white space keeps its beginning.
trim_start-trim_end : (s : String) → trim_start (trim_end (trim_start s)) ≡ trim_end (trim_start s)
unfolding trim_start trim_end
trim_start-trim_end String.[] = refl
trim_start-trim_end (String.◌∷◌ c s) = elim (Bool-cases (blank c)) [
  | inl h ↦ rw (trim_start_drop c s h) (trim_start-trim_end s)
  | inr h ↦
      rw (trim_start_keep c s h, trim_end_keep c s (rw h refl)) (trim_start_keep c (trim_end s) h)
]

pub trim_idem : (s : String) → trim (trim s) ≡ trim s
unfolding trim
trim_idem s = ap trim_end (trim_start-trim_end s) ∙ trim_end_idem (trim_start s)
