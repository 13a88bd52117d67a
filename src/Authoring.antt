-- ===== src/Authoring.antt =====
-- src/config_objects: the validators of authored JSON. Here is what they share: each checks the
-- entries of an object one by one and collects the entries of a normal form. The entries of the
-- normal form stand in the order of the checks; a message is a Problem, with the label that it names.
use six_1_core_api.Prelude.{
  ℕ, suc, String, Bool, true, false, not, ◌&&◌, ◌||◌, Option, none, some, List, [], ◌∷◌, ◌++◌, map,
}
use six_1_core_api.Prelude.Tests.{◌==◌, str_eq, if◌then◌else◌}
use six_1_core_api.Prelude.Lists.{any, all, filter}
use six_1_core_api.Prelude.Texts.{has_text, trim}
use six_1_core_api.Json.{
  Json, null, bool, num, negsuc, fraction, str, arr, obj, Object, get, entries, fields, elements,
  items,
}
pub mod Rules
pub mod Stable
pub mod Objects
pub mod Panel
pub mod Layouts
pub mod Labels
pub mod PanelAgain
pub mod Mapped
pub mod ListView
pub mod ListViewAgain
pub mod Metadata
pub mod MetadataAgain
pub mod LookupAgain
pub mod DetailFormAgain
pub mod Examples

pub data Problem : Type 0 where
  not_object not_array not_text not_bool required empty_array bad_choice not_integer :
      (label : String) → Problem
  unsupported_version : Problem
  not_text_at not_object_at : (label : String) (index : ℕ) → Problem
  duplicate : (label : String) (key : String) → Problem
  unknown_keys : (label : String) (keys : List String) → Problem
  nothing_given : (label : String) → Problem

pub data Result (A : Type 0) : Type 0 where
  ok : A → Result A
  failed : Problem → Result A

infixl 5 ◌>>=◌
abbrev pub ◌>>=◌ : {A B : Type 0} → Result A → (A → Result B) → Result B
ok a >>= f = f a
failed p >>= f = failed p

-- What a check makes of an entry that may be absent: the entry of the normal form, if there is one.
abbrev pub Check : Type 0
Check = Option Json → Result (Option Json)

-- `value === undefined || value === null`
abbrev pub present : Option Json → Option Json
present none = none
present (some null) = none
present (some (bool b)) = some (bool b)
present (some (num n)) = some (num n)
present (some (negsuc n)) = some (negsuc n)
present (some (fraction s)) = some (fraction s)
present (some (str s)) = some (str s)
present (some (arr js)) = some (arr js)
present (some (obj fs)) = some (obj fs)

abbrev pub handle :
    Result (Option Json) → (Json → Result (Option Json)) → Option Json → Result (Option Json)
handle absent f none = absent
handle absent f (some j) = f j

unfoldable pub optional : (Json → Result (Option Json)) → Check
optional f v = handle (ok none) f (present v)

unfoldable pub needed : Problem → (Json → Result (Option Json)) → Check
needed p f v = handle (failed p) f (present v)

-- `value !== undefined`: here `null` is a value.
unfoldable pub defined : (Json → Result (Option Json)) → Check
defined f v = handle (ok none) f v

-- The value itself, where it passes.
unfoldable pub keep_if : (Json → Bool) → Problem → Json → Result (Option Json)
keep_if test p j = if test j then ok (some j) else failed p

abbrev pub is_object : Json → Bool
is_object (obj _) = true
is_object _ = false

abbrev pub is_bool : Json → Bool
is_bool (bool _) = true
is_bool _ = false

abbrev pub is_string : Json → Bool
is_string (str _) = true
is_string _ = false

-- `typeof value !== 'string' || !value.trim()`, negated.
abbrev pub is_text : Json → Bool
is_text (str s) = has_text s
is_text _ = false

abbrev pub is_one_of : List String → Json → Bool
is_one_of values (str s) = any (str_eq s) values
is_one_of values _ = false

unfoldable pub trimmed : Problem → Json → Result (Option Json)
trimmed p (str s) = if has_text s then ok (some (str (trim s))) else failed p
trimmed p _ = failed p

-- The loop over the elements of an array of texts.
unfoldable pub check_elements : (Json → Bool) → (ℕ → Problem) → ℕ → List Json → Result (Unit {0})
check_elements test p i [] = ok tt
check_elements test p i (j ∷ js) =
    let rest = check_elements test p (suc i) js in if test j then rest else failed (p i)

-- What becomes of an array without elements: it is kept, left out or refused.
pub data Empty : Type 0 where
  kept omitted refused : Empty

abbrev pub on_elements : Empty → String → Json → List Json → Result (Option Json)
on_elements kept label j [] = ok (some j)
on_elements omitted label j [] = ok none
on_elements refused label j [] = failed (empty_array label)
on_elements e label j (_ ∷ _) = ok (some j)

-- An array whose elements pass, as it is.
unfoldable pub array_of :
    (Json → Bool) → (ℕ → Problem) → Empty → String → Json → Result (Option Json)
array_of test p e label (arr js) =
    check_elements test p 0 (elements js) >>= λ _. on_elements e label (arr js) (elements js)
array_of test p e label _ = failed (not_array label)

-- The loop over the elements of an array that makes something of each.
unfoldable pub map_elements : (Json → Result (Option Json)) → List Json → Result (List Json)
map_elements f [] = ok []
map_elements f (j ∷ js) =
    f j >>= λ v. map_elements f js >>= λ vs. ok (elim v [ none ↦ vs | some w ↦ w ∷ vs ])

unfoldable pub array_map :
    (Json → Result (Option Json)) → Empty → String → Json → Result (Option Json)
array_map f e label (arr js) =
    map_elements f (elements js) >>= λ vs. on_elements e label (arr (items vs)) vs
array_map f e label _ = failed (not_array label)

abbrev pub strings : Empty → String → Json → Result (Option Json)
strings e label = array_of is_text (not_text_at label) e label

abbrev pub objects : String → Json → Result (Option Json)
objects label = array_of is_object (not_object_at label) refused label

unfoldable pub version_one : String → Json → Result (Option Json)
version_one label (num n) = if n == 1 then ok (some (num n)) else failed unsupported_version
version_one label (negsuc n) = failed unsupported_version
version_one label _ = failed (not_integer label)

-- `Object.keys(o).filter((k) => !allowed.includes(k))`
abbrev pub others : List String → Object → List String
others allowed o = filter (λ k. not (any (str_eq k) allowed)) (map (λ (e : String × Json). e.0) o)

abbrev pub no_others : String → List String → Result (Unit {0})
no_others label [] = ok tt
no_others label (k ∷ ks) = failed (unknown_keys label (k ∷ ks))

unfoldable pub only : String → List String → Object → Result (Unit {0})
only label allowed o = no_others label (others allowed o)

-- One entry of the object, and what is made of it.
pub record Rule : Type 0 where
  pub key : String
  pub check : Check

abbrev pub rule : String → Check → Rule
rule key check = record { key = key; check = check }

-- An entry that may be absent, and must be a text with more than white space where it is there.
abbrev pub text_rule : String → Rule
text_rule key = rule key (optional (trimmed (not_text key)))

abbrev pub object_rule : String → Rule
object_rule key = rule key (optional (keep_if is_object (not_object key)))

abbrev pub choice_rule : String → List String → Rule
choice_rule key values = rule key (optional (keep_if (is_one_of values) (bad_choice key)))

abbrev pub strings_rule : String → Empty → Rule
strings_rule key e = rule key (optional (strings e key))

abbrev pub needed_strings_rule : String → Rule
needed_strings_rule key = rule key (needed (required key) (strings refused key))

abbrev pub needed_text_rule : String → Rule
needed_text_rule key = rule key (needed (required key) (trimmed (not_text key)))

abbrev pub schema_version : Rule
schema_version =
    rule "schemaVersion" (needed (required "schemaVersion") (version_one "schemaVersion"))

abbrev pub with_entry : String → Option Json → Object → Object
with_entry k none o = o
with_entry k (some v) o = (k, v) ∷ o

-- The rules in order; the first that fails ends the validation.
unfoldable pub run : List Rule → Object → Result Object
unfolding get
run [] o = ok []
run (r ∷ rs) o = r.check (get r.key o) >>= λ v. run rs o >>= λ rest. ok (with_entry r.key v rest)

abbrev pub as_object : String → Json → Result Object
as_object label (obj fs) = ok (entries fs)
as_object label _ = failed (not_object label)

abbrev pub normal : Object → Result (Option Json)
normal o = ok (some (obj (fields o)))

-- A normal form without entries is left out.
abbrev pub unless_empty : Object → Result (Option Json)
unless_empty [] = ok none
unless_empty (e ∷ o) = normal (e ∷ o)

-- An object whose keys are checked before its entries.
unfoldable pub object_with :
    String
    → List String
    → (Object → List Rule)
    → (Object → Result (Option Json))
    → Json
    → Result (Option Json)
unfolding only
object_with label allowed rules end j =
    as_object label j >>= λ o. only label allowed o >>= λ _. run (rules o) o >>= end

-- An object whose keys are checked after its entries.
unfoldable pub object_then :
    String → List String → List Rule → (Object → Result (Option Json)) → Json → Result (Option Json)
unfolding only
object_then label allowed rules end j =
    as_object label j >>= λ o. run rules o >>= λ out. only label allowed o >>= λ _. end out

-- An object of which other keys are dropped.
unfoldable pub object_of : String → List Rule → Json → Result (Option Json)
object_of label rules j = as_object label j >>= λ o. run rules o >>= normal

-- What the rules make of an object, or the least configuration where it is empty.
abbrev pub run_or : Object → List Rule → Object → Result (Option Json)
run_or least rules [] = normal least
run_or least rules (e ∷ o) = run rules (e ∷ o) >>= normal

unfoldable pub default_or : Object → String → List String → List Rule → Json → Result (Option Json)
unfolding only
default_or least label allowed rules j =
    as_object label j >>= λ o. only label allowed o >>= λ _. run_or least rules o
