-- ===== src/Engine/Duration.antt =====
-- `isoDurationToMs` of src/automation/trigger-engine.service.ts: the pattern
-- P(T(digits H)?(digits M)?(digits S)?), over the code units of the text.
use Prim.Native.Char.{code}
use six_1_core_api.Prelude.{ℕ, ◌+◌, ◌-◌, ◌*◌, String, Bool, ◌&&◌, List, [], ◌∷◌}
use six_1_core_api.Prelude.Tests.{◌==◌, leb, if◌then◌else◌}

abbrev pub codes : String → List ℕ
codes String.[] = []
codes (String.◌∷◌ c s) = code c ∷ codes s

abbrev pub is_digit : ℕ → Bool
is_digit c = leb b'0' c && leb c b'9'

-- The longest run of digits, and what follows.
unfoldable pub span_digits : List ℕ → List ℕ × List ℕ
span_digits [] = ([], [])
span_digits (c ∷ s) =
    let (ds, rest) = span_digits s in if is_digit c then (c ∷ ds, rest) else ([], c ∷ s)

-- `parseInt(digits, 10)`
unfoldable pub parse_int : ℕ → List ℕ → ℕ
parse_int acc [] = acc
parse_int acc (d ∷ ds) = parse_int (acc * 10 + (d - b'0')) ds

-- An optional group of digits with the letter after it: its value, 0 where the group is absent.
unfoldable pub close_group : ℕ → List ℕ → List ℕ → List ℕ → ℕ × List ℕ
close_group letter s [] rest = (0, s)
close_group letter s (d ∷ ds) [] = (0, s)
close_group letter s (d ∷ ds) (c ∷ rest) =
    if c == letter then (parse_int 0 (d ∷ ds), rest) else (0, s)

unfoldable pub group : ℕ → List ℕ → ℕ × List ℕ
unfolding close_group
group letter s = let (ds, rest) = span_digits s in close_group letter s ds rest

-- `$`: no match where text is left.
unfoldable pub at_end : List ℕ → ℕ → ℕ
at_end [] ms = ms
at_end (_ ∷ _) ms = 0

unfoldable pub groups : List ℕ → ℕ
unfolding group at_end
groups s =
    let (h, s₁) = group b'H' s in
    let (m, s₂) = group b'M' s₁ in
    let (sec, s₃) = group b'S' s₂ in at_end s₃ (((h * 60 + m) * 60 + sec) * 1000)

unfoldable pub duration_of : List ℕ → ℕ
unfolding groups
duration_of (p ∷ t ∷ s) = if (p == b'P') && (t == b'T') then groups s else 0
duration_of _ = 0

unfoldable pub iso_duration_to_ms : String → ℕ
unfolding duration_of span_digits parse_int
iso_duration_to_ms s = duration_of (codes s)
