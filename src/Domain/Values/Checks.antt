-- ===== src/Domain/Values/Checks.antt =====
-- The validation functions of domain/values.py. Arguments are typed, so the `TypeError` branches of
-- the source have no counterpart.
use Prim.Native.Char.{code}
use Prim.Native.String as Text
use mathlib.Core.List.{reverse}
use powerfactory_mcp.Prelude.{
  ℕ, suc, String, Bool, false, not, ◌&&◌, ◌||◌, Option, none, some, List, [], ◌∷◌, length, leb, ltb,
  nat_eq, if◌then◌else◌,
}
use powerfactory_mcp.Domain.Values.{Datetime, Revision}
use powerfactory_mcp.Errors.{
  Result, ok, not_text, too_long, not_aware, not_uuid4, not_positive, guard, ◌>>◌,
}

-- The code points of a text.
abbrev pub codes : String → List ℕ
codes Text.[] = []
codes (Text.◌∷◌ c s) = code c ∷ codes s

-- The characters that `str.strip` removes.
is_space : ℕ → Bool
is_space c =
    (leb 9 c && leb c 13)
    || (leb 28 c && leb c 32)
    || nat_eq c 133
    || nat_eq c 160
    || nat_eq c 5760
    || (leb 8192 c && leb c 8202)
    || nat_eq c 8232
    || nat_eq c 8233
    || nat_eq c 8239
    || nat_eq c 8287
    || nat_eq c 12288

starts_blank : List ℕ → Bool
unfolding is_space
starts_blank [] = false
starts_blank (c ∷ cs) = is_space c

-- `not value or value != value.strip()`, negated: stripping leaves a nonempty text as it is exactly
-- when neither its first nor its last character is a space.
unfoldable pub is_trimmed : List ℕ → Bool
unfolding starts_blank
is_trimmed [] = false
is_trimmed (c ∷ cs) = not (starts_blank (c ∷ cs)) && not (starts_blank (reverse (c ∷ cs)))

unfoldable pub require_text : String → String → ℕ → Result (Unit {0})
unfolding is_trimmed
require_text value field maximum = do
  guard (is_trimmed (codes value)) (not_text field)
  guard (leb (length (codes value)) maximum) (too_long field)

unfoldable pub require_aware : Datetime → String → Result (Unit {0})
require_aware timestamp field = guard timestamp.aware (not_aware field)

is_hex : ℕ → Bool
is_hex c = (leb b'0' c && leb c b'9') || (leb b'a' c && leb c b'f')

-- What a canonical lowercase UUIDv4 has at a position: a dash at 8, 13, 18 and 23, the version at
-- 14, the variant at 19, a hexadecimal digit elsewhere.
uuid4_char : ℕ → ℕ → Bool
unfolding is_hex
uuid4_char i c =
    if nat_eq i 8 || nat_eq i 13 || nat_eq i 18 || nat_eq i 23
    then nat_eq c b'-'
    else if nat_eq i 14
    then nat_eq c b'4'
    else if nat_eq i 19
    then nat_eq c b'8' || nat_eq c b'9' || nat_eq c b'a' || nat_eq c b'b'
    else is_hex c

uuid4_from : ℕ → List ℕ → Bool
unfolding uuid4_char
uuid4_from i [] = nat_eq i 36
uuid4_from i (c ∷ cs) = uuid4_char i c && uuid4_from (suc i) cs

unfoldable pub is_uuid4 : String → Bool
unfolding uuid4_from
is_uuid4 value = uuid4_from 0 (codes value)

-- `UUID(value)` with `version == 4` and `str(parsed) == value`.
unfoldable pub require_uuid4 : String → String → Result (Unit {0})
unfolding require_text is_uuid4
require_uuid4 value field = do require_text value field 36; guard (is_uuid4 value) (not_uuid4 field)

-- `_require_optional_uuid4` and `_require_optional_text` of workflow.py and lease.py.
unfoldable pub require_optional_uuid4 : Option String → String → Result (Unit {0})
unfolding require_uuid4
require_optional_uuid4 none field = ok tt
require_optional_uuid4 (some value) field = require_uuid4 value field

unfoldable pub require_optional_text : Option String → String → ℕ → Result (Unit {0})
unfolding require_text
require_optional_text none field maximum = ok tt
require_optional_text (some value) field maximum = require_text value field maximum

-- `_require_positive_token`, `_require_positive`: an integer below 1 is refused.
unfoldable pub require_positive : ℕ → String → Result (Unit {0})
require_positive value field = guard (ltb 0 value) (not_positive field)

-- The constructor of `_Revision`; a counter is a nonnegative integer by its type.
unfoldable pub new_revision : String → ℕ → Result Revision
unfolding require_uuid4
new_revision scope_id counter = do
  require_uuid4 scope_id "scope_id"
  ok (record { scope_id = scope_id; counter = counter })
