-- ===== src/Persistence/Timestamps.antt =====
-- `encode_utc_timestamp` of persistence/_transactional_writers.py, and SQLite's order of its texts.
use powerfactory_mcp.Prelude.{
  ℕ, ◌+◌, ◌/◌, ◌%◌, Bool, true, false, List, [], ◌∷◌, ltb, nat_eq, if◌then◌else◌,
}
use powerfactory_mcp.Domain.Values.{Datetime}

-- An encoded timestamp. `isoformat` writes the date and the time of day down to the second in
-- nineteen characters of fixed width. `seconds` stands for them: that their order as text is that of
-- the whole seconds is an assumption of the model. What follows is `suffix`, byte for byte.
pub record Timestamp : Type 0 where
  pub seconds : ℕ
  pub suffix : List ℕ

abbrev digit : ℕ → ℕ
digit d = 48 + d % 10

-- `isoformat` leaves the fraction out when it is zero, and writes six digits otherwise; the `Z`
-- takes the place of `+00:00`.
unfoldable pub encode_suffix : ℕ → List ℕ
encode_suffix fraction =
    if nat_eq fraction 0
    then b'Z' ∷ []
    else b'.'
      ∷ digit (fraction / 100000)
      ∷ digit (fraction / 10000)
      ∷ digit (fraction / 1000)
      ∷ digit (fraction / 100)
      ∷ digit (fraction / 10)
      ∷ digit fraction
      ∷ b'Z'
      ∷ []

unfoldable pub encode_utc_timestamp : Datetime → Timestamp
unfolding encode_suffix
encode_utc_timestamp value = record {
  seconds = value.micros / 1000000;
  suffix = encode_suffix (value.micros % 1000000);
}

-- `<=` of two texts: SQLite compares their bytes in order.
unfoldable pub text_le : List ℕ → List ℕ → Bool
text_le [] ys = true
text_le (x ∷ xs) [] = false
text_le (x ∷ xs) (y ∷ ys) =
    let rest = text_le xs ys in if ltb x y then true else if nat_eq x y then rest else false

unfoldable pub timestamp_le : Timestamp → Timestamp → Bool
unfolding text_le
timestamp_le a b =
    if ltb a.seconds b.seconds
    then true
    else if nat_eq a.seconds b.seconds
    then text_le a.suffix b.suffix
    else false
