-- ===== src/Json/Checks.antt =====
-- The checks of single fields that the validators repeat, and the values that dicts are built of.
use cloud_portfolio.Prelude.{
  ℕ, ◌-◌, ◌^◌, ◌&&◌, ◌||◌, Option, none, some, length, ltb, leb, if◌then◌else◌, pos, Text, has_nul,
  is_empty,
}
use cloud_portfolio.Errors.{Result, ok, err, value_error}
use cloud_portfolio.Json.Data.{Value, null, int, str, Fields, field, get}

abbrev pub max_postgres_bigint : ℕ
max_postgres_bigint = 2 ^ 63 - 1

-- A non-empty `str` of at most `limit` characters, none of them NUL.
unfoldable pub short_text : ℕ → Option Value → Option Text
unfolding has_nul
short_text limit (some (str s)) =
    if is_empty s || ltb limit (length s) || has_nul s then none else some s
short_text limit _ = none

-- An `int` that is no `bool`, above 0 and within a PostgreSQL BIGINT.
unfoldable pub positive_bigint : Option Value → Option ℕ
positive_bigint (some (int (pos n))) = if ltb 0 n && leb n max_postgres_bigint then some n else none
positive_bigint _ = none

-- An `int` that is no `bool`, at least 0 and within a PostgreSQL BIGINT.
unfoldable pub counter_bigint : Option Value → Option ℕ
counter_bigint (some (int (pos n))) = if leb n max_postgres_bigint then some n else none
counter_bigint _ = none

-- An `int` that is no `bool`, between 1 and 32,767.
unfoldable pub smallint_version : Option Value → Option ℕ
smallint_version (some (int (pos n))) = if leb 1 n && leb n 32767 then some n else none
smallint_version _ = none

-- `or raise ValueError(message)`
abbrev pub or_raise {ℓ} : {A : Type ℓ} → Option A → Text → Result A
or_raise none message = err (value_error message)
or_raise (some a) message = ok a

-- `d.get(k, default)`
unfoldable pub get_or : Text → Value → Fields → Value
unfolding get
get_or k default d = elim (get k d) [ none ↦ default | some v ↦ v ]

-- `d.get(k)`: a missing key reads as `None`.
unfoldable pub get_value : Text → Fields → Value
unfolding get_or
get_value k d = get_or k null d

abbrev pub number : ℕ → Value
number n = int (pos n)

abbrev pub number_or_null : Option ℕ → Value
number_or_null none = null
number_or_null (some n) = number n

abbrev pub text_or_null : Option Text → Value
text_or_null none = null
text_or_null (some s) = str s

abbrev pub optional_text : Text → Option Text → Fields → Fields
optional_text k none rest = rest
optional_text k (some s) rest = field k (str s) rest
