-- ===== src/Api/Schemas.antt =====
-- portfolio/schemas.py: the bodies of the requests that post events, and of the headers and path
-- parameters that portfolio/api.py declares. A request that fails a check is answered with 422 before
-- the endpoint runs; the parsing of the body into its fields is the framework's.
pub mod Checked
use cloud_portfolio.Prelude.{
  ℕ, ◌&&◌, ◌||◌, Bool, true, not, Option, none, some, ltb, leb, length, if◌then◌else◌, Text, codes,
  has_nul,
}
use cloud_portfolio.Errors.{Result, ok, err, value_error, ◌>>=◌, ◌>>◌, raise_if}
use cloud_portfolio.Json.{str, obj, Fields}
use cloud_portfolio.Json.Checks.{max_postgres_bigint}
use cloud_portfolio.Json.Structure.{
  validate_json_structure, max_json_nesting_depth, is_generic_event_type,
}
use cloud_portfolio.Worker.Envelope.{json_size}

-- `_unicode_scalar_text`
unicode_scalar_text : Text → Result Text
unfolding validate_json_structure
unicode_scalar_text value = validate_json_structure max_json_nesting_depth (str value) >> ok value

-- `UnicodeScalarText` with `min_length` and `max_length`.
scalar_text : ℕ → ℕ → Text → Result Text
unfolding unicode_scalar_text
scalar_text min_length max_length value =
    raise_if (ltb (length value) min_length || ltb max_length (length value))
      (codes "length out of range")
    >> unicode_scalar_text value

pub record EventCreate : Type 0 where
  pub body : Text

unfoldable pub event_create : Text → Result EventCreate
unfolding scalar_text
event_create body = do body ← scalar_text 1 1000 body; ok (record { body = body })

pub record OrderEventCreate : Type 0 where
  pub event_type : Text
  pub body : Text
  pub payment_id : Option Text

payment_field : Option Text → Result (Option Text)
unfolding scalar_text
payment_field none = ok none
payment_field (some s) = scalar_text 0 80 s >>= λ t. ok (some t)

unfoldable pub order_event_create : Text → Text → Option Text → Result OrderEventCreate
unfolding scalar_text payment_field
order_event_create event_type body payment_id = do
  event_type ← scalar_text 1 50 event_type
  body ← scalar_text 1 1000 body
  payment_id ← payment_field payment_id
  ok (record { event_type = event_type; body = body; payment_id = payment_id })

pub record GenericEventCreate : Type 0 where
  pub event_type : Text
  pub payload : Fields
  pub metadata : Fields

-- The fields, and then `validate_envelope_size`.
unfoldable pub generic_event_create : Text → Fields → Fields → Result GenericEventCreate
unfolding is_generic_event_type validate_json_structure json_size
generic_event_create event_type payload metadata = do
  raise_if (ltb (length event_type) 1 || ltb 50 (length event_type)) (codes "length out of range")
  raise_if (not (is_generic_event_type event_type)) (codes "pattern does not match")
  validate_json_structure max_json_nesting_depth (obj payload)
  validate_json_structure max_json_nesting_depth (obj metadata)
  raise_if (ltb 65536 (json_size payload)) (codes "payload must not exceed 65536 UTF-8 JSON bytes")
  raise_if (ltb 16384 (json_size metadata))
      (codes "metadata must not exceed 16384 UTF-8 JSON bytes")
  ok (record { event_type = event_type; payload = payload; metadata = metadata })

-- `Header(default=None, min_length=1, max_length=128, pattern=r"^[^\x00]+$")`
unfoldable pub is_idempotency_header : Option Text → Bool
unfolding has_nul
is_idempotency_header none = true
is_idempotency_header (some s) = leb 1 (length s) && (leb (length s) 128 && not (has_nul s))
