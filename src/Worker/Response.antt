-- ===== src/Worker/Response.antt =====
-- worker/main.py: the responses that the worker builds of a row of `messages`, and the check of a
-- response that an earlier request has left. A response is a dict.
use cloud_portfolio.Prelude.{
  is_some, ℕ, zero, ◌%◌, ◌^◌, pos, Bool, true, false, ◌&&◌, not, Option, none, some, length, ltb,
  ◌==◌, if◌then◌else◌, Text, codes, is_empty,
}
use cloud_portfolio.Errors.{Result, ok, err}
use cloud_portfolio.Json.{
  Value, null, bool, int, float, str, arr, obj, nil, Fields, end, field, get,
}
use cloud_portfolio.Json.Checks.{
  short_text, positive_bigint, smallint_version, get_or, get_value, number, text_or_null,
}
use cloud_portfolio.Database.Tables.{Message, CachedResponse}
use cloud_portfolio.Worker.Envelope.{event_envelope}

non_empty_or : Text → Text → Text
non_empty_or s default = if is_empty s then default else s

payload_or_text : Option Fields → Text → Fields
payload_or_text none body = field (codes "text") (str body) end
payload_or_text (some payload) body = payload

-- `row.get("schema_version") or 1`
version_or_one : ℕ → ℕ
version_or_one n = if n == 0 then 1 else n

-- `_message_row_response`
unfoldable pub message_row_response : Message → Fields
unfolding non_empty_or payload_or_text version_or_one
message_row_response row = field (codes "id") (number row.id) (
    field (codes "request_id") (str row.request_id) (
      field (codes "status") (str (codes "persisted")) (
        field (codes "room_id") (number row.room_id) (
          field (codes "room_seq") (number row.room_seq) (
            field (codes "user_id") (number row.user_id) (
              field (codes "actor_id") (number row.user_id) (
                field (codes "body") (str row.body) (
                  field (codes "event_type")
                    (str (non_empty_or row.event_type (codes "legacy.message")))
                    (field (codes "category") (text_or_null row.category) (
                      field (codes "payment_id") (text_or_null row.payment_id) (
                        field (codes "schema_version") (number (version_or_one row.schema_version))
                          (field (codes "payload") (obj (payload_or_text row.payload row.body)) (
                            field (codes "metadata") (obj row.metadata)
                              (field (codes "created_at") (str row.created_at) end))))))))))))))

-- `actor_id` is `None`, or an id that equals `user_id`.
actor_agrees : Value → ℕ → Bool
unfolding positive_bigint
actor_agrees null user_id = true
actor_agrees v user_id = elim (positive_bigint (some v)) [ none ↦ false | some a ↦ a == user_id ]

is_body : Option Value → Bool
is_body (some (str s)) = not (ltb 1000 (length s))
is_body _ = false

is_created_at : Option Value → Bool
is_created_at (some (str s)) = not (is_empty s)
is_created_at _ = false

abbrev is_ok {ℓ} : {A : Type ℓ} → Result A → Bool
is_ok (ok a) = true
is_ok (err e) = false

equals : Option ℕ → ℕ → Bool
equals none n = false
equals (some m) n = m == n

-- The checks that a response passes which is used again.
usable_response : ℕ → ℕ → Fields → Bool
unfolding get get_or get_value equals positive_bigint actor_agrees short_text is_body is_created_at
    smallint_version event_envelope
usable_response user_id room_id d =
    is_some (positive_bigint (get (codes "id") d))
    && (is_some (positive_bigint (get (codes "room_seq") d))
        && (equals (positive_bigint (get (codes "user_id") d)) user_id
            && (equals (positive_bigint (get (codes "room_id") d)) room_id
                && (actor_agrees (get_value (codes "actor_id") d) user_id
                    && (is_some (short_text 80 (get (codes "request_id") d))
                        && (is_body (get (codes "body") d)
                            && (is_created_at (get (codes "created_at") d)
                                && (is_some (
                                      smallint_version
                                        (some (get_or (codes "schema_version") (number 1) d)))
                                    && is_ok (event_envelope d)))))))))

usable_object : ℕ → ℕ → Value → Option Fields
unfolding usable_response
usable_object user_id room_id (obj d) = if usable_response user_id room_id d then some d else none
usable_object user_id room_id _ = none

-- `_validated_idempotency_response`
unfoldable pub validated_idempotency_response : Option CachedResponse → ℕ → ℕ → Option Fields
unfolding usable_object
validated_idempotency_response none user_id room_id = none
validated_idempotency_response (some row) user_id room_id =
    usable_object user_id room_id row.response_json

-- `bool(v)`
unfoldable pub truthy : Value → Bool
truthy null = false
truthy (bool b) = b
truthy (int (pos zero)) = false
truthy (int n) = true
truthy (float bits repr) = not (bits % 2 ^ 63 == 0)
truthy (str s) = not (is_empty s)
truthy (arr nil) = false
truthy (arr xs) = true
truthy (obj end) = false
truthy (obj d) = true
