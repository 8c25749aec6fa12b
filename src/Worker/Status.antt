-- ===== src/Worker/Status.antt =====
-- worker/main.py: what the worker writes of a response, `persisted_status_payload` and
-- `notification_attempt_payload`.
use cloud_portfolio.Prelude.{zero, none, some, pos, Text, codes, take, if◌then◌else◌}
use cloud_portfolio.Errors.{Result, ok, err, key_error, other_error, ◌>>=◌}
use cloud_portfolio.Json.{Value, null, int, str, obj, Fields, end, field, get}
use cloud_portfolio.Json.Checks.{get_value, number}
use cloud_portfolio.Worker.Envelope.{Envelope, event_envelope, legacy_body_preview}
use cloud_portfolio.Worker.Response.{truthy}

-- `d[k]`
require : Text → Fields → Result Value
unfolding get
require k d = elim (get k d) [ none ↦ err key_error | some v ↦ ok v ]

-- `int(v or 1)`, of the numbers and the `None` that a response holds.
version_value : Value → Result Value
version_value null = ok (number 1)
version_value (int (pos zero)) = ok (number 1)
version_value (int n) = ok (int n)
version_value _ = err (other_error (codes "TypeError"))

preview_body : Envelope → Fields → Value
unfolding get_value truthy legacy_body_preview
preview_body e response =
    let body = get_value (codes "body") response in
    if truthy body then body else str (legacy_body_preview e.payload)

-- The keys of the envelope, added at the end by `payload.update`, after the time of persistence.
envelope_keys : Envelope → Fields → Value → Fields
unfolding get_value
envelope_keys e response version = field (codes "event_type") (str e.event_type) (
    field (codes "category") (get_value (codes "category") response) (
      field (codes "payment_id") (get_value (codes "payment_id") response) (
        field (codes "schema_version") version (
          field (codes "payload") (obj e.payload)
            (field (codes "metadata") (obj e.metadata) end)))))

present : Text → Value → Fields → Fields
present k null rest = rest
present k v rest = field k v rest

-- `persisted_status_payload`
unfoldable pub persisted_status_payload : Text → Fields → Result Fields
unfolding event_envelope require get_value preview_body version_value envelope_keys present
persisted_status_payload request_id response = do
  e ← event_envelope response
  message_id ← require (codes "id") response
  room_id ← require (codes "room_id") response
  room_seq ← require (codes "room_seq") response
  user_id ← require (codes "user_id") response
  created_at ← require (codes "created_at") response
  version ← version_value (get_value (codes "schema_version") response)
  ok (
      field (codes "request_id") (str request_id) (
        field (codes "status") (str (codes "persisted")) (
          field (codes "message_id") message_id (
            field (codes "room_id") room_id (
              field (codes "room_seq") room_seq (
                field (codes "user_id") user_id (
                  field (codes "actor_id") user_id (
                    field (codes "body") (preview_body e response) (
                      field (codes "created_at") created_at (
                        present (codes "persisted_at") (get_value (codes "persisted_at") response)
                          (envelope_keys e response version)))))))))))

unfoldable pub notice_payload : Fields → Result Envelope → Result Fields
unfolding require legacy_body_preview
notice_payload response (err e) = err e
notice_payload response (ok e) = do
  event_id ← require (codes "id") response
  stream_id ← require (codes "room_id") response
  ok (
      field (codes "event_id") event_id (
        field (codes "stream_id") stream_id (
          field (codes "message_id") event_id (
            field (codes "room_id") stream_id (
              field (codes "event_type") (str e.event_type) (
                field (codes "payload_preview") (str (take 120 (legacy_body_preview e.payload))) (
                  field (codes "metadata") (obj e.metadata) (
                    field (codes "body_preview") (str (take 30 (legacy_body_preview e.payload)))
                      end))))))))

-- `notification_attempt_payload`
unfoldable pub notification_attempt_payload : Fields → Result Fields
unfolding event_envelope notice_payload
notification_attempt_payload response = notice_payload response (event_envelope response)
