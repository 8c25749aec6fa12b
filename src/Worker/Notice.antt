-- ===== src/Worker/Notice.antt =====
-- worker/main.py: `_normalize_notification_payload` and the records of `notification_attempts`.
use cloud_portfolio.Prelude.{
  ℕ, Bool, false, ◌&&◌, ◌||◌, Option, none, some, List, [], ◌∷◌, ◌++◌, any, length, ltb, ◌==◌,
  if◌then◌else◌, Text, codes, has_nul,
}
use cloud_portfolio.Errors.{Result, ok, err, value_error, target_missing, ◌>>=◌, ◌>>◌, raise_if}
use cloud_portfolio.Json.{Value, null, bool, str, obj, Fields, end, field, get}
use cloud_portfolio.Json.Checks.{short_text, positive_bigint, or_raise, get_or, number}
use cloud_portfolio.Json.Structure.{validate_json_structure, max_json_nesting_depth}
use cloud_portfolio.Database.Tables.{Database, Attempt, Message}
use cloud_portfolio.Database.Find.{find}
use cloud_portfolio.Worker.Envelope.{validate_alias_pair, json_size, max_metadata_bytes}

pub record Notice : Type 0 where
  pub event_id : ℕ
  pub stream_id : ℕ
  pub event_type : Text
  pub payload_preview : Text
  pub metadata : Fields
  pub body_preview : Text

is_true : Option Value → Bool
is_true (some (bool b)) = b
is_true _ = false

-- `is_invalid_kafka_payload` of a dict.
unfoldable pub is_invalid_kafka_payload : Fields → Bool
unfolding is_true get
is_invalid_kafka_payload d = is_true (get (codes "__invalid_kafka_payload__") d)

-- A text, perhaps empty, of at most `limit` characters, none of them NUL.
preview_text : ℕ → Value → Option Text
unfolding has_nul
preview_text limit (str s) = if ltb limit (length s) || has_nul s then none else some s
preview_text limit _ = none

as_object : Text → Value → Result Fields
as_object message (obj d) = ok d
as_object message _ = err (value_error message)

-- `payload.get(canonical, payload.get(legacy))`
either_key : Text → Text → Fields → Value
unfolding get_or
either_key canonical legacy d = get_or canonical (get_or legacy null d) d

-- `_normalize_notification_payload` of a dict.
normalize_fields : Fields → Result Notice
unfolding is_invalid_kafka_payload validate_alias_pair either_key positive_bigint short_text get_or
    preview_text as_object validate_json_structure json_size
normalize_fields d = do
  raise_if (is_invalid_kafka_payload d) (codes "Notification payload must be a valid JSON object")
  validate_alias_pair d (codes "event_id") (codes "message_id")
  validate_alias_pair d (codes "stream_id") (codes "room_id")
  event_id ←
      or_raise (positive_bigint (some (either_key (codes "event_id") (codes "message_id") d)))
        (codes "Invalid notification event_id")
  stream_id ←
      or_raise (positive_bigint (some (either_key (codes "stream_id") (codes "room_id") d)))
        (codes "Invalid notification stream_id")
  event_type ←
      or_raise (short_text 50 (some (get_or (codes "event_type") (str (codes "legacy.message")) d)))
        (codes "Invalid notification event_type")
  let body_value = get_or (codes "body_preview") (str []) d
  body_preview ← or_raise (preview_text 30 body_value) (codes "Invalid notification body_preview")
  payload_preview ←
      or_raise (preview_text 120 (get_or (codes "payload_preview") body_value d))
        (codes "Invalid notification payload_preview")
  metadata ←
      as_object (codes "Invalid notification metadata") (get_or (codes "metadata") (obj end) d)
  validate_json_structure max_json_nesting_depth (obj metadata)
  raise_if (ltb max_metadata_bytes (json_size metadata))
      (codes "Notification metadata exceeds 16384 UTF-8 JSON bytes")
  ok (record {
    event_id = event_id;
    stream_id = stream_id;
    event_type = event_type;
    payload_preview = payload_preview;
    metadata = metadata;
    body_preview = body_preview;
  })

-- `_normalize_notification_payload`
unfoldable pub normalize_notification_payload : Value → Result Notice
unfolding normalize_fields
normalize_notification_payload (obj d) = normalize_fields d
normalize_notification_payload _ =
    err (value_error (codes "Notification payload must be a valid JSON object"))

-- The dict that `_normalize_notification_payload` returns.
unfoldable pub notice_fields : Notice → Fields
notice_fields n = field (codes "event_id") (number n.event_id) (
    field (codes "stream_id") (number n.stream_id) (
      field (codes "message_id") (number n.event_id) (
        field (codes "room_id") (number n.stream_id) (
          field (codes "event_type") (str n.event_type) (
            field (codes "payload_preview") (str n.payload_preview) (
              field (codes "metadata") (obj n.metadata)
                (field (codes "body_preview") (str n.body_preview) end)))))))

-- messages WHERE id=… AND room_id=…
unfoldable pub has_target : Notice → List Message → Bool
has_target n rows = any (λ row. row.id == n.event_id && row.room_id == n.stream_id) rows

unfoldable pub is_attempt : ℕ → Attempt → Bool
is_attempt message_id row = row.message_id == message_id

-- INSERT INTO notification_attempts … ON CONFLICT (message_id) DO NOTHING
unfoldable pub add_attempt : Notice → List Attempt → List Attempt
unfolding find is_attempt notice_fields
add_attempt n rows = elim (find (is_attempt n.event_id) rows) [
  | some old ↦ rows
  | none ↦
      rows
      ++ record { message_id = n.event_id; room_id = n.stream_id; payload = notice_fields n } ∷ []
]

-- `insert_notification_attempt`
unfoldable pub insert_notification_attempt : Notice → Database → Result (Unit {0}) × Database
unfolding has_target add_attempt
insert_notification_attempt n db =
    if has_target n db.messages
    then (ok tt, record db { attempts = add_attempt n db.attempts })
    else (err target_missing, db)

add_targets : List Notice → List Message → List Attempt → List Attempt
unfolding has_target add_attempt
add_targets [] messages rows = rows
add_targets (n ∷ ns) messages rows =
    add_targets ns messages (if has_target n messages then add_attempt n rows else rows)

targets_of : List Notice → List Message → List (ℕ × ℕ)
unfolding has_target
targets_of [] messages = []
targets_of (n ∷ ns) messages =
    let rest = targets_of ns messages in
    if has_target n messages then (n.event_id, n.stream_id) ∷ rest else rest

-- `insert_notification_attempt_batch`: the pairs of ids that have a target. Of several payloads with
-- the same target the first is written.
unfoldable pub insert_notification_attempt_batch :
    List Notice → Database → Result (List (ℕ × ℕ)) × Database
unfolding add_targets targets_of
insert_notification_attempt_batch notices db = (
  ok (targets_of notices db.messages),
  record db { attempts = add_targets notices db.messages db.attempts },
)
