-- ===== src/Worker/Consume.antt =====
-- worker/main.py: `handle_ingress_job`, from the value of a record to its outcome.
use cloud_portfolio.Prelude.{
  ℕ, Bool, true, false, Option, some, if◌then◌else◌, Text, codes, text_eq, decimal, List,
}
use cloud_portfolio.Errors.{Error, Result, ok, err, value_error, other_error, class_name}
use cloud_portfolio.Json.{Value, str, obj}
use cloud_portfolio.Worker.Job.{Job, job_fields}
use cloud_portfolio.Worker.Ingress.{validate_ingress_payload}
use cloud_portfolio.Worker.Notice.{is_invalid_kafka_payload}
use cloud_portfolio.Worker.World.{World, Round}
use cloud_portfolio.Worker.Handle.{Outcome, dlq, handle_validated_job}
use cloud_portfolio.Worker.Rejection.{
  Raw, bytes, decoded, marked, Codec, move_invalid_ingress_to_dlq,
}

-- The settings, and the parts of Python's library that the handler calls. `loads` is `json.loads`, of
-- a text or of bytes, with the text of the exception that it raises.
pub record Setting : Type 0 where
  pub max_retries : ℕ
  pub base_delay : Option ℕ
  pub is_aware : Text → Bool
  pub loads : Text → Result Value
  pub loads_bytes : List ℕ → Result Value
  pub codec : Codec

-- `raw if isinstance(raw, dict) else json.loads(raw)`
decode_raw : Setting → Raw → Result Value
decode_raw s (bytes b) = s.loads_bytes b
decode_raw s (decoded (obj d)) = ok (obj d)
decode_raw s (decoded (str t)) = s.loads t
decode_raw s (decoded v) = err (other_error (codes "TypeError"))
decode_raw s (marked d) = ok (obj d)

-- `str(exc)` of an exception of the validation.
message_of : Error → Text
unfolding class_name
message_of (value_error m) = m
message_of e = class_name e

is_marked_value : Value → Bool
unfolding is_invalid_kafka_payload
is_marked_value (obj d) = is_invalid_kafka_payload d
is_marked_value _ = false

-- The value that the validation has left: a dict is changed in place, so the raw dict is too.
changed_raw : Raw → Value → Raw
changed_raw (decoded (obj d)) v = decoded v
changed_raw (marked d) (obj d') = marked d'
changed_raw raw v = raw

-- The job, or the reason and the raw value of the rejection.
pub data Reading : Type 0 where
  valid : Job → Reading
  invalid : Raw → Text → Reading

validated : Raw → Result Job × Value → Reading
unfolding message_of changed_raw
validated raw (ok job, v) = valid job
validated raw (err e, v) = invalid (changed_raw raw v) (message_of e)

read_value : Setting → Raw → Value → Reading
unfolding is_marked_value validated validate_ingress_payload
read_value s raw v =
    if is_marked_value v
    then invalid raw (codes "Kafka payload is marked as invalid")
    else validated raw (validate_ingress_payload s.is_aware v)

unfoldable pub read_ingress : Setting → Raw → Reading
unfolding decode_raw read_value message_of
read_ingress s raw = elim (decode_raw s raw) [
  | err e ↦ invalid raw (message_of e)
  | ok v ↦ read_value s raw v
]

-- The key of the record: `absent` where the caller passes none, `text` of the key as decoded, and
-- `unusable` for one that is no text and no number, or does not decode.
pub data Key : Type 0 where
  absent unusable : Key
  text : Text → Key

key_matches : Key → ℕ → Bool
unfolding text_eq decimal
key_matches absent room_id = true
key_matches unusable room_id = false
key_matches (text k) room_id = text_eq k (decimal room_id)

rejected_to_dlq : Result (Unit {0}) × World → Result Outcome × World
rejected_to_dlq (ok u, w) = (ok dlq, w)
rejected_to_dlq (err e, w) = (err e, w)

handle_reading : Setting → (ℕ → Round) → Key → Reading → World → Option (Result Outcome × World)
unfolding key_matches rejected_to_dlq handle_validated_job move_invalid_ingress_to_dlq job_fields
handle_reading s rounds key (invalid raw reason) w =
    some (rejected_to_dlq (move_invalid_ingress_to_dlq s.codec (rounds 0) raw reason w))
handle_reading s rounds key (valid job) w =
    if key_matches key job.room_id
    then handle_validated_job s.max_retries s.base_delay rounds job w
    else some (
        rejected_to_dlq (
          move_invalid_ingress_to_dlq s.codec (rounds 0) (decoded (obj (job_fields job)))
            (codes "kafka_key_stream_id_mismatch") w))

-- `handle_ingress_job`
unfoldable pub handle_ingress_job :
    Setting → (ℕ → Round) → Key → Raw → World → Option (Result Outcome × World)
unfolding read_ingress handle_reading
handle_ingress_job s rounds key raw w = handle_reading s rounds key (read_ingress s raw) w
