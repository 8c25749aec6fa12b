-- ===== src/Worker/Job.antt =====
-- worker/main.py: the job, which `_validate_ingress_payload` returns as a new dict with fixed keys.
use cloud_portfolio.Prelude.{ℕ, Option, Text, codes}
use cloud_portfolio.Json.{str, obj, Fields, end, field}
use cloud_portfolio.Json.Checks.{number, number_or_null, text_or_null, optional_text}

-- `next_retry_at` is a time of the worker's clock, in milliseconds. The last two fields are set
-- when the job is given up.
pub record Job : Type 0 where
  pub request_id : Text
  pub route : Text
  pub room_id : ℕ
  pub user_id : ℕ
  pub room_seq : Option ℕ
  pub schema_version : ℕ
  pub event_type : Text
  pub payload : Fields
  pub metadata : Fields
  pub body : Text
  pub x_idempotency_key : Option Text
  pub retry_count : ℕ
  pub replay_count : ℕ
  pub next_retry_at : Option ℕ
  pub queued_at : Option Text
  pub replayed_at : Option Text
  pub payment_id : Option Text

-- The dict `normalized`, in the order of its keys.
unfoldable pub job_fields : Job → Fields
job_fields j = field (codes "request_id") (str j.request_id) (
    field (codes "route") (str j.route) (
      field (codes "room_id") (number j.room_id) (
        field (codes "user_id") (number j.user_id) (
          field (codes "room_seq") (number_or_null j.room_seq) (
            field (codes "schema_version") (number j.schema_version) (
              field (codes "event_type") (str j.event_type) (
                field (codes "payload") (obj j.payload) (
                  field (codes "metadata") (obj j.metadata) (
                    field (codes "body") (str j.body) (
                      field (codes "x_idempotency_key") (text_or_null j.x_idempotency_key) (
                        field (codes "retry_count") (number j.retry_count) (
                          field (codes "replay_count") (number j.replay_count) (
                            field (codes "next_retry_at") (number_or_null j.next_retry_at) (
                              optional_text (codes "queued_at") j.queued_at (
                                optional_text (codes "replayed_at") j.replayed_at (
                                  optional_text (codes "payment_id") j.payment_id
                                    end))))))))))))))))
