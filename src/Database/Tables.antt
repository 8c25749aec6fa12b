-- ===== src/Database/Tables.antt =====
-- The rows of the tables, and the database as one record.
use cloud_portfolio.Prelude.{ℕ, Option, List, Text}
use cloud_portfolio.Json.{Value, Fields}

-- A column of type JSONB with an object is a dict. `payload` is NULL in rows older than the column.
pub record Message : Type 0 where
  pub id : ℕ
  pub request_id : Text
  pub room_id : ℕ
  pub user_id : ℕ
  pub event_type : Text
  pub category : Option Text
  pub payment_id : Option Text
  pub schema_version : ℕ
  pub payload : Option Fields
  pub metadata : Fields
  pub body : Text
  pub room_seq : ℕ
  pub created_at : Text

-- `idempotency_keys`, with the primary key (route, idem_key).
pub record CachedResponse : Type 0 where
  pub route : Text
  pub idem_key : Text
  pub response_json : Value

-- `request_statuses`, with the primary key `request_id`.
pub record RequestStatus : Type 0 where
  pub request_id : Text
  pub user_id : Option ℕ
  pub status_json : Fields

-- `notification_outbox`, with the primary key `message_id`. Times are seconds of the database.
pub record Intent : Type 0 where
  pub message_id : ℕ
  pub room_id : ℕ
  pub payload : Fields
  pub next_attempt_at : ℕ
  pub attempts : ℕ
  pub last_error : Option Text
  pub published_at : Option ℕ

-- `notification_attempts`, unique by `message_id`.
pub record Attempt : Type 0 where
  pub message_id : ℕ
  pub room_id : ℕ
  pub payload : Fields

-- `intake_idempotency_keys`, with the primary key (route, idem_key); `created_at` in seconds.
pub record IntakeKey : Type 0 where
  pub route : Text
  pub idem_key : Text
  pub request_id : Text
  pub created_at : ℕ

-- A row of `room_sequences`.
pub record Sequence : Type 0 where
  pub room_id : ℕ
  pub last_seq : ℕ

-- `rooms` and `users` hold ids, `members` and `receipts` pairs: a room and a user of it, a message and a
-- user who has read it. `jsonb` is what the server gives back of a dict that was stored in a JSONB column:
-- PostgreSQL orders the keys and writes numbers in its own way. `next_message_id` is the sequence of `messages.id`, which a rollback does not reset.
pub record Database : Type 0 where
  pub rooms : List ℕ
  pub users : List ℕ
  pub members : List (ℕ × ℕ)
  pub sequences : List Sequence
  pub messages : List Message
  pub next_message_id : ℕ
  pub cached : List CachedResponse
  pub statuses : List RequestStatus
  pub outbox : List Intent
  pub attempts : List Attempt
  pub intake : List IntakeKey
  pub receipts : List (ℕ × ℕ)
  pub jsonb : Fields → Fields

-- The time of a statement: the seconds of the database's clock, and the text of the same time.
pub record Moment : Type 0 where
  pub seconds : ℕ
  pub iso : Text
