-- ===== src/Worker/Outbox.antt =====
-- worker/outbox.py: the intents to notify, and the relay that publishes them.
pub mod Intents
pub mod Relayed
pub mod Order
use cloud_portfolio.Prelude.{
  ℕ, zero, suc, ◌+◌, ◌^◌, min, Bool, true, false, ◌&&◌, ◌||◌, not, Option, none, some, List, [],
  ◌∷◌, ◌++◌, ltb, leb, ◌==◌, if◌then◌else◌, Text,
}
use cloud_portfolio.Errors.{Error, class_name}
use cloud_portfolio.Json.{Fields}
use cloud_portfolio.Database.Tables.{Database, Intent}
use cloud_portfolio.Database.Find.{find, update_where}

unfoldable pub is_intent : ℕ → Intent → Bool
is_intent message_id row = row.message_id == message_id

insert_unless : Intent → List Intent → Option Intent → List Intent
insert_unless row rows (some old) = rows
insert_unless row rows none = rows ++ row ∷ []

-- INSERT INTO notification_outbox … ON CONFLICT (message_id) DO NOTHING
unfoldable pub insert_intent : Intent → List Intent → List Intent
unfolding find is_intent insert_unless
insert_intent row rows = insert_unless row rows (find (is_intent row.message_id) rows)

-- `enqueue_notification`, at a time of the database.
unfoldable pub enqueue_notification : ℕ → ℕ → Fields → ℕ → Database → Database
unfolding insert_intent
enqueue_notification event_id stream_id payload now db = record db {
  outbox =
      insert_intent
        (record {
          message_id = event_id;
          room_id = stream_id;
          payload = payload;
          next_attempt_at = now;
          attempts = 0;
          last_error = none;
          published_at = none;
        })
        db.outbox;
}

abbrev pub is_unpublished : Option ℕ → Bool
is_unpublished none = true
is_unpublished (some t) = false

-- published_at IS NULL AND next_attempt_at <= clock_timestamp()
unfoldable pub is_due : ℕ → Intent → Bool
is_due now row = is_unpublished row.published_at && leb row.next_attempt_at now

-- ORDER BY next_attempt_at, message_id
unfoldable pub is_before : Intent → Intent → Bool
is_before a b =
    ltb a.next_attempt_at b.next_attempt_at
    || (a.next_attempt_at == b.next_attempt_at && ltb a.message_id b.message_id)

earlier : Intent → Option Intent → Intent
unfolding is_before
earlier a none = a
earlier a (some b) = if is_before b a then b else a

-- The due row that comes first, LIMIT 1, among those that no other relay has locked.
unfoldable pub first_due : (ℕ → Bool) → ℕ → List Intent → Option Intent
unfolding is_due earlier
first_due locked now [] = none
first_due locked now (row ∷ rows) =
    let rest = first_due locked now rows in
    if is_due now row && not (locked row.message_id) then some (earlier row rest) else rest

-- min(60, 2 ** min(attempts, 6))
unfoldable pub backoff_seconds : ℕ → ℕ
backoff_seconds attempts = min 60 (2 ^ min attempts 6)

unfoldable pub note_failure : Error → ℕ → Intent → Intent
unfolding backoff_seconds class_name
note_failure e now row = record row {
  attempts = row.attempts + 1;
  last_error = some (class_name e);
  next_attempt_at = now + backoff_seconds row.attempts;
}

unfoldable pub note_published : ℕ → Intent → Intent
note_published now row = record row {
  published_at = some now;
  attempts = row.attempts + 1;
  last_error = none;
}

-- What `publish_notification_job` does: the record is appended and acknowledged, is refused, or is
-- appended although the call raises.
pub data Send : Type 0 where
  acknowledged : Send
  refused unanswered : Error → Send

-- How the transaction of the relay ends after the send.
pub data Commit : Type 0 where
  committed : Commit
  lost : Commit

-- The outbox and the notification topic.
pub record Relay : Type 0 where
  pub outbox : List Intent
  pub topic : List (ℕ × Fields)

appended : Send → Intent → List (ℕ × Fields) → List (ℕ × Fields)
appended acknowledged row topic = topic ++ (row.room_id, row.payload) ∷ []
appended (refused e) row topic = topic
appended (unanswered e) row topic = topic ++ (row.room_id, row.payload) ∷ []

noted : Send → ℕ → Intent → Intent
unfolding note_failure note_published
noted acknowledged now row = note_published now row
noted (refused e) now row = note_failure e now row
noted (unanswered e) now row = note_failure e now row

settle : Commit → Send → ℕ → Intent → List Intent → List Intent
unfolding update_where is_intent noted
settle committed send now row rows = update_where (is_intent row.message_id) (noted send now) rows
settle lost send now row rows = rows

relay_row : Option Intent → Send → Commit → ℕ → Relay → Bool × Relay
unfolding appended settle
relay_row none send commit now relay = (false, relay)
relay_row (some row) send commit now relay = (
  true,
  record {
    outbox = settle commit send now row relay.outbox;
    topic = appended send row relay.topic;
  },
)

-- `relay_once`: whether a row was found, and what the outbox and the topic are after it. Where the
-- commit is lost the call raises, and `run_outbox_loop` goes on with the next round.
unfoldable pub relay_once : (ℕ → Bool) → Send → Commit → ℕ → Relay → Bool × Relay
unfolding first_due relay_row
relay_once locked send commit now relay =
    relay_row (first_due locked now relay.outbox) send commit now relay

-- `observe_backlog`: the number of rows that are not published.
unfoldable pub pending : List Intent → ℕ
pending [] = 0
pending (row ∷ rows) = if is_unpublished row.published_at then suc (pending rows) else pending rows
