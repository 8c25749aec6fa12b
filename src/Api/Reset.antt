-- ===== src/Api/Reset.antt =====
-- portfolio/api.py: `reset_demo_events` and the functions that it calls.
pub mod Topic
pub mod Empty
use cloud_portfolio.Prelude.{
  ℕ, Bool, true, false, not, Option, none, some, List, [], length, if◌then◌else◌, Text, codes,
  text_eq, ◌+◌,
}
use cloud_portfolio.Errors.{Error, Result, ok, err}
use cloud_portfolio.Database.Tables.{Database}
use cloud_portfolio.Database.Tx.{Tx}
use cloud_portfolio.Database.Session.{Fault, in_transaction}
use cloud_portfolio.Json.{Fields}
use cloud_portfolio.Api.Reset.Topic.{TopicAdmin, reset_topic}
use cloud_portfolio.Worker.World.{World}
use cloud_portfolio.Api.Answer.{Answer, done, failed, http, answer_of}

pub record Counts : Type 0 where
  pub deleted_messages : ℕ
  pub reset_streams : ℕ
  pub reset_request_statuses : ℕ

-- TRUNCATE of the tables; that of `rooms` cascades to all tables that refer to it, and to those that
-- refer to these. The ids of rooms and messages go on.
pub emptied : Database → Database
emptied db = record db {
  attempts = [];
  cached = [];
  intake = [];
  statuses = [];
  rooms = [];
  members = [];
  sequences = [];
  messages = [];
  outbox = [];
  receipts = [];
}

-- `_reset_demo_event_data`
unfoldable pub reset_demo_event_data : Tx Counts
unfolding emptied
reset_demo_event_data db = (
  ok (record {
    deleted_messages = length db.messages;
    reset_streams = length db.rooms;
    reset_request_statuses = length db.statuses;
  }),
  emptied db,
)

after_topic : Counts → World → Result (Unit {0}) × List (ℕ × Fields) → Answer Counts × World
after_topic counts w (ok u, dlq) = (done counts, record w { dlq = dlq })
after_topic counts w (err e, dlq) = (
  failed (http 503 (codes "Demo DB reset completed, but Kafka DLQ reset failed")),
  record w { dlq = dlq },
)

-- `_reset_demo_kafka_dlq`, once the database is reset.
after_data : TopicAdmin (ℕ × Fields) → Answer Counts × World → Answer Counts × World
unfolding after_topic reset_topic
after_data admin (failed f, w) = (failed f, w)
after_data admin (done counts, w) = after_topic counts w (reset_topic admin w.dlq)

with_database : World → Answer Counts × Database → Answer Counts × World
with_database w (a, db) = (a, record w { database = db })

-- `reset_demo_events`; the first argument is the setting `demo_reset_enabled`.
unfoldable pub reset_demo_events :
    Bool → Fault → TopicAdmin (ℕ × Fields) → Text → World → Answer Counts × World
unfolding text_eq reset_demo_event_data in_transaction answer_of with_database after_data
reset_demo_events false fault admin confirmation w =
    (failed (http 403 (codes "Demo reset is disabled in this environment")), w)
reset_demo_events true fault admin confirmation w =
    if text_eq confirmation (codes "RESET DEMO DB")
    then after_data admin (
        with_database w (
          answer_of (codes "Demo event store unavailable")
            (in_transaction fault reset_demo_event_data w.database)))
    else (failed (http 400 (codes "Confirmation must be RESET DEMO DB")), w)
