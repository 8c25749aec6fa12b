-- ===== src/Lib.antt =====
-- The event path of the portfolio service: what happens to an event between the HTTP request that posts
-- it, the Kafka ingress topic and the database, and what the service tells about it.
--
-- The API (portfolio/api.py) checks a request, makes the job of its event and sends it to the ingress
-- topic; it answers what became of a request, lists the events of a stream and the dead letters, and
-- replays a dead letter on demand, under the same claims as the replayer. A record of the ingress topic is decoded and validated (worker/main.py), persisted with its number
-- in its room, its request status and its intent to notify in one transaction, and only then is its
-- offset committed. A record that cannot be stored goes to the DLQ topic, from which the replayer
-- (worker/dlq_replayer.py) sends it again under a claim (portfolio/state_store.py). The outbox relay
-- (worker/outbox.py) publishes the intents, and the notification worker stores the attempts.
--
-- The modules and the code that they follow:
--   Prelude      texts as code points, tests on natural numbers, lists
--   Errors       the exceptions of the path, and results
--   Json         JSON values; Json/Checks the type checks that recur in the code; Json/Structure is
--                portfolio/event_envelope.py, `validate_json_structure` with its work list; Json/Lookup
--                and Json/Size are about fields and about the length of a text in UTF-8
--   Database     the tables of alembic/versions as lists of rows, statements as functions of the
--                state, Database/Session the transaction of portfolio/db.py, `get_conn`
--   Store        portfolio/state_store.py: Store/Status the request statuses, Store/Claim the claims
--                of replays
--   Worker       worker/main.py, by part: Route (`_INGRESS_ROUTE_RE`), Envelope (`_event_envelope`),
--                Ingress (`_validate_ingress_payload`), Response (`_message_row_response`, cached
--                responses), Cached (idempotency keys), Persist (`_persist_message_with_cursor`),
--                Status (the payloads), Transaction (`persist_ingress_job`), World (topics, status
--                updates, `move_to_dlq`, `mark_inline_retry`), Handle (the loop of
--                `handle_ingress_job`), Rejection (`move_invalid_ingress_to_dlq`), Consume
--                (`handle_ingress_job`), Batch (`_process_worker_batch`), Notice and Notify
--                (notifications); Worker/Orders is portfolio/order_events.py, Worker/Outbox is
--                worker/outbox.py, Worker/Replayer is worker/dlq_replayer.py
--   Api          portfolio/api.py, by part: Schemas (portfolio/schemas.py, the bodies that the
--                framework lets through), Answer (the errors of the database as answers, and
--                `publish_ingress_job` of portfolio/kafka_client.py), Intake (`create_event`,
--                `create_generic_event`, `create_order_event`), Status (`get_event_request_status`),
--                Dlq (the list, its summary and the replay of dead letters; Item is one letter,
--                Counted the summary, Manual the claimed replay), Streams (`create_stream`,
--                `list_events`, the summary of a stream), Reading (`mark_as_read`, `unread_count`),
--                Reset (`reset_demo_events`, with `reset_topic` of portfolio/kafka_client.py)
--   Tests        the theorems at concrete inputs
--
-- State. A database is a record of its tables; `next_message_id` is the sequence of the ids, which a
-- rollback does not reset. A transaction is a function of the database, and transactions follow one
-- another: the row locks and the advisory locks of the code order those that touch the same rows. How
-- the database fares in a transaction is an argument: it answers, it fails before the commit, or it
-- commits and the answer is lost. The same holds of the sends, the commits of offsets and the seeks.
-- What the server gives back of a JSONB document is a field of the database, since it is PostgreSQL's; it
-- is applied where a status is read, while payloads of events and cached responses are kept as the dicts
-- that were written. The transactions of several replayers are steps (Store/Claim/History): claims,
-- marks, releases, and all that leave the table of the claims alone.
--
-- Fuel. The work list of `validate_json_structure` has as many rounds as the value has entries to
-- push and pop; the loop of `handle_ingress_job` has one round more than the retries that are
-- allowed. Both are enough, which is part of what is shown of them.
--
-- Integers are natural numbers and ℤ, as Python's are unbounded; the bounds of PostgreSQL are tests
-- of the code. Times are seconds of the database or milliseconds of the worker's clock.
--
-- Not modelled: metrics and logs, sleeps, the pool of connections, JSON decoding, `isoformat`
-- parsing, hashing and base64 (parameters where their results matter); of the API, the users, logins
-- and tokens, the health endpoints and the parsing of requests (identifiers and times of a call are
-- arguments, and so are the ages of dead letters and Python's `repr` of a value); the operations agent,
-- the scripts and the deployment.
pub mod Prelude
pub mod Errors
pub mod Json
pub mod Database
pub mod Store
pub mod Worker
pub mod Api
pub mod Tests
