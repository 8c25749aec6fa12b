-- ===== src/Worker/Transaction/Frame.antt =====
-- What `persist_ingress_job` does once the message is there: the status and the intent to notify.
use cloud_portfolio.Prelude.{
  ℕ, ◌≡◌, refl, sym, ◌∙◌, subst, Bool, true, false, ◌||◌, Option, none, some, List, ◌==◌, Text,
  codes, arith,
}
use cloud_portfolio.Errors.{Result, ok, err}
use cloud_portfolio.Json.{Fields, str, get, put}
use cloud_portfolio.Json.Checks.{positive_bigint, number, get_value}
use cloud_portfolio.Database.Tables.{Database, Message, Moment, RequestStatus}
use cloud_portfolio.Store.Status.{upsert_request_status}
use cloud_portfolio.Store.Status.Owner.{upsert_request_status-frame}
use cloud_portfolio.Worker.Envelope.{Envelope, event_envelope}
use cloud_portfolio.Worker.Job.{Job}
use cloud_portfolio.Worker.Cached.{hit_key}
use cloud_portfolio.Worker.Response.{message_row_response, truthy}
use cloud_portfolio.Worker.Status.{
  persisted_status_payload, notice_payload, notification_attempt_payload,
}
use cloud_portfolio.Worker.Outbox.{enqueue_notification}
use cloud_portfolio.Worker.Outbox.Intents.{has_intent, has_intent-insert_intent}
use cloud_portfolio.Worker.Transaction.{
  enqueue_ids, enqueue_payload, enqueue_unless, enqueue_new, answered, after_status, with_status,
  record_response,
}

-- The messages and the numbers are as they were, and no intent is gone.
pub record Kept (db db' : Database) : Type 0 where
  pub messages : db'.messages ≡ db.messages
  pub sequences : db'.sequences ≡ db.sequences
  pub next_message_id : db'.next_message_id ≡ db.next_message_id
  pub intents : (n : ℕ) → has_intent n db.outbox ≡ true → has_intent n db'.outbox ≡ true

pub Kept-refl : (db : Database) → Kept db db
Kept-refl db = record {
  messages = refl;
  sequences = refl;
  next_message_id = refl;
  intents = λ n h. h;
}

-- A change of the statuses alone.
Kept-statuses :
    (db db' : Database) (rows : List RequestStatus)
    → db' ≡ record db { statuses = rows }
    → Kept db db'
Kept-statuses db db' rows e =
    subst (Kept db) (sym e)
      (record { messages = refl; sequences = refl; next_message_id = refl; intents = λ n h. h })

Kept-trans : {a b c : Database} → Kept a b → Kept b c → Kept a c
Kept-trans h k = record {
  messages = k.messages ∙ h.messages;
  sequences = k.sequences ∙ h.sequences;
  next_message_id = k.next_message_id ∙ h.next_message_id;
  intents = λ n p. k.intents n (h.intents n p);
}

enqueue-Kept :
    (event_id stream_id : ℕ) (payload : Fields) (now : ℕ) (db : Database)
    → Kept db (enqueue_notification event_id stream_id payload now db)
unfolding enqueue_notification
enqueue-Kept event_id stream_id payload now db = record {
  messages = refl;
  sequences = refl;
  next_message_id = refl;
  intents =
      λ n h. rw has_intent-insert_intent (or_right (event_id == n) (has_intent n db.outbox) h);
}
  where
    or_right : (a b : Bool) → b ≡ true → (a || b) ≡ true
    or_right a b h = ground arith

enqueue-has_intent :
    (event_id stream_id : ℕ) (payload : Fields) (now : ℕ) (db : Database)
    → has_intent event_id (enqueue_notification event_id stream_id payload now db).outbox ≡ true
unfolding enqueue_notification
enqueue-has_intent event_id stream_id payload now db = rw has_intent-insert_intent (ground arith)

-- The ids that the columns of the outbox take.
enqueue_ids-Kept :
    (a b : Option ℕ) (payload : Fields) (now : ℕ) (db : Database)
    → Kept db (enqueue_ids a b payload now db).1
unfolding enqueue_ids
enqueue_ids-Kept (some a) (some b) payload now db = enqueue-Kept a b payload now db
enqueue_ids-Kept (some a) none payload now db = Kept-refl db
enqueue_ids-Kept none b payload now db = Kept-refl db

enqueue_unless-Kept :
    (b : Bool) (r : Result Fields) (now : ℕ) (db : Database) → Kept db (enqueue_unless b r now db).1
unfolding enqueue_unless enqueue_payload
enqueue_unless-Kept true r now db = Kept-refl db
enqueue_unless-Kept false (err e) now db = Kept-refl db
enqueue_unless-Kept false (ok payload) now db = enqueue_ids-Kept _ _ payload now db

-- The event that a response names has an intent, if the statements return.
abbrev pub Announced : ℕ → {A : Type 0} → Result A × Database → Type 0
Announced n (ok a, db) = has_intent n db.outbox ≡ true
Announced n (err e, db) = Unit

ids-Announced :
    (n : ℕ) (a b : Option ℕ) (payload : Fields) (now : ℕ) (db : Database)
    → ((m : ℕ) → a ≡ some m → m ≡ n)
    → Announced n (enqueue_ids a b payload now db)
unfolding enqueue_ids
ids-Announced n (some a) (some b) payload now db h =
    subst (λ m. has_intent m (enqueue_notification a b payload now db).outbox ≡ true) (h a refl)
      (enqueue-has_intent a b payload now db)
ids-Announced n (some a) none payload now db h = tt
ids-Announced n none b payload now db h = tt

positive_bigint-number : (n m : ℕ) → positive_bigint (some (number n)) ≡ some m → m ≡ n
unfolding positive_bigint
positive_bigint-number n m h = ground arith

-- The response of a row, with the time that the worker adds.
abbrev row_answer : Message → Text → Fields
row_answer row time = put (codes "persisted_at") (str time) (message_row_response row)

notice-Announced :
    (row : Message) (time : Text) (r : Result Envelope) (now : ℕ) (db : Database)
    → Announced row.id (enqueue_unless false (notice_payload (row_answer row time) r) now db)
unfolding enqueue_unless enqueue_payload notice_payload message_row_response put get
notice-Announced row time (err e) now db = tt
notice-Announced row time (ok e) now db =
    ids-Announced row.id _ _ _ now db (positive_bigint-number row.id)

row-Announced :
    (row : Message) (time : Text) (now : ℕ) (db : Database)
    → Announced row.id (enqueue_new (row_answer row time) now db)
unfolding enqueue_new get_value truthy message_row_response put notification_attempt_payload
row-Announced row time now db =
    notice-Announced row time (event_envelope (row_answer row time)) now db

answered-Announced :
    (n : ℕ) (response : Fields) (r : Result (Unit {0}) × Database)
    → Announced n r
    → Announced n (answered response r)
unfolding answered
answered-Announced n response (ok u, db) h = h
answered-Announced n response (err e, db) h = tt

after_status-Announced :
    (row : Message) (time : Text) (at : Moment) (r : Result Fields × Database)
    → Announced row.id (after_status at (row_answer row time) r)
unfolding after_status
after_status-Announced row time at (err e, db) = tt
after_status-Announced row time at (ok status, db) =
    answered-Announced row.id _ _ (row-Announced row time at.seconds db)

with_status-Announced :
    (job : Job) (row : Message) (time : Text) (at : Moment) (db : Database) (r : Result Fields)
    → Announced row.id (with_status job at (row_answer row time) db r)
unfolding with_status
with_status-Announced job row time at db (err e) = tt
with_status-Announced job row time at db (ok status) =
    after_status-Announced row time at (upsert_request_status job.request_id status db)

-- If the statements after a new row return, the row has an intent to notify.
pub record_response-Announced :
    (job : Job) (row : Message) (time : Text) (at : Moment) (db : Database)
    → Announced row.id (record_response job at (row_answer row time) db)
unfolding record_response
record_response-Announced job row time at db =
    with_status-Announced job row time at db
      (persisted_status_payload job.request_id (row_answer row time))

answered-state :
    (response : Fields) (r : Result (Unit {0}) × Database) → (answered response r).1 ≡ r.1
unfolding answered
answered-state response (ok u, db) = refl
answered-state response (err e, db) = refl

after_status-Kept :
    (at : Moment) (response : Fields) (r : Result Fields × Database)
    → Kept r.1 (after_status at response r).1
unfolding after_status enqueue_new
after_status-Kept at response (err e, db) = Kept-refl db
after_status-Kept at response (ok status, db) =
    subst (Kept db) (sym (answered-state response (enqueue_new response at.seconds db))) (
      enqueue_unless-Kept (truthy (get_value hit_key response))
        (notification_attempt_payload response) at.seconds db)

with_status-Kept :
    (job : Job) (at : Moment) (response : Fields) (db : Database) (r : Result Fields)
    → Kept db (with_status job at response db r).1
unfolding with_status
with_status-Kept job at response db (err e) = Kept-refl db
with_status-Kept job at response db (ok status) =
    let (rows, e) = upsert_request_status-frame job.request_id status db in
    Kept-trans (Kept-statuses db (upsert_request_status job.request_id status db).1 rows e)
      (after_status-Kept at response (upsert_request_status job.request_id status db))

-- The statements after the message keep the messages, the numbers and the intents.
pub record_response-Kept :
    (job : Job) (at : Moment) (response : Fields) (db : Database)
    → Kept db (record_response job at response db).1
unfolding record_response
record_response-Kept job at response db =
    with_status-Kept job at response db (persisted_status_payload job.request_id response)
