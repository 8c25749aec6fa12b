-- ===== src/Worker/Transaction.antt =====
-- worker/main.py: `persist_ingress_job`. The event, its status and the intent to notify are written
-- in one transaction.
pub mod Frame
pub mod Invariant
pub mod Once
use cloud_portfolio.Prelude.{
  ℕ, zero, Bool, true, false, Option, none, some, pos, Text, codes, if◌then◌else◌,
}
use cloud_portfolio.Errors.{Error, Result, ok, err, data_error}
use cloud_portfolio.Json.{Value, int, str, Fields, get, put, remove}
use cloud_portfolio.Json.Checks.{get_value, positive_bigint}
use cloud_portfolio.Database.Tables.{Database, Moment}
use cloud_portfolio.Database.Tx.{Tx, pure, lift, modify, continue, ◌>>=◌, ◌>>◌}
use cloud_portfolio.Database.Session.{Fault, in_transaction}
use cloud_portfolio.Store.Status.{upsert_request_status}
use cloud_portfolio.Worker.Job.{Job}
use cloud_portfolio.Worker.Response.{truthy}
use cloud_portfolio.Worker.Status.{persisted_status_payload, notification_attempt_payload}
use cloud_portfolio.Worker.Outbox.{enqueue_notification}
use cloud_portfolio.Worker.Persist.{persist_message_with_cursor}
use cloud_portfolio.Worker.Cached.{hit_key}

-- The ids of a payload, as the columns of the outbox take them.
enqueue_ids : Option ℕ → Option ℕ → Fields → ℕ → Tx (Unit {0})
unfolding enqueue_notification
enqueue_ids (some event_id) (some stream_id) payload now db =
    (ok tt, enqueue_notification event_id stream_id payload now db)
enqueue_ids _ _ payload now db = (err data_error, db)

enqueue_payload : Fields → ℕ → Tx (Unit {0})
unfolding enqueue_ids positive_bigint get
enqueue_payload payload now =
    enqueue_ids (positive_bigint (get (codes "event_id") payload))
      (positive_bigint (get (codes "stream_id") payload)) payload now

enqueue_unless : Bool → Result Fields → ℕ → Tx (Unit {0})
unfolding enqueue_payload
enqueue_unless true payload now db = (ok tt, db)
enqueue_unless false (err e) now db = (err e, db)
enqueue_unless false (ok payload) now db = enqueue_payload payload now db

-- Only a response that no earlier request has left is announced.
enqueue_new : Fields → ℕ → Tx (Unit {0})
unfolding truthy get_value enqueue_unless notification_attempt_payload
enqueue_new response now =
    enqueue_unless (truthy (get_value hit_key response)) (notification_attempt_payload response) now

answered : Fields → Result (Unit {0}) × Database → Result Fields × Database
answered response (ok u, db) = (ok response, db)
answered response (err e, db) = (err e, db)

after_status : Moment → Fields → Result Fields × Database → Result Fields × Database
unfolding enqueue_new answered
after_status at response (err e, db) = (err e, db)
after_status at response (ok status, db) = answered response (enqueue_new response at.seconds db)

with_status : Job → Moment → Fields → Database → Result Fields → Result Fields × Database
unfolding upsert_request_status after_status
with_status job at response db (err e) = (err e, db)
with_status job at response db (ok status) =
    after_status at response (upsert_request_status job.request_id status db)

pub record_response : Job → Moment → Fields → Tx Fields
unfolding with_status persisted_status_payload
record_response job at response db =
    with_status job at response db (persisted_status_payload job.request_id response)

stamped : Job → Moment → Text → Result Fields × Database → Result Fields × Database
unfolding record_response put
stamped job at worker_time (err e, db) = (err e, db)
stamped job at worker_time (ok response, db) =
    record_response job at (put (codes "persisted_at") (str worker_time) response) db

-- The statements before the commit, at a time of the database and one of the worker.
unfoldable pub persist_body : Job → Moment → Text → Tx Fields
unfolding persist_message_with_cursor stamped
persist_body job at worker_time db =
    stamped job at worker_time (persist_message_with_cursor job at.iso db)

-- After the commit the time is taken anew, and the mark of a hit is taken off.
returned : Text → Result Fields → Result Fields
unfolding put remove
returned committed_time (err e) = err e
returned committed_time (ok response) =
    ok (remove hit_key (put (codes "persisted_at") (str committed_time) response))

-- The times that one call of `persist_ingress_job` reads.
pub record Times : Type 0 where
  pub database : Moment
  pub before_commit : Text
  pub after_commit : Text

-- `persist_ingress_job`
unfoldable pub persist_ingress_job : Fault → Times → Job → Database → Result Fields × Database
unfolding in_transaction persist_body returned
persist_ingress_job fault times job db =
    let (r, db') = in_transaction fault (persist_body job times.database times.before_commit) db in
    (returned times.after_commit r, db')
