-- ===== src/Worker/World.antt =====
-- What the worker acts on: the database and the Kafka topics, and how the calls of one round fare.
-- Also `update_request_status`, `move_to_dlq` and `mark_inline_retry` of worker/main.py.
use cloud_portfolio.Prelude.{
  ℕ, ◌+◌, ◌-◌, ◌*◌, ◌^◌, min, Option, none, some, List, [], ◌∷◌, ◌++◌, ◌==◌, if◌then◌else◌, Text,
  codes,
}
use cloud_portfolio.Errors.{Result, ok, err}
use cloud_portfolio.Json.{str, Fields, end, field, put}
use cloud_portfolio.Json.Checks.{number, number_or_null}
use cloud_portfolio.Database.Tables.{Database}
use cloud_portfolio.Database.Session.{Fault, in_transaction}
use cloud_portfolio.Store.Status.{upsert_request_status}
use cloud_portfolio.Worker.Job.{Job, job_fields}
use cloud_portfolio.Worker.Outbox.{Send, acknowledged, refused, unanswered}
use cloud_portfolio.Worker.Transaction.{Times}

-- The records of the DLQ topic and of the ingress topic, by key, in the order of their appending.
pub record World : Type 0 where
  pub database : Database
  pub dlq : List (ℕ × Fields)
  pub ingress : List (ℕ × Fields)

-- `update_request_status`: an error is logged, and nothing else.
unfoldable pub update_request_status : Fault → Text → Fields → World → World
unfolding in_transaction upsert_request_status
update_request_status fault request_id payload w = record w {
  database = (in_transaction fault (upsert_request_status request_id payload) w.database).1;
}

-- `publish_dlq_job`
unfoldable pub publish_dlq_job : Send → ℕ → Fields → World → Result (Unit {0}) × World
publish_dlq_job acknowledged key payload w =
    (ok tt, record w { dlq = w.dlq ++ (key, payload) ∷ [] })
publish_dlq_job (refused e) key payload w = (err e, w)
publish_dlq_job (unanswered e) key payload w =
    (err e, record w { dlq = w.dlq ++ (key, payload) ∷ [] })

-- How one round of the loop fares: the transaction, the status that follows it, the send to the DLQ.
-- `clock` is the worker's clock in milliseconds, `failed_at` and `retry_at` texts of its times.
pub record Round : Type 0 where
  pub times : Times
  pub persist_fault : Fault
  pub status_fault : Fault
  pub send : Send
  pub clock : ℕ
  pub failed_at : Text
  pub retry_at : Text

-- The job with the two fields that `move_to_dlq` sets.
dead_job : Text → Text → Job → Fields
unfolding job_fields put
dead_job reason failed_at job =
    put (codes "failed_at") (str failed_at)
      (put (codes "failed_reason") (str reason) (job_fields job))

unfoldable pub failed_dlq_status : Text → Text → Job → Fields
failed_dlq_status reason failed_at job = field (codes "request_id") (str job.request_id) (
    field (codes "status") (str (codes "failed_dlq")) (
      field (codes "room_id") (number job.room_id) (
        field (codes "user_id") (number job.user_id) (
          field (codes "failed_reason") (str reason) (
            field (codes "retry_count") (number job.retry_count)
              (field (codes "failed_at") (str failed_at) end))))))

unfoldable pub after_publish :
    Round → Job → Text → Result (Unit {0}) × World → Result (Unit {0}) × World
unfolding update_request_status failed_dlq_status
after_publish round job reason (err e, w) = (err e, w)
after_publish round job reason (ok u, w) = (
  ok tt,
  update_request_status round.status_fault job.request_id
      (failed_dlq_status reason round.failed_at job) w,
)

-- `move_to_dlq`: the status is written only once the record is in the topic.
unfoldable pub move_to_dlq : Round → Job → Text → World → Result (Unit {0}) × World
unfolding publish_dlq_job dead_job after_publish
move_to_dlq round job reason w =
    after_publish round job reason
      (publish_dlq_job round.send job.room_id (dead_job reason round.failed_at job) w)

abbrev pub max_inline_retry_delay_ms : ℕ
max_inline_retry_delay_ms = 60000

-- The base delay in milliseconds; `none` for a setting that is not finite. Where it is not positive
-- one second is used.
unfoldable pub base_delay_ms : Option ℕ → ℕ
base_delay_ms none = 1000
base_delay_ms (some ms) = if ms == 0 then 1000 else ms

unfoldable pub retry_delay_ms : Option ℕ → ℕ → ℕ
unfolding base_delay_ms
retry_delay_ms base retry_count =
    min (base_delay_ms base * 2 ^ min (retry_count - 1) 20) max_inline_retry_delay_ms

unfoldable pub queued_status : Text → Job → Fields
queued_status retry_at job = field (codes "request_id") (str job.request_id) (
    field (codes "status") (str (codes "queued")) (
      field (codes "room_id") (number job.room_id) (
        field (codes "user_id") (number job.user_id) (
          field (codes "room_seq") (number_or_null job.room_seq) (
            field (codes "retry_count") (number job.retry_count)
              (field (codes "next_retry_at") (str retry_at) end))))))

-- The job of the next round.
unfoldable pub retried : Option ℕ → ℕ → Job → Job
unfolding retry_delay_ms
retried base clock job = record job {
  retry_count = job.retry_count + 1;
  next_retry_at = some (clock + retry_delay_ms base (job.retry_count + 1));
}

-- `mark_inline_retry`, but for its result, by which the caller sleeps.
unfoldable pub mark_inline_retry : Option ℕ → Round → Job → World → Job × World
unfolding retried update_request_status queued_status
mark_inline_retry base round job w =
    let job' = retried base round.clock job in
    (
      job',
      update_request_status round.status_fault job.request_id (queued_status round.retry_at job') w,
    )
