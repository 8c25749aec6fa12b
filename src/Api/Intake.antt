-- ===== src/Api/Intake.antt =====
-- portfolio/api.py: `create_event`, `create_generic_event` and `create_order_event`. What the
-- endpoints take from elsewhere (the identifier of `uuid4`, the time, how the send fares) is a record.
pub mod Accepted
use cloud_portfolio.Prelude.{
  ℕ, Bool, true, false, Option, none, some, ◌++◌, Text, codes, decimal, is_empty, if◌then◌else◌,
}
use cloud_portfolio.Errors.{Result, ok, err}
use cloud_portfolio.Json.{null, str, obj, Fields, end, field}
use cloud_portfolio.Json.Checks.{number, text_or_null}
use cloud_portfolio.Worker.Envelope.{legacy_body_preview}
use cloud_portfolio.Worker.Orders.{classify_order_event}
use cloud_portfolio.Worker.Outbox.{Send}
use cloud_portfolio.Worker.World.{World}
use cloud_portfolio.Api.Answer.{Answer, done, failed, http, publish_ingress_job}
use cloud_portfolio.Api.Schemas.{EventCreate, OrderEventCreate, GenericEventCreate}

pub record Call : Type 0 where
  pub request_id : Text
  pub queued_at : Text
  pub send : Send

abbrev queue_unavailable : Text
queue_unavailable = codes "Kafka unavailable"

-- `_store_request_and_queue_job`, and the answer of the endpoint by how it ends.
answer_queued : Fields → Result (Unit {0}) × World → Answer Fields × World
answer_queued accepted (ok u, w) = (done accepted, w)
answer_queued accepted (err e, w) = (failed (http 503 queue_unavailable), w)

pub store_request_and_queue_job : Call → ℕ → Fields → Fields → World → Answer Fields × World
unfolding publish_ingress_job answer_queued
store_request_and_queue_job call room_id accepted job w =
    answer_queued accepted (publish_ingress_job call.send room_id job w)

unfoldable pub event_job : Call → ℕ → Text → Option Text → ℕ → Fields
unfolding decimal
event_job call stream_id body key actor = field (codes "request_id") (str call.request_id) (
    field (codes "route")
      (str (codes "POST:/v1/streams/" ++ (decimal stream_id ++ codes "/events")))
      (field (codes "room_id") (number stream_id) (
        field (codes "user_id") (number actor) (
          field (codes "body") (str body) (
            field (codes "room_seq") null (
              field (codes "x_idempotency_key") (text_or_null key) (
                field (codes "queued_at") (str call.queued_at) (
                  field (codes "retry_count") (number 0)
                    (field (codes "next_retry_at") null end)))))))))

pub event_answer : Call → ℕ → Text → ℕ → Fields
event_answer call stream_id body actor = field (codes "request_id") (str call.request_id) (
    field (codes "status") (str (codes "accepted")) (
      field (codes "persistence") (str (codes "queued")) (
        field (codes "stream_id") (number stream_id) (
          field (codes "user_id") (number actor) (
            field (codes "body") (str body)
              (field (codes "queued_at") (str call.queued_at) end))))))

-- `create_event`
unfoldable pub create_event :
    Call → ℕ → EventCreate → Option Text → ℕ → World → Answer Fields × World
unfolding store_request_and_queue_job event_job event_answer
create_event call stream_id payload key actor =
    store_request_and_queue_job call stream_id (event_answer call stream_id payload.body actor)
      (event_job call stream_id payload.body key actor)

-- `accepted_response` of a generic event, before what `rest` adds.
pub generic_fields : Call → ℕ → GenericEventCreate → ℕ → Fields → Fields
generic_fields call stream_id e actor rest = field (codes "request_id") (str call.request_id) (
    field (codes "status") (str (codes "accepted")) (
      field (codes "persistence") (str (codes "queued")) (
        field (codes "stream_id") (number stream_id) (
          field (codes "actor_id") (number actor) (
            field (codes "event_type") (str e.event_type) (
              field (codes "schema_version") (number 2) (
                field (codes "payload") (obj e.payload) (
                  field (codes "metadata") (obj e.metadata)
                    (field (codes "queued_at") (str call.queued_at) rest)))))))))

unfoldable pub generic_job : Call → ℕ → GenericEventCreate → Option Text → ℕ → Fields
unfolding decimal generic_fields legacy_body_preview
generic_job call stream_id e key actor = generic_fields call stream_id e actor (
    field (codes "route")
      (str (codes "POST:/v2/streams/" ++ (decimal stream_id ++ codes "/events")))
      (field (codes "room_id") (number stream_id) (
        field (codes "user_id") (number actor) (
          field (codes "body") (str (legacy_body_preview e.payload)) (
            field (codes "room_seq") null (
              field (codes "x_idempotency_key") (text_or_null key) (
                field (codes "retry_count") (number 0)
                  (field (codes "next_retry_at") null end))))))))

-- `create_generic_event`; the first argument is the setting `generic_events_v2_enabled`.
unfoldable pub create_generic_event :
    Bool → Call → ℕ → GenericEventCreate → Option Text → ℕ → World → Answer Fields × World
unfolding store_request_and_queue_job generic_job generic_fields
create_generic_event false call stream_id payload key actor w =
    (failed (http 503 (codes "Generic event v2 intake is not enabled")), w)
create_generic_event true call stream_id payload key actor w =
    store_request_and_queue_job call stream_id (generic_fields call stream_id payload actor end)
      (generic_job call stream_id payload key actor) w

pub payment_reference : Option Text → Fields
payment_reference none = end
payment_reference (some s) = if is_empty s then end else field (codes "payment") (str s) end

pub order_metadata : Text → Option Text → Fields
unfolding payment_reference
order_metadata category payment_id =
    field (codes "reference_scenario") (str (codes "order-lifecycle")) (
      field (codes "classification") (str category)
        (field (codes "external_references") (obj (payment_reference payment_id)) end))

unfoldable pub order_job : Call → ℕ → OrderEventCreate → Text → Option Text → ℕ → Fields
unfolding decimal order_metadata
order_job call order_id e category key actor = field (codes "request_id") (str call.request_id) (
    field (codes "route") (str (codes "POST:/v1/orders/" ++ (decimal order_id ++ codes "/events")))
      (field (codes "room_id") (number order_id) (
        field (codes "user_id") (number actor) (
          field (codes "body") (str e.body) (
            field (codes "room_seq") null (
              field (codes "x_idempotency_key") (text_or_null key) (
                field (codes "queued_at") (str call.queued_at) (
                  field (codes "retry_count") (number 0) (
                    field (codes "next_retry_at") null (
                      field (codes "schema_version") (number 1) (
                        field (codes "event_type") (str e.event_type) (
                          field (codes "payload") (obj (field (codes "text") (str e.body) end)) (
                            field (codes "metadata") (obj (order_metadata category e.payment_id)) (
                              field (codes "category") (str category) (
                                field (codes "payment_id") (text_or_null e.payment_id)
                                  end)))))))))))))))

pub order_answer : Call → ℕ → OrderEventCreate → Text → ℕ → Fields
order_answer call order_id e category actor = field (codes "request_id") (str call.request_id) (
    field (codes "status") (str (codes "accepted")) (
      field (codes "persistence") (str (codes "queued")) (
        field (codes "order_id") (number order_id) (
          field (codes "stream_id") (number order_id) (
            field (codes "user_id") (number actor) (
              field (codes "event_type") (str e.event_type) (
                field (codes "category") (str category) (
                  field (codes "body") (str e.body) (
                    field (codes "payment_id") (text_or_null e.payment_id)
                      (field (codes "queued_at") (str call.queued_at) end))))))))))

-- `create_order_event`
unfoldable pub create_order_event :
    Call → ℕ → OrderEventCreate → Option Text → ℕ → World → Answer Fields × World
unfolding classify_order_event store_request_and_queue_job order_job order_answer
create_order_event call order_id payload key actor =
    let category = classify_order_event payload.event_type in
    store_request_and_queue_job call order_id (order_answer call order_id payload category actor)
      (order_job call order_id payload category key actor)
