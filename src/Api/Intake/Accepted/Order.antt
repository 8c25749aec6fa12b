-- ===== src/Api/Intake/Accepted/Order.antt =====
-- What the worker makes of the job that `create_order_event` queues.
use cloud_portfolio.Api.Intake.Accepted.Metadata.{
  IsCategory, classify-IsCategory, metadata-fits, metadata-size, payment-ok,
}
use cloud_portfolio.Prelude.{
  ℕ, ◌≡◌, refl, Bool, true, Option, none, some, Text, codes, decimal, arith, ◌++◌, has_nul, ==_iff,
}
use cloud_portfolio.Errors.{ok}
use cloud_portfolio.Json.{null, str, obj, end, field, get, put}
use cloud_portfolio.Json.Checks.{
  short_text, smallint_version, counter_bigint, number, get_or, get_value,
}
use cloud_portfolio.Worker.Envelope.{
  Envelope, raw_event_type, raw_payload, raw_metadata, is_generic_envelope,
}
use cloud_portfolio.Worker.Envelope.Accepted.{HasEnvelope, event_envelope-ok, short_text-ok}
use cloud_portfolio.Worker.Route.{v1, orders}
use cloud_portfolio.Worker.Route.Printed.{parse_route-v1_orders}
use cloud_portfolio.Worker.Job.{Job}
use cloud_portfolio.Worker.Ingress.{
  Identity, check_aliases, check_route, check_envelope, validate_ingress_payload,
}
use cloud_portfolio.Worker.Ingress.Accepted.{
  Rest, HasRest, accepted_job, validate_ingress_payload-ok,
}
use cloud_portfolio.Worker.Ingress.Accepted.Head.{HasIdentity, positive_bigint-number}
use cloud_portfolio.Api.Schemas.{is_idempotency_header}
use cloud_portfolio.Api.Schemas.Checked.{IsScalar-no_nul}
use cloud_portfolio.Api.Intake.{Call}
use cloud_portfolio.Worker.World.{World}
use cloud_portfolio.Api.Intake.Accepted.{
  IsCall, IsId, route_text, header-ok, text_payload-fits, text_payload-size, IsQueued,
  store_request_and_queue_job-IsQueued,
}
use cloud_portfolio.Worker.Orders.{classify_order_event}
use cloud_portfolio.Api.Schemas.{OrderEventCreate, order_event_create}
use cloud_portfolio.Api.Schemas.Checked.{IsPayment, IsOrderEvent, order_event_create-IsOrderEvent}
use cloud_portfolio.Api.Intake.{create_order_event, order_job, order_answer, order_metadata}

module _ (call : Call) (order_id actor : ℕ) (e : OrderEventCreate) (category : Text)
    (key : Option Text) where
  abbrev order_head : Identity
  order_head = record {
    request_id = call.request_id;
    route = codes "POST:/v1/orders/" ++ (decimal order_id ++ codes "/events");
    room_id = order_id;
    user_id = actor;
    schema_version = 1;
  }

  abbrev order_content : Envelope
  order_content = record {
    event_type = e.event_type;
    payload = field (codes "text") (str e.body) end;
    metadata = order_metadata category e.payment_id;
  }

  abbrev order_rest : Rest
  order_rest = record {
    idem_key = key;
    room_seq = none;
    retry_count = 0;
    replay_count = 0;
    queued_at = some call.queued_at;
    replayed_at = none;
    payment_id = e.payment_id;
  }

  order_job-HasIdentity :
      short_text 80 (some (str call.request_id)) ≡ some call.request_id
      → IsId order_id
      → IsId actor
      → HasIdentity (order_job call order_id e category key actor) order_head
  unfolding order_job get check_route get_or smallint_version has_nul
  order_job-HasIdentity request stream user = record {
    parsed = record { version = v1; resource = orders; stream_id = order_id };
    request_id = refl;
    route = refl;
    room_id = refl;
    user_id = refl;
    request_text = request;
    route_text =
        route_text (codes "POST:/v1/orders/") order_id stream (omega arith) (omega arith) refl;
    room_bigint = positive_bigint-number order_id stream.positive stream.bounded;
    user_bigint = positive_bigint-number actor user.positive user.bounded;
    parses = parse_route-v1_orders order_id stream.positive;
    checks = rw ((==_iff order_id order_id).1 refl, check_route) refl;
  }

  order_job-HasEnvelope :
      IsOrderEvent e
      → IsCategory category
      → HasEnvelope
          (put (codes "schema_version") (number 1) (order_job call order_id e category key actor))
          order_content
  unfolding order_job get put get_or raw_event_type raw_payload raw_metadata is_generic_envelope
  order_job-HasEnvelope h k = record {
    event_type = refl;
    event_text =
        short_text-ok 50 e.event_type h.event_type.at_least h.event_type.at_most
          (IsScalar-no_nul e.event_type h.event_type);
    event_name = refl;
    payload = refl;
    metadata = refl;
    payload_fits = text_payload-fits e.body h.body;
    metadata_fits = metadata-fits category e.payment_id k h.payment_id;
    payload_size = text_payload-size e.body h.body.at_most;
    metadata_size = metadata-size category e.payment_id k h.payment_id;
  }

  order_job-HasRest :
      (is_aware : Text → Bool)
      → IsCall is_aware call
      → is_idempotency_header key ≡ true
      → IsPayment e.payment_id
      → HasRest is_aware (order_job call order_id e category key actor) order_rest
  unfolding order_job get_value get counter_bigint
  order_job-HasRest is_aware known header paid = record {
    idem_key = header-ok key header;
    room_seq = refl;
    retry_count = refl;
    replay_count = refl;
    next_retry_at = refl;
    queued_at = rw known.queued_at refl;
    replayed_at = refl;
    payment_id = payment-ok e.payment_id paid;
  }

  -- The job that the worker makes of what `create_order_event` queues.
  pub accepted_order : Job
  unfolding accepted_job
  accepted_order = accepted_job order_head order_content order_rest

  order_job-aliases : check_aliases (order_job call order_id e category key actor) ≡ ok tt
  unfolding check_aliases order_job get
  order_job-aliases = refl

  order_job-seq : get (codes "room_seq") (order_job call order_id e category key actor) ≡ some null
  unfolding order_job get
  order_job-seq = refl

  order_job-envelope :
      IsOrderEvent e
      → IsCategory category
      → check_envelope 1
          (put (codes "schema_version") (number 1) (order_job call order_id e category key actor))
        ≡ ok order_content
  unfolding check_envelope order_job get put
  order_job-envelope h k =
      event_envelope-ok
        (put (codes "schema_version") (number 1) (order_job call order_id e category key actor))
        order_content (order_job-HasEnvelope h k)

  order_job-accepted :
      (is_aware : Text → Bool)
      → IsCall is_aware call
      → IsId order_id
      → IsId actor
      → is_idempotency_header key ≡ true
      → IsOrderEvent e
      → IsCategory category
      → (validate_ingress_payload is_aware (obj (order_job call order_id e category key actor))).0
        ≡ ok accepted_order
  unfolding accepted_order
  order_job-accepted is_aware known stream user header h k =
      let d = order_job call order_id e category key actor in
      validate_ingress_payload-ok is_aware d order_head order_content order_rest null
        order_job-aliases (order_job-HasIdentity known.request_id stream user) order_job-seq
        (order_job-envelope h k) (order_job-HasRest is_aware known header h.payment_id)

-- Let the header, the ids and the body of a request to `create_order_event` be such as the framework
-- lets through, and its type one of an order. However the send fares, the endpoint answers with the
-- request's identifier after it has sent one record to the key of the order, of which the worker makes
-- exactly the job of that event, with the order as its stream, and its category and its payment among
-- the metadata; or it answers 503, the database is as it was, and nothing but that record may have been
-- sent.
pub create_order_event-IsQueued :
    (is_aware : Text → Bool) (call : Call) (order_id actor : ℕ) (event_type body : Text)
    (payment_id : Option Text) (payload : OrderEventCreate) (key : Option Text) (w : World)
    → IsCall is_aware call
    → IsId order_id
    → IsId actor
    → is_idempotency_header key ≡ true
    → order_event_create event_type body payment_id ≡ ok payload
    → IsQueued is_aware order_id
        (accepted_order call order_id actor payload (classify_order_event payload.event_type) key)
        w
        (create_order_event call order_id payload key actor w)
unfolding create_order_event accepted_order
create_order_event-IsQueued is_aware call order_id actor event_type body payment_id payload key w
      known stream user header h =
    let category = classify_order_event payload.event_type in
    store_request_and_queue_job-IsQueued is_aware call order_id
      (order_answer call order_id payload category actor)
      (order_job call order_id payload category key actor)
      (accepted_order call order_id actor payload category key) w
      (order_job-accepted call order_id actor payload category key is_aware known stream user header
        (order_event_create-IsOrderEvent event_type body payment_id payload h)
        (classify-IsCategory payload.event_type))
      (unfold order_answer in unfold accepted_job in unfold get in refl)
