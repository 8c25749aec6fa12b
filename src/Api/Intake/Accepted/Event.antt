-- ===== src/Api/Intake/Accepted/Event.antt =====
-- What the worker makes of the job that `create_event` queues.
use cloud_portfolio.Prelude.{
  ℕ, ◌≡◌, refl, Bool, true, Option, none, some, Text, codes, decimal, arith, ◌++◌, has_nul, ==_iff,
}
use cloud_portfolio.Errors.{ok}
use cloud_portfolio.Json.{null, str, obj, end, field, get, put, dumps, utf8_size}
use cloud_portfolio.Json.Checks.{
  short_text, smallint_version, counter_bigint, number, get_or, get_value,
}
use cloud_portfolio.Json.Structure.Sound.{fits}
use cloud_portfolio.Worker.Envelope.{
  Envelope, raw_event_type, raw_payload, raw_metadata, json_size, is_generic_envelope,
}
use cloud_portfolio.Worker.Envelope.Accepted.{HasEnvelope, event_envelope-ok}
use cloud_portfolio.Worker.Route.{v1, streams}
use cloud_portfolio.Worker.Route.Printed.{parse_route-v1_streams}
use cloud_portfolio.Worker.Job.{Job}
use cloud_portfolio.Worker.Ingress.{
  Identity, check_aliases, check_route, check_envelope, validate_ingress_payload,
}
use cloud_portfolio.Worker.Ingress.Accepted.{
  Rest, HasRest, accepted_job, validate_ingress_payload-ok,
}
use cloud_portfolio.Worker.Ingress.Accepted.Head.{HasIdentity, positive_bigint-number}
use cloud_portfolio.Api.Schemas.{EventCreate, is_idempotency_header}
use cloud_portfolio.Api.Schemas.Checked.{IsScalar}
use cloud_portfolio.Api.Intake.{Call, event_job}
use cloud_portfolio.Worker.World.{World}
use cloud_portfolio.Api.Intake.{create_event, event_answer}
use cloud_portfolio.Api.Schemas.{EventCreate, event_create}
use cloud_portfolio.Api.Schemas.Checked.{event_create-IsScalar}
use cloud_portfolio.Api.Intake.Accepted.{
  IsCall, IsId, route_text, header-ok, text_payload-fits, text_payload-size, IsQueued,
  store_request_and_queue_job-IsQueued,
}

module _ (call : Call) (stream_id actor : ℕ) (body : Text) (key : Option Text) where
  abbrev event_head : Identity
  event_head = record {
    request_id = call.request_id;
    route = codes "POST:/v1/streams/" ++ (decimal stream_id ++ codes "/events");
    room_id = stream_id;
    user_id = actor;
    schema_version = 1;
  }

  abbrev event_content : Envelope
  event_content = record {
    event_type = codes "legacy.message";
    payload = field (codes "text") (str body) end;
    metadata = end;
  }

  abbrev event_rest : Rest
  event_rest = record {
    idem_key = key;
    room_seq = none;
    retry_count = 0;
    replay_count = 0;
    queued_at = some call.queued_at;
    replayed_at = none;
    payment_id = none;
  }

  event_job-HasIdentity :
      short_text 80 (some (str call.request_id)) ≡ some call.request_id
      → IsId stream_id
      → IsId actor
      → HasIdentity (event_job call stream_id body key actor) event_head
  unfolding event_job get check_route get_or smallint_version has_nul
  event_job-HasIdentity request stream user = record {
    parsed = record { version = v1; resource = streams; stream_id = stream_id };
    request_id = refl;
    route = refl;
    room_id = refl;
    user_id = refl;
    request_text = request;
    route_text =
        route_text (codes "POST:/v1/streams/") stream_id stream (omega arith) (omega arith) refl;
    room_bigint = positive_bigint-number stream_id stream.positive stream.bounded;
    user_bigint = positive_bigint-number actor user.positive user.bounded;
    parses = parse_route-v1_streams stream_id stream.positive;
    checks = rw ((==_iff stream_id stream_id).1 refl, check_route) refl;
  }

  event_job-HasEnvelope :
      IsScalar 1 1000 body
      → HasEnvelope
          (put (codes "schema_version") (number 1) (event_job call stream_id body key actor))
          event_content
  unfolding event_job get put get_or raw_event_type raw_payload raw_metadata is_generic_envelope
      short_text fits json_size dumps utf8_size
  event_job-HasEnvelope h = record {
    event_type = refl;
    event_text = refl;
    event_name = refl;
    payload = refl;
    metadata = refl;
    payload_fits = text_payload-fits body h;
    metadata_fits = refl;
    payload_size = text_payload-size body h.at_most;
    metadata_size = omega arith;
  }

  event_job-HasRest :
      (is_aware : Text → Bool)
      → IsCall is_aware call
      → is_idempotency_header key ≡ true
      → HasRest is_aware (event_job call stream_id body key actor) event_rest
  unfolding event_job get_value get counter_bigint
  event_job-HasRest is_aware known header = record {
    idem_key = header-ok key header;
    room_seq = refl;
    retry_count = refl;
    replay_count = refl;
    next_retry_at = refl;
    queued_at = rw known.queued_at refl;
    replayed_at = refl;
    payment_id = refl;
  }

  -- The job that the worker makes of what `create_event` queues.
  pub accepted_event : Job
  unfolding accepted_job
  accepted_event = accepted_job event_head event_content event_rest

  event_job-aliases : check_aliases (event_job call stream_id body key actor) ≡ ok tt
  unfolding check_aliases event_job get
  event_job-aliases = refl

  event_job-seq : get (codes "room_seq") (event_job call stream_id body key actor) ≡ some null
  unfolding event_job get
  event_job-seq = refl

  event_job-envelope :
      IsScalar 1 1000 body
      → check_envelope 1
          (put (codes "schema_version") (number 1) (event_job call stream_id body key actor))
        ≡ ok event_content
  unfolding check_envelope event_job get put
  event_job-envelope h =
      event_envelope-ok
        (put (codes "schema_version") (number 1) (event_job call stream_id body key actor))
        event_content (event_job-HasEnvelope h)

  event_job-accepted :
      (is_aware : Text → Bool)
      → IsCall is_aware call
      → IsId stream_id
      → IsId actor
      → is_idempotency_header key ≡ true
      → IsScalar 1 1000 body
      → (validate_ingress_payload is_aware (obj (event_job call stream_id body key actor))).0
        ≡ ok accepted_event
  unfolding accepted_event
  event_job-accepted is_aware known stream user header scalar =
      let d = event_job call stream_id body key actor in
      validate_ingress_payload-ok is_aware d event_head event_content event_rest null
        event_job-aliases (event_job-HasIdentity known.request_id stream user) event_job-seq
        (event_job-envelope scalar) (event_job-HasRest is_aware known header)

-- Let the header, the ids and the body of a request to `create_event` be such as the framework lets
-- through. However the send fares, the endpoint answers with the request's identifier after it has sent
-- one record to the key of the stream, of which the worker makes exactly the job of that request: same
-- identifier, stream, user and idempotency key, and the body as the text of its payload; or it answers
-- 503, the database is as it was, and nothing but that record may have been sent.
pub create_event-IsQueued :
    (is_aware : Text → Bool) (call : Call) (stream_id actor : ℕ) (body : Text)
    (payload : EventCreate) (key : Option Text) (w : World)
    → IsCall is_aware call
    → IsId stream_id
    → IsId actor
    → is_idempotency_header key ≡ true
    → event_create body ≡ ok payload
    → IsQueued is_aware stream_id
        (accepted_event call stream_id actor payload.body key)
        w
        (create_event call stream_id payload key actor w)
unfolding create_event accepted_event
create_event-IsQueued is_aware call stream_id actor body payload key w known stream user header h =
    store_request_and_queue_job-IsQueued is_aware call stream_id
      (event_answer call stream_id payload.body actor)
      (event_job call stream_id payload.body key actor)
      (accepted_event call stream_id actor payload.body key) w
      (event_job-accepted call stream_id actor payload.body key is_aware known stream user header
        (event_create-IsScalar body payload h))
      (unfold event_answer in unfold accepted_job in unfold get in refl)
