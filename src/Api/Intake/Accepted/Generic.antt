-- ===== src/Api/Intake/Accepted/Generic.antt =====
-- What the worker makes of the job that `create_generic_event` queues.
use cloud_portfolio.Prelude.{
  ℕ, ◌≡◌, refl, Bool, true, Option, none, some, Text, codes, decimal, arith, ◌++◌, has_nul, ==_iff,
}
use cloud_portfolio.Errors.{ok}
use cloud_portfolio.Json.{null, str, obj, Fields, end, get, put}
use cloud_portfolio.Json.Checks.{
  short_text, smallint_version, counter_bigint, number, get_or, get_value,
}
use cloud_portfolio.Worker.Envelope.{
  Envelope, raw_event_type, raw_payload, raw_metadata, is_generic_envelope,
}
use cloud_portfolio.Worker.Envelope.Accepted.{HasEnvelope, event_envelope-ok, short_text-ok}
use cloud_portfolio.Worker.Route.{v2, streams}
use cloud_portfolio.Worker.Route.Printed.{parse_route-v2_streams}
use cloud_portfolio.Worker.Job.{Job}
use cloud_portfolio.Worker.Ingress.{
  Identity, check_aliases, check_route, check_envelope, validate_ingress_payload,
}
use cloud_portfolio.Worker.Ingress.Accepted.{
  Rest, HasRest, accepted_job, validate_ingress_payload-ok,
}
use cloud_portfolio.Worker.Ingress.Accepted.Head.{HasIdentity, positive_bigint-number}
use cloud_portfolio.Api.Schemas.{is_idempotency_header}
use cloud_portfolio.Api.Intake.{Call}
use cloud_portfolio.Worker.World.{World}
use cloud_portfolio.Api.Intake.Accepted.{
  IsCall, IsId, route_text, header-ok, IsQueued, store_request_and_queue_job-IsQueued,
}
use cloud_portfolio.Json.{value_eq, same_type}
use cloud_portfolio.Json.Structure.Names.{is_generic_event_type-no_nul}
use cloud_portfolio.Worker.Envelope.{validate_alias_pair}
use cloud_portfolio.Api.Schemas.{GenericEventCreate, generic_event_create}
use cloud_portfolio.Api.Schemas.Checked.{IsGenericEvent, generic_event_create-IsGenericEvent}
use cloud_portfolio.Api.Intake.{create_generic_event, generic_job, generic_fields}

module _ (call : Call) (stream_id actor : ℕ) (e : GenericEventCreate) (key : Option Text) where
  abbrev generic_head : Identity
  generic_head = record {
    request_id = call.request_id;
    route = codes "POST:/v2/streams/" ++ (decimal stream_id ++ codes "/events");
    room_id = stream_id;
    user_id = actor;
    schema_version = 2;
  }

  abbrev generic_content : Envelope
  generic_content = record { event_type = e.event_type; payload = e.payload; metadata = e.metadata }

  abbrev generic_rest : Rest
  generic_rest = record {
    idem_key = key;
    room_seq = none;
    retry_count = 0;
    replay_count = 0;
    queued_at = some call.queued_at;
    replayed_at = none;
    payment_id = none;
  }

  generic_job-HasIdentity :
      short_text 80 (some (str call.request_id)) ≡ some call.request_id
      → IsId stream_id
      → IsId actor
      → HasIdentity (generic_job call stream_id e key actor) generic_head
  unfolding generic_job get check_route get_or smallint_version has_nul
  generic_job-HasIdentity request stream user = record {
    parsed = record { version = v2; resource = streams; stream_id = stream_id };
    request_id = refl;
    route = refl;
    room_id = refl;
    user_id = refl;
    request_text = request;
    route_text =
        route_text (codes "POST:/v2/streams/") stream_id stream (omega arith) (omega arith) refl;
    room_bigint = positive_bigint-number stream_id stream.positive stream.bounded;
    user_bigint = positive_bigint-number actor user.positive user.bounded;
    parses = parse_route-v2_streams stream_id stream.positive;
    checks = rw ((==_iff stream_id stream_id).1 refl, check_route) refl;
  }

  generic_job-HasEnvelope :
      IsGenericEvent e
      → HasEnvelope
          (put (codes "schema_version") (number 2) (generic_job call stream_id e key actor))
          generic_content
  unfolding generic_job get put get_or raw_event_type raw_payload raw_metadata is_generic_envelope
  generic_job-HasEnvelope h = record {
    event_type = refl;
    event_text =
        short_text-ok 50 e.event_type h.at_least h.at_most
          (is_generic_event_type-no_nul e.event_type h.name);
    event_name = rw h.name refl;
    payload = refl;
    metadata = refl;
    payload_fits = h.payload_fits;
    metadata_fits = h.metadata_fits;
    payload_size = h.payload_size;
    metadata_size = h.metadata_size;
  }

  generic_job-HasRest :
      (is_aware : Text → Bool)
      → IsCall is_aware call
      → is_idempotency_header key ≡ true
      → HasRest is_aware (generic_job call stream_id e key actor) generic_rest
  unfolding generic_job get_value get counter_bigint
  generic_job-HasRest is_aware known header = record {
    idem_key = header-ok key header;
    room_seq = refl;
    retry_count = refl;
    replay_count = refl;
    next_retry_at = refl;
    queued_at = rw known.queued_at refl;
    replayed_at = refl;
    payment_id = refl;
  }

  -- The job that the worker makes of what `create_generic_event` queues.
  pub accepted_generic : Job
  unfolding accepted_job
  accepted_generic = accepted_job generic_head generic_content generic_rest

  generic_job-aliases : check_aliases (generic_job call stream_id e key actor) ≡ ok tt
  unfolding check_aliases validate_alias_pair generic_job get value_eq same_type
  generic_job-aliases = rw ((==_iff stream_id stream_id).1 refl, (==_iff actor actor).1 refl) refl

  generic_job-seq : get (codes "room_seq") (generic_job call stream_id e key actor) ≡ some null
  unfolding generic_job get
  generic_job-seq = refl

  generic_job-envelope :
      IsGenericEvent e
      → check_envelope 2
          (put (codes "schema_version") (number 2) (generic_job call stream_id e key actor))
        ≡ ok generic_content
  unfolding check_envelope generic_job get put
  generic_job-envelope h =
      event_envelope-ok
        (put (codes "schema_version") (number 2) (generic_job call stream_id e key actor))
        generic_content (generic_job-HasEnvelope h)

  generic_job-accepted :
      (is_aware : Text → Bool)
      → IsCall is_aware call
      → IsId stream_id
      → IsId actor
      → is_idempotency_header key ≡ true
      → IsGenericEvent e
      → (validate_ingress_payload is_aware (obj (generic_job call stream_id e key actor))).0
        ≡ ok accepted_generic
  unfolding accepted_generic
  generic_job-accepted is_aware known stream user header h =
      let d = generic_job call stream_id e key actor in
      validate_ingress_payload-ok is_aware d generic_head generic_content generic_rest null
        generic_job-aliases (generic_job-HasIdentity known.request_id stream user) generic_job-seq
        (generic_job-envelope h) (generic_job-HasRest is_aware known header)

-- Let generic events be enabled, and the header, the ids and the body of a request to
-- `create_generic_event` be such as the framework lets through. However the send fares, the endpoint
-- answers with the request's identifier after it has sent one record to the key of the stream, of which
-- the worker makes exactly the job of that event, with its type, payload and metadata, the idempotency
-- key and the schema version 2; or it answers 503, the database is as it was, and nothing but that
-- record may have been sent.
pub create_generic_event-IsQueued :
    (is_aware : Text → Bool) (call : Call) (stream_id actor : ℕ) (event_type : Text)
    (content metadata : Fields) (payload : GenericEventCreate) (key : Option Text) (w : World)
    → IsCall is_aware call
    → IsId stream_id
    → IsId actor
    → is_idempotency_header key ≡ true
    → generic_event_create event_type content metadata ≡ ok payload
    → IsQueued is_aware stream_id
        (accepted_generic call stream_id actor payload key)
        w
        (create_generic_event true call stream_id payload key actor w)
unfolding create_generic_event accepted_generic
create_generic_event-IsQueued is_aware call stream_id actor event_type content metadata payload key
      w known stream user header h =
    store_request_and_queue_job-IsQueued is_aware call stream_id
      (generic_fields call stream_id payload actor end)
      (generic_job call stream_id payload key actor)
      (accepted_generic call stream_id actor payload key) w
      (generic_job-accepted call stream_id actor payload key is_aware known stream user header
        (generic_event_create-IsGenericEvent event_type content metadata payload h))
      (unfold generic_fields in unfold accepted_job in unfold get in refl)
