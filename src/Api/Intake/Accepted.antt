-- ===== src/Api/Intake/Accepted.antt =====
-- What a request has to fulfil for its job to be accepted by the worker, and what that means.
pub mod Event
pub mod Metadata
pub mod Order
pub mod Generic
use cloud_portfolio.Prelude.{
  ℕ, ◌+◌, ◌*◌, ◌≤◌, ◌<◌, ◌^◌, ◌≡◌, refl, sym, ap, ◌∙◌, Bool, true, false, not, ◌&&◌, Option, none,
  some, length, Text, codes, decimal, arith, ◌++◌, has_nul, ==_iff, length-append,
}
use cloud_portfolio.Errors.{Result, ok}
use cloud_portfolio.Json.{
  Value, null, str, obj, Fields, end, field, get, put, dumps, utf8_size, escape,
}
use cloud_portfolio.Json.Checks.{
  short_text, smallint_version, counter_bigint, number, text_or_null, get_or, get_value,
  max_postgres_bigint,
}
use cloud_portfolio.Json.Size.{utf8_size-append, utf8_size-escape}
use cloud_portfolio.Json.Structure.{max_json_nesting_depth, contains_utf16_surrogate}
use cloud_portfolio.Json.Structure.Sound.{fits, text_fits}
use cloud_portfolio.Worker.Envelope.{
  Envelope, raw_event_type, raw_payload, raw_metadata, json_size, is_generic_envelope,
  event_envelope,
}
use cloud_portfolio.Worker.Envelope.Accepted.{HasEnvelope, event_envelope-ok, short_text-ok}
use cloud_portfolio.Worker.Route.{v1, v2, streams, orders}
use cloud_portfolio.Worker.Route.Printed.{
  parse_route-v1_streams, parse_route-v1_orders, parse_route-v2_streams, length-route,
  has_nul-route,
}
use cloud_portfolio.Worker.Job.{Job}
use cloud_portfolio.Worker.Ingress.{
  Identity, check_aliases, check_route, check_envelope, validate_ingress_payload, iso_text,
  optional,
}
use cloud_portfolio.Worker.Ingress.Accepted.{
  Rest, HasRest, accepted_job, validate_ingress_payload-ok,
}
use cloud_portfolio.Worker.Ingress.Accepted.Head.{HasIdentity, positive_bigint-number}
use cloud_portfolio.Api.Schemas.{EventCreate, is_idempotency_header}
use cloud_portfolio.Api.Schemas.Checked.{IsScalar, IsScalar-no_nul}
use cloud_portfolio.Api.Intake.{Call, event_job}
use cloud_portfolio.Prelude.{List, [], ◌∷◌, ◌⊎◌, inl, inr}
use cloud_portfolio.Worker.Outbox.{Send, acknowledged, refused, unanswered}
use cloud_portfolio.Worker.World.{World}
use cloud_portfolio.Api.Answer.{Answer, done, failed, http, publish_ingress_job}
use cloud_portfolio.Api.Intake.{answer_queued, store_request_and_queue_job}

-- What the intake relies on: `uuid4` prints a short text without NUL, and `isoformat` of an aware time
-- a text that the worker reads as one.
pub record IsCall (is_aware : Text → Bool) (call : Call) : Type 0 where
  pub request_id : short_text 80 (some (str call.request_id)) ≡ some call.request_id
  pub queued_at : iso_text is_aware (str call.queued_at) ≡ some call.queued_at

-- An id as the path and the token give it.
pub record IsId (n : ℕ) : Type 0 where
  pub positive : 1 ≤ n
  pub bounded : n ≤ max_postgres_bigint

below_power : (n : ℕ) → n ≤ max_postgres_bigint → n < 10 ^ 19
below_power n h = omega (arith, h)

pub route_text :
    (prefix : Text) (n : ℕ)
    → IsId n
    → length prefix ≤ 100
    → 1 ≤ length prefix
    → has_nul prefix ≡ false
    → short_text 500 (some (str (prefix ++ (decimal n ++ codes "/events"))))
      ≡ some (prefix ++ (decimal n ++ codes "/events"))
route_text prefix n h short some_text nul =
    short_text-ok 500 (prefix ++ (decimal n ++ codes "/events"))
      (omega (arith, length-append prefix (decimal n ++ codes "/events"), some_text))
      (omega (arith, length-route prefix n (below_power n h.bounded), short))
      (has_nul-route prefix n nul)

-- A header that the framework lets through passes.
pub header-ok :
    (key : Option Text)
    → is_idempotency_header key ≡ true
    → optional (λ v. short_text 128 (some v)) (codes "Invalid x_idempotency_key") (text_or_null key)
      ≡ ok key
unfolding is_idempotency_header
header-ok none h = refl
header-ok (some s) h =
    rw (short_text-ok 128 s (ground (arith, h)) (ground (arith, h)) (ground (arith, h))) refl

-- `{"text": body}` is within the limits.
pub text_payload-fits :
    {a b : ℕ} (body : Text)
    → IsScalar a b body
    → fits max_json_nesting_depth 0 (obj (field (codes "text") (str body) end)) ≡ true
unfolding fits has_nul contains_utf16_surrogate
text_payload-fits body h = rw h.scalars refl

pub text_payload-size :
    (body : Text) → length body ≤ 1000 → json_size (field (codes "text") (str body) end) ≤ 65536
unfolding json_size dumps utf8_size
text_payload-size body h =
    omega (arith, utf8_size-append (escape body) (codes "}"), utf8_size-escape body, h)

-- How a request to post an event ends: either the answer names the request, and one record has been
-- sent to the key of the stream, of which the worker makes the job that is expected; or the answer is
-- 503, the database is as it was, and no more than that record has been sent.
abbrev pub IsQueued : (Text → Bool) → ℕ → Job → World → Answer Fields × World → Type 0
IsQueued is_aware stream_id expected w (done a, w') =
    (d : Fields) × (w' ≡ record w { ingress = w.ingress ++ (stream_id, d) ∷ [] })
    × ((validate_ingress_payload is_aware (obj d)).0 ≡ ok expected)
    × (get (codes "request_id") a ≡ some (str expected.request_id))
IsQueued is_aware stream_id expected w (failed f, w') =
    (f ≡ http 503 (codes "Kafka unavailable"))
    × (w'.database ≡ w.database)
    × ((w'.ingress ≡ w.ingress)
        ⊎ ((d : Fields) × (w'.ingress ≡ w.ingress ++ (stream_id, d) ∷ [])
            × ((validate_ingress_payload is_aware (obj d)).0 ≡ ok expected)))

answer_queued-IsQueued :
    (is_aware : Text → Bool) (send : Send) (stream_id : ℕ) (accepted d : Fields) (expected : Job)
    (w : World)
    → (validate_ingress_payload is_aware (obj d)).0 ≡ ok expected
    → get (codes "request_id") accepted ≡ some (str expected.request_id)
    → IsQueued is_aware stream_id expected w
        (answer_queued accepted (publish_ingress_job send stream_id d w))
unfolding answer_queued publish_ingress_job
answer_queued-IsQueued is_aware acknowledged stream_id accepted d expected w h k = (d, refl, h, k)
answer_queued-IsQueued is_aware (refused e) stream_id accepted d expected w h k =
    (refl, refl, inl refl)
answer_queued-IsQueued is_aware (unanswered e) stream_id accepted d expected w h k =
    (refl, refl, inr (d, refl, h))

pub store_request_and_queue_job-IsQueued :
    (is_aware : Text → Bool) (call : Call) (stream_id : ℕ) (accepted d : Fields) (expected : Job)
    (w : World)
    → (validate_ingress_payload is_aware (obj d)).0 ≡ ok expected
    → get (codes "request_id") accepted ≡ some (str expected.request_id)
    → IsQueued is_aware stream_id expected w
        (store_request_and_queue_job call stream_id accepted d w)
unfolding store_request_and_queue_job
store_request_and_queue_job-IsQueued is_aware call stream_id accepted d expected w h k =
    answer_queued-IsQueued is_aware call.send stream_id accepted d expected w h k
