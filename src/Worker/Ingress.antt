-- ===== src/Worker/Ingress.antt =====
-- worker/main.py: `_validate_ingress_payload`. The dict that it is given is changed on the way, and
-- a caller that catches the error goes on with the changed dict; so each call returns it too.
pub mod Accepted
use cloud_portfolio.Prelude.{
  ℕ, Bool, true, false, ◌&&◌, ◌||◌, not, Option, none, some, length, ltb, leb, ◌==◌, if◌then◌else◌,
  Text, codes, has_nul, List, [], ◌∷◌, ◌++◌,
}
use cloud_portfolio.Errors.{Result, ok, err, value_error, ◌>>=◌, ◌>>◌, raise_if}
use cloud_portfolio.Json.{Value, null, str, obj, Fields, get, put, contains}
use cloud_portfolio.Json.Checks.{
  short_text, positive_bigint, counter_bigint, smallint_version, or_raise, get_or, get_value,
  number,
}
use cloud_portfolio.Worker.Envelope.{
  Envelope, event_envelope, legacy_body_preview, validate_alias_pair,
}
use cloud_portfolio.Worker.Route.{Version, v1, v2, Resource, streams, orders, Route, parse_route}
use cloud_portfolio.Worker.Job.{Job}

unfoldable pub check_aliases : Fields → Result (Unit {0})
unfolding validate_alias_pair
check_aliases d = do
  validate_alias_pair d (codes "stream_id") (codes "room_id")
  validate_alias_pair d (codes "actor_id") (codes "user_id")
  validate_alias_pair d (codes "stream_seq") (codes "room_seq")

-- `if legacy not in d and canonical in d: d[legacy] = d[canonical]`
fill_alias : Text → Text → Fields → Fields
unfolding get put
fill_alias legacy canonical d = elim (get legacy d) [
  | some v ↦ d
  | none ↦ elim (get canonical d) [ none ↦ d | some v ↦ put legacy v d ]
]

pub fill_aliases : Fields → Fields
unfolding fill_alias
fill_aliases d = fill_alias (codes "room_seq") (codes "stream_seq") (
    fill_alias (codes "user_id") (codes "actor_id")
      (fill_alias (codes "room_id") (codes "stream_id") d))

check_present : Fields → List Text → Result (Unit {0})
unfolding get
check_present d [] = ok tt
check_present d (k ∷ ks) =
    raise_if (not (contains k d)) (codes "Ingress payload missing " ++ k) >> check_present d ks

-- What the first part of the checks has established.
pub record Identity : Type 0 where
  pub request_id : Text
  pub route : Text
  pub room_id : ℕ
  pub user_id : ℕ
  pub schema_version : ℕ

abbrev is_v2 : Version → Bool
is_v2 v1 = false
is_v2 v2 = true

abbrev is_streams : Resource → Bool
is_streams streams = true
is_streams orders = false

unfoldable pub check_route : Fields → Route → ℕ → Result ℕ
unfolding get get_or smallint_version
check_route d route room_id = do
  raise_if (not (route.stream_id == room_id)) (codes "Ingress route stream does not match room_id")
  raise_if (is_v2 route.version && not (is_streams route.resource))
      (codes "V2 ingress route must use streams")
  raise_if (is_v2 route.version && not (contains (codes "schema_version") d))
      (codes "V2 ingress missing schema_version")
  schema_version ←
      or_raise (smallint_version (some (get_or (codes "schema_version") (number 1) d)))
        (codes "Invalid schema_version")
  raise_if (is_v2 route.version && not (schema_version == 2))
      (codes "V2 ingress requires schema_version 2")
  ok schema_version

pub check_identity : Fields → Result Identity
unfolding check_present short_text positive_bigint parse_route check_route get
check_identity d = do
  check_present d (codes "request_id" ∷ codes "route" ∷ codes "room_id" ∷ codes "user_id" ∷ [])
  request_id ← or_raise (short_text 80 (get (codes "request_id") d)) (codes "Invalid request_id")
  route ← or_raise (short_text 500 (get (codes "route") d)) (codes "Invalid route")
  room_id ← or_raise (positive_bigint (get (codes "room_id") d)) (codes "Invalid room_id")
  user_id ← or_raise (positive_bigint (get (codes "user_id") d)) (codes "Invalid user_id")
  parsed ← or_raise (parse_route route) (codes "Invalid ingress route")
  schema_version ← check_route d parsed room_id
  ok (record {
    request_id = request_id;
    route = route;
    room_id = room_id;
    user_id = user_id;
    schema_version = schema_version;
  })

unfoldable pub check_envelope : ℕ → Fields → Result Envelope
unfolding event_envelope get
check_envelope schema_version d = do
  raise_if (leb 2 schema_version && not (contains (codes "payload") d))
      (codes "Generic ingress missing payload")
  raise_if
      (not (leb 2 schema_version)
        && (not (contains (codes "payload") d) && not (contains (codes "body") d)))
      (codes "Ingress payload missing payload")
  event_envelope d

-- A value that may be `None`, and else has to pass a test.
abbrev pub optional {ℓ} : {A : Type ℓ} → (Value → Option A) → Text → Value → Result (Option A)
optional test message null = ok none
optional test message v = or_raise (test v) message >>= λ a. ok (some a)

abbrev is_null : Value → Bool
is_null null = true
is_null _ = false

unfoldable pub payment_text : Value → Option Text
unfolding has_nul
payment_text (str s) = if ltb 80 (length s) || has_nul s then none else some s
payment_text _ = none

-- `is_aware` says of a text that `datetime.fromisoformat` reads it as a time with an offset from
-- UTC and a finite timestamp.
module _ (is_aware : Text → Bool) where
  -- `_validated_iso_timestamp` of a value that is not `None`.
  unfoldable pub iso_text : Value → Option Text
  unfolding short_text
  iso_text v = elim (short_text 64 (some v)) [
    | none ↦ none
    | some s ↦ if is_aware s then some s else none
  ]

  check_rest : Identity → Envelope → Fields → Result Job
  unfolding get_value get_or short_text positive_bigint counter_bigint iso_text payment_text
      legacy_body_preview
  check_rest head envelope d = do
    idem_key ←
        optional (λ v. short_text 128 (some v)) (codes "Invalid x_idempotency_key")
          (get_value (codes "x_idempotency_key") d)
    room_seq ←
        optional (λ v. positive_bigint (some v)) (codes "Invalid room_seq")
          (get_value (codes "room_seq") d)
    retry_count ←
        or_raise (counter_bigint (some (get_or (codes "retry_count") (number 0) d)))
          (codes "Invalid retry_count")
    replay_count ←
        or_raise (counter_bigint (some (get_or (codes "replay_count") (number 0) d)))
          (codes "Invalid replay_count")
    raise_if (not (is_null (get_value (codes "next_retry_at") d)))
        (codes "Ingress next_retry_at must be null")
    queued_at ← optional iso_text (codes "Invalid queued_at") (get_value (codes "queued_at") d)
    replayed_at ←
        optional iso_text (codes "Invalid replayed_at") (get_value (codes "replayed_at") d)
    payment_id ←
        optional payment_text (codes "Invalid payment_id") (get_value (codes "payment_id") d)
    ok (record {
      request_id = head.request_id;
      route = head.route;
      room_id = head.room_id;
      user_id = head.user_id;
      room_seq = room_seq;
      schema_version = head.schema_version;
      event_type = envelope.event_type;
      payload = envelope.payload;
      metadata = envelope.metadata;
      body = legacy_body_preview envelope.payload;
      x_idempotency_key = idem_key;
      retry_count = retry_count;
      replay_count = replay_count;
      next_retry_at = none;
      queued_at = queued_at;
      replayed_at = replayed_at;
      payment_id = payment_id;
    })

  with_envelope : Envelope → Fields → Fields
  unfolding put legacy_body_preview
  with_envelope e d = put (codes "body") (str (legacy_body_preview e.payload)) (
      put (codes "metadata") (obj e.metadata)
        (put (codes "payload") (obj e.payload) (put (codes "event_type") (str e.event_type) d)))

  after_envelope : Identity → Fields → Result Envelope → Result Job × Fields
  unfolding check_rest with_envelope
  after_envelope head d (err e) = (err e, d)
  after_envelope head d (ok envelope) =
      let d' = with_envelope envelope d in (check_rest head envelope d', d')

  after_identity : Fields → Result Identity → Result Job × Fields
  unfolding put check_envelope after_envelope
  after_identity d (err e) = (err e, d)
  after_identity d (ok head) =
      let d' = put (codes "schema_version") (number head.schema_version) d in
      after_envelope head d' (check_envelope head.schema_version d')

  after_aliases : Fields → Result (Unit {0}) → Result Job × Fields
  unfolding fill_aliases check_identity after_identity
  after_aliases d (err e) = (err e, d)
  after_aliases d (ok u) = let d' = fill_aliases d in after_identity d' (check_identity d')

  -- `_validate_ingress_payload` of a dict.
  validate_fields : Fields → Result Job × Fields
  unfolding check_aliases after_aliases
  validate_fields d = after_aliases d (check_aliases d)

  -- `_validate_ingress_payload`
  unfoldable pub validate_ingress_payload : Value → Result Job × Value
  unfolding validate_fields
  validate_ingress_payload (obj d) = let (r, d') = validate_fields d in (r, obj d')
  validate_ingress_payload v =
      (err (value_error (codes "Ingress payload must be a JSON object")), v)
