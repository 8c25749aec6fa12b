-- ===== src/Worker/Ingress/Accepted.antt =====
-- Which dicts `_validate_ingress_payload` lets through: conditions on the values found under its keys.
pub mod Head
use cloud_portfolio.Worker.Ingress.Accepted.Head.{
  HasIdentity, or_raise-some, check_identity-ok, filled,
}
use cloud_portfolio.Prelude.{
  ℕ, ◌≤◌, ◌≡◌, refl, ap, ◌∙◌, Bool, true, not, ◌||◌, Option, none, some, [], ◌∷◌, Text, codes,
  arith, text_eq, List, ◌++◌, is_some, All,
}
use cloud_portfolio.Errors.{ok, >>=-ok, raise_if}
use cloud_portfolio.Json.{Value, null, str, obj, Fields, get, put, contains}
use cloud_portfolio.Json.Checks.{
  short_text, positive_bigint, counter_bigint, or_raise, get_or, get_value, number,
  max_postgres_bigint,
}
use cloud_portfolio.Json.Lookup.{get-put_other}
use cloud_portfolio.Worker.Envelope.{Envelope, legacy_body_preview}
use cloud_portfolio.Worker.Route.{Route, parse_route}
use cloud_portfolio.Worker.Job.{Job}
use cloud_portfolio.Worker.Ingress.{
  check_present, check_aliases, fill_alias, fill_aliases, Identity, check_identity, check_route,
  check_envelope, check_rest, with_envelope, after_aliases, after_identity, after_envelope,
  validate_ingress_payload, iso_text, optional, payment_text, is_null,
}

optional_same :
    {A : Type 0} (test : Value → Option A) (message : Text) (v w : Value) (a : Option A)
    → w ≡ v
    → optional test message v ≡ ok a
    → optional test message w ≡ ok a
optional_same test message v w a e h = ap (optional test message) e ∙ h

-- Keys that the checks do not write.
abbrev is_other : Text → Bool
is_other k = not (
    text_eq k (codes "body")
    || (text_eq k (codes "metadata")
        || (text_eq k (codes "payload")
            || (text_eq k (codes "event_type") || text_eq k (codes "schema_version")))))

-- What the last part of the checks has established.
pub record Rest : Type 0 where
  pub idem_key : Option Text
  pub room_seq : Option ℕ
  pub retry_count : ℕ
  pub replay_count : ℕ
  pub queued_at : Option Text
  pub replayed_at : Option Text
  pub payment_id : Option Text

unfoldable pub accepted_job : Identity → Envelope → Rest → Job
accepted_job head envelope rest = record {
  request_id = head.request_id;
  route = head.route;
  room_id = head.room_id;
  user_id = head.user_id;
  room_seq = rest.room_seq;
  schema_version = head.schema_version;
  event_type = envelope.event_type;
  payload = envelope.payload;
  metadata = envelope.metadata;
  body = legacy_body_preview envelope.payload;
  x_idempotency_key = rest.idem_key;
  retry_count = rest.retry_count;
  replay_count = rest.replay_count;
  next_retry_at = none;
  queued_at = rest.queued_at;
  replayed_at = rest.replayed_at;
  payment_id = rest.payment_id;
}

module _ (is_aware : Text → Bool) where
  -- The values under the other keys pass.
  pub record HasRest (d : Fields) (rest : Rest) : Type 0 where
    pub idem_key :
        optional
          (λ v. short_text 128 (some v))
          (codes "Invalid x_idempotency_key")
          (get_value (codes "x_idempotency_key") d)
        ≡ ok rest.idem_key
    pub room_seq :
        optional
          (λ v. positive_bigint (some v))
          (codes "Invalid room_seq")
          (get_value (codes "room_seq") d)
        ≡ ok rest.room_seq
    pub retry_count :
        counter_bigint (some (get_or (codes "retry_count") (number 0) d)) ≡ some rest.retry_count
    pub replay_count :
        counter_bigint (some (get_or (codes "replay_count") (number 0) d)) ≡ some rest.replay_count
    pub next_retry_at : get_value (codes "next_retry_at") d ≡ null
    pub queued_at :
        optional (iso_text is_aware) (codes "Invalid queued_at") (get_value (codes "queued_at") d)
        ≡ ok rest.queued_at
    pub replayed_at :
        optional
          (iso_text is_aware)
          (codes "Invalid replayed_at")
          (get_value (codes "replayed_at") d)
        ≡ ok rest.replayed_at
    pub payment_id :
        optional payment_text (codes "Invalid payment_id") (get_value (codes "payment_id") d)
        ≡ ok rest.payment_id

  -- The dict after the checks have put what they have found.
  completed : Identity → Envelope → Fields → Fields
  unfolding with_envelope put
  completed head envelope d =
      with_envelope is_aware envelope (put (codes "schema_version") (number head.schema_version) d)

  get-completed :
      (k : Text) (head : Identity) (envelope : Envelope) (d : Fields)
      → is_other k ≡ true
      → get k (completed head envelope d) ≡ get k d
  unfolding completed with_envelope
  get-completed k head envelope d h =
      get-put_other k (codes "body") _ _ (ground (arith, h))
      ∙ get-put_other k (codes "metadata") _ _ (ground (arith, h))
      ∙ get-put_other k (codes "payload") _ _ (ground (arith, h))
      ∙ get-put_other k (codes "event_type") _ _ (ground (arith, h))
      ∙ get-put_other k (codes "schema_version") _ _ (ground (arith, h))

  get_or-completed :
      (k : Text) (default : Value) (head : Identity) (envelope : Envelope) (d : Fields)
      → is_other k ≡ true
      → get_or k default (completed head envelope d) ≡ get_or k default d
  unfolding get_or
  get_or-completed k default head envelope d h =
      ap (λ o. elim o [ none ↦ default | some v ↦ v ]) (get-completed k head envelope d h)

  get_value-completed :
      (k : Text) (head : Identity) (envelope : Envelope) (d : Fields)
      → is_other k ≡ true
      → get_value k (completed head envelope d) ≡ get_value k d
  unfolding get_value
  get_value-completed k head envelope d h = get_or-completed k null head envelope d h

  -- Only the values under those keys count for the last part.
  check_rest-ok :
      (d d' : Fields) (head : Identity) (envelope : Envelope) (rest : Rest)
      → ((k : Text) (default : Value)
          → is_other k ≡ true
          → get_or k default d' ≡ get_or k default d)
      → HasRest d rest
      → check_rest is_aware head envelope d' ≡ ok (accepted_job head envelope rest)
  unfolding check_rest accepted_job get_value
  check_rest-ok d d' head envelope rest same h =
      >>=-ok
        (optional (λ v. short_text 128 (some v)) (codes "Invalid x_idempotency_key")
          (get_value (codes "x_idempotency_key") d'))
        _
        (optional_same (λ v. short_text 128 (some v)) (codes "Invalid x_idempotency_key") _ _ _
          (same (codes "x_idempotency_key") null refl) h.idem_key)
        (>>=-ok
          (optional (λ v. positive_bigint (some v)) (codes "Invalid room_seq")
            (get_value (codes "room_seq") d'))
          _
          (optional_same (λ v. positive_bigint (some v)) (codes "Invalid room_seq") _ _ _
            (same (codes "room_seq") null refl) h.room_seq)
          (>>=-ok
            (or_raise (counter_bigint (some (get_or (codes "retry_count") (number 0) d')))
              (codes "Invalid retry_count"))
            _
            (or_raise-some _ _ _ (
              ap (λ v. counter_bigint (some v)) (same (codes "retry_count") (number 0) refl)
              ∙ h.retry_count))
            (>>=-ok
              (or_raise (counter_bigint (some (get_or (codes "replay_count") (number 0) d')))
                (codes "Invalid replay_count"))
              _
              (or_raise-some _ _ _ (
                ap (λ v. counter_bigint (some v)) (same (codes "replay_count") (number 0) refl)
                ∙ h.replay_count))
              (>>=-ok
                (raise_if (not (is_null (get_value (codes "next_retry_at") d')))
                  (codes "Ingress next_retry_at must be null"))
                _
                (ap (λ v. raise_if (not (is_null v)) (codes "Ingress next_retry_at must be null"))
                  (same (codes "next_retry_at") null refl ∙ h.next_retry_at))
                (>>=-ok
                  (optional (iso_text is_aware) (codes "Invalid queued_at")
                    (get_value (codes "queued_at") d'))
                  _
                  (optional_same (iso_text is_aware) (codes "Invalid queued_at") _ _ _
                    (same (codes "queued_at") null refl) h.queued_at)
                  (>>=-ok
                    (optional (iso_text is_aware) (codes "Invalid replayed_at")
                      (get_value (codes "replayed_at") d'))
                    _
                    (optional_same (iso_text is_aware) (codes "Invalid replayed_at") _ _ _
                      (same (codes "replayed_at") null refl) h.replayed_at)
                    (>>=-ok
                      (optional payment_text (codes "Invalid payment_id")
                        (get_value (codes "payment_id") d'))
                      _
                      (optional_same payment_text (codes "Invalid payment_id") _ _ _
                        (same (codes "payment_id") null refl) h.payment_id)
                      refl)))))))

  -- Conditions under which the worker accepts a dict.
  pub validate_ingress_payload-ok :
      (d : Fields) (head : Identity) (envelope : Envelope) (rest : Rest) (seq : Value)
      → check_aliases d ≡ ok tt
      → HasIdentity d head
      → get (codes "room_seq") d ≡ some seq
      → check_envelope head.schema_version
          (put (codes "schema_version") (number head.schema_version) d)
        ≡ ok envelope
      → HasRest d rest
      → (validate_ingress_payload is_aware (obj d)).0 ≡ ok (accepted_job head envelope rest)
  unfolding validate_ingress_payload completed
  validate_ingress_payload-ok d head envelope rest seq aliases h present e r =
      ap (λ x. (after_aliases is_aware d x).0) aliases
      ∙ unfold after_aliases in
        ap (λ x. (after_identity is_aware x (check_identity x)).0) (filled d head seq h present)
        ∙ ap (λ x. (after_identity is_aware d x).0) (check_identity-ok d head h)
        ∙ unfold after_identity in
          ap
            (λ x.
              (after_envelope is_aware head
                (put (codes "schema_version") (number head.schema_version) d) x).0)
            e
          ∙ unfold after_envelope in
            check_rest-ok d (completed head envelope d) head envelope rest
              (λ k default other. get_or-completed k default head envelope d other) r
