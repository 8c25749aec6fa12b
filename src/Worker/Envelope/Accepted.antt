-- ===== src/Worker/Envelope/Accepted.antt =====
-- Which jobs `_event_envelope` lets through.
use cloud_portfolio.Prelude.{
  ℕ, ◌≤◌, ◌≡◌, refl, ap, Bool, true, false, not, ◌&&◌, some, Text, codes, ltb, [], ◌∷◌, length,
  has_nul, arith,
}
use cloud_portfolio.Errors.{ok, >>=-ok, raise_if}
use cloud_portfolio.Json.{str, obj, Fields, get}
use cloud_portfolio.Json.Checks.{short_text, or_raise}
use cloud_portfolio.Json.Structure.{max_json_nesting_depth, is_generic_event_type}
use cloud_portfolio.Json.Structure.Sound.{fits, validate_json_structure-ok}
use cloud_portfolio.Worker.Envelope.{
  Envelope, event_envelope, is_generic_envelope, raw_event_type, checked_event_type, raw_payload,
  raw_metadata, as_object, json_size, max_payload_bytes, max_metadata_bytes,
}

pub short_text-ok :
    (limit : ℕ) (s : Text)
    → 1 ≤ length s
    → length s ≤ limit
    → has_nul s ≡ false
    → short_text limit (some (str s)) ≡ some s
unfolding short_text
short_text-ok limit [] h k n = absurd (omega (arith, h))
short_text-ok limit (c ∷ s) h k n = rw n (ground (arith, k))

checked_event_type-ok :
    (generic : Bool) (s : Text)
    → short_text 50 (some (str s)) ≡ some s
    → (generic && not (is_generic_event_type s)) ≡ false
    → checked_event_type generic (str s) ≡ ok s
unfolding checked_event_type
checked_event_type-ok generic s h k =
    >>=-ok (or_raise (short_text 50 (some (str s))) (codes "Invalid event_type")) _
      (ap (λ o. or_raise o (codes "Invalid event_type")) h)
      (>>=-ok
        (raise_if (generic && not (is_generic_event_type s)) (codes "Invalid generic event_type")) _
        (ap (λ b. raise_if b (codes "Invalid generic event_type")) k) refl)

not_above : (limit n : ℕ) → n ≤ limit → ltb limit n ≡ false
not_above limit n h = ground arith

-- What is found under the keys of a job, and that it passes.
pub record HasEnvelope (d : Fields) (e : Envelope) : Type 0 where
  pub event_type :
      raw_event_type (is_generic_envelope d) (get (codes "event_type") d) ≡ ok (str e.event_type)
  pub event_text : short_text 50 (some (str e.event_type)) ≡ some e.event_type
  pub event_name : (is_generic_envelope d && not (is_generic_event_type e.event_type)) ≡ false
  pub payload : raw_payload (is_generic_envelope d) d ≡ ok (obj e.payload)
  pub metadata : raw_metadata (is_generic_envelope d) d ≡ obj e.metadata
  pub payload_fits : fits max_json_nesting_depth 0 (obj e.payload) ≡ true
  pub metadata_fits : fits max_json_nesting_depth 0 (obj e.metadata) ≡ true
  pub payload_size : json_size e.payload ≤ max_payload_bytes
  pub metadata_size : json_size e.metadata ≤ max_metadata_bytes

pub event_envelope-ok : (d : Fields) (e : Envelope) → HasEnvelope d e → event_envelope d ≡ ok e
unfolding event_envelope as_object
event_envelope-ok d e h =
    rw
      (
        h.event_type,
        checked_event_type-ok (is_generic_envelope d) e.event_type h.event_text h.event_name,
        h.payload,
        h.metadata,
        validate_json_structure-ok max_json_nesting_depth (obj e.payload) h.payload_fits,
        validate_json_structure-ok max_json_nesting_depth (obj e.metadata) h.metadata_fits,
        not_above max_payload_bytes (json_size e.payload) h.payload_size,
        not_above max_metadata_bytes (json_size e.metadata) h.metadata_size,
      )
      refl
