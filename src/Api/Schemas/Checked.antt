-- ===== src/Api/Schemas/Checked.antt =====
-- What the checks on the bodies of requests have established when they let one through.
use cloud_portfolio.Prelude.{
  ℕ, ◌≤◌, ◌≡◌, sym, ap, ◌∙◌, true, false, not, ◌||◌, Option, none, some, ltb, length, Text, has_nul,
  arith, codes, subst,
}
use cloud_portfolio.Errors.{Result, ok, err, >>=-eq-ok, raise_if, raise_if-eq-ok}
use cloud_portfolio.Json.{str, obj, Fields}
use cloud_portfolio.Json.Structure.{
  validate_json_structure, max_json_nesting_depth, is_generic_event_type,
}
use cloud_portfolio.Json.Structure.Sound.{fits, text_fits, fits-validate_json_structure}
use cloud_portfolio.Worker.Envelope.{json_size}
use cloud_portfolio.Api.Schemas.{
  unicode_scalar_text, scalar_text, EventCreate, event_create, OrderEventCreate, payment_field,
  order_event_create, GenericEventCreate, generic_event_create,
}

-- A text within the limits of its length, without NUL and surrogates.
pub record IsScalar (min_length max_length : ℕ) (s : Text) : Type 0 where
  pub at_least : min_length ≤ length s
  pub at_most : length s ≤ max_length
  pub scalars : text_fits s ≡ true

pub IsScalar-no_nul : {a b : ℕ} (s : Text) → IsScalar a b s → has_nul s ≡ false
unfolding text_fits
IsScalar-no_nul s h = ground (arith, h.scalars)

scalar_text-IsScalar : (a b : ℕ) (s t : Text) → scalar_text a b s ≡ ok t → (t ≡ s) × IsScalar a b s
unfolding scalar_text unicode_scalar_text
scalar_text-IsScalar a b s t h =
    let (u, e, h1) =
      >>=-eq-ok (raise_if (ltb (length s) a || ltb b (length s)) (codes "length out of range")) _
        h in
    let (v, f, h2) = >>=-eq-ok (validate_json_structure max_json_nesting_depth (str s)) _ h1 in
    let within = raise_if-eq-ok _ _ _ e in
    (
      cc,
      record {
        at_least = ground (arith, within);
        at_most = ground (arith, within);
        scalars = unfold fits in fits-validate_json_structure max_json_nesting_depth (str s) f;
      },
    )

pub event_create-IsScalar :
    (body : Text) (e : EventCreate) → event_create body ≡ ok e → IsScalar 1 1000 e.body
unfolding event_create
event_create-IsScalar body e h =
    let (t, f, g) = >>=-eq-ok (scalar_text 1 1000 body) _ h in
    let (same, fine) = scalar_text-IsScalar 1 1000 body t f in
    let is_t : t ≡ e.body =
      ap (λ (r : Result EventCreate). elim r [ ok x ↦ x.body | err x ↦ t ]) g in
    subst (IsScalar 1 1000) (sym same ∙ is_t) fine

abbrev pub IsPayment : Option Text → Type 0
IsPayment none = Unit
IsPayment (some s) = IsScalar 0 80 s

payment_field-IsPayment : (o p : Option Text) → payment_field o ≡ ok p → (p ≡ o) × IsPayment o
unfolding payment_field
payment_field-IsPayment none p h = (cc, tt)
payment_field-IsPayment (some s) p h =
    let (t, f, g) = >>=-eq-ok (scalar_text 0 80 s) _ h in
    let (same, fine) = scalar_text-IsScalar 0 80 s t f in
    let is_t : some t ≡ p = cc in (sym is_t ∙ ap some same, fine)

pub record IsOrderEvent (e : OrderEventCreate) : Type 0 where
  pub event_type : IsScalar 1 50 e.event_type
  pub body : IsScalar 1 1000 e.body
  pub payment_id : IsPayment e.payment_id

pub order_event_create-IsOrderEvent :
    (event_type body : Text) (payment_id : Option Text) (e : OrderEventCreate)
    → order_event_create event_type body payment_id ≡ ok e
    → IsOrderEvent e
unfolding order_event_create
order_event_create-IsOrderEvent event_type body payment_id e h =
    let (t, f, h1) = >>=-eq-ok (scalar_text 1 50 event_type) _ h in
    let (b, g, h2) = >>=-eq-ok (scalar_text 1 1000 body) _ h1 in
    let (p, k, h3) = >>=-eq-ok (payment_field payment_id) _ h2 in
    let (same_t, fine_t) = scalar_text-IsScalar 1 50 event_type t f in
    let (same_b, fine_b) = scalar_text-IsScalar 1 1000 body b g in
    let (same_p, fine_p) = payment_field-IsPayment payment_id p k in
    let is_e : record { event_type = event_type; body = body; payment_id = payment_id } ≡ e = cc in
    subst IsOrderEvent is_e (record { event_type = fine_t; body = fine_b; payment_id = fine_p })

pub record IsGenericEvent (e : GenericEventCreate) : Type 0 where
  pub at_least : 1 ≤ length e.event_type
  pub at_most : length e.event_type ≤ 50
  pub name : is_generic_event_type e.event_type ≡ true
  pub payload_fits : fits max_json_nesting_depth 0 (obj e.payload) ≡ true
  pub metadata_fits : fits max_json_nesting_depth 0 (obj e.metadata) ≡ true
  pub payload_size : json_size e.payload ≤ 65536
  pub metadata_size : json_size e.metadata ≤ 16384

pub generic_event_create-IsGenericEvent :
    (event_type : Text) (payload metadata : Fields) (e : GenericEventCreate)
    → generic_event_create event_type payload metadata ≡ ok e
    → IsGenericEvent e
unfolding generic_event_create
generic_event_create-IsGenericEvent event_type payload metadata e h =
    let (u, e1, h1) =
      >>=-eq-ok
        (raise_if (ltb (length event_type) 1 || ltb 50 (length event_type))
          (codes "length out of range"))
        _ h in
    let (u, e2, h2) =
      >>=-eq-ok (raise_if (not (is_generic_event_type event_type)) (codes "pattern does not match"))
        _ h1 in
    let (u, e3, h3) =
      >>=-eq-ok (validate_json_structure max_json_nesting_depth (obj payload)) _ h2 in
    let (u, e4, h4) =
      >>=-eq-ok (validate_json_structure max_json_nesting_depth (obj metadata)) _ h3 in
    let (u, e5, h5) =
      >>=-eq-ok
        (raise_if (ltb 65536 (json_size payload))
          (codes "payload must not exceed 65536 UTF-8 JSON bytes"))
        _ h4 in
    let (u, e6, h6) =
      >>=-eq-ok
        (raise_if (ltb 16384 (json_size metadata))
          (codes "metadata must not exceed 16384 UTF-8 JSON bytes"))
        _ h5 in
    let is_e : record { event_type = event_type; payload = payload; metadata = metadata } ≡ e =
      cc in
    subst IsGenericEvent is_e (record {
      at_least = ground (arith, raise_if-eq-ok _ _ _ e1);
      at_most = ground (arith, raise_if-eq-ok _ _ _ e1);
      name = ground (arith, raise_if-eq-ok _ _ _ e2);
      payload_fits = fits-validate_json_structure max_json_nesting_depth (obj payload) e3;
      metadata_fits = fits-validate_json_structure max_json_nesting_depth (obj metadata) e4;
      payload_size = ground (arith, raise_if-eq-ok _ _ _ e5);
      metadata_size = ground (arith, raise_if-eq-ok _ _ _ e6);
    })
