-- ===== src/Api/Intake/Accepted/Metadata.antt =====
-- The category, the metadata and the payment of an order event are such as the worker accepts.
use cloud_portfolio.Prelude.{
  ◌≤◌, ◌≡◌, refl, true, false, Option, none, some, length, Text, codes, arith, ◌++◌, has_nul,
}
use cloud_portfolio.Errors.{ok}
use cloud_portfolio.Json.{obj, dumps, utf8_size, escape}
use cloud_portfolio.Json.Checks.{text_or_null}
use cloud_portfolio.Json.Size.{utf8_size-append, utf8_size-escape}
use cloud_portfolio.Json.Structure.{max_json_nesting_depth, contains_utf16_surrogate}
use cloud_portfolio.Json.Structure.Sound.{fits, text_fits}
use cloud_portfolio.Worker.Envelope.{json_size}
use cloud_portfolio.Worker.Ingress.{optional, payment_text}
use cloud_portfolio.Api.Schemas.Checked.{IsScalar-no_nul}
use cloud_portfolio.Prelude.{ltb, List, [], ◌∷◌, All, String, text_eq, if-result, is_empty}
use cloud_portfolio.Json.Structure.Sound.{fits_fields}
use cloud_portfolio.Worker.Orders.{classify_order_event, category_in, order_event_category_map}
use cloud_portfolio.Api.Schemas.Checked.{IsPayment}
use cloud_portfolio.Api.Intake.{order_metadata, payment_reference}

-- The name of a category is short and has no NUL.
abbrev pub IsCategory : Text → Type 0
IsCategory s = (text_fits s ≡ true) × (length s ≤ 12)

category_in-IsCategory :
    (entries : List (String × String)) (event_type : Text)
    → All (λ (entry : String × String). IsCategory (codes entry.1)) entries
    → IsCategory (category_in entries event_type)
unfolding category_in
category_in-IsCategory [] event_type h =
    (unfold text_fits in unfold has_nul in unfold contains_utf16_surrogate in refl, omega arith)
category_in-IsCategory ((name, category) ∷ rest) event_type h =
    if-result IsCategory (text_eq (codes name) event_type) (codes category)
      (category_in rest event_type) (λ same. h.0)
      (λ differs. category_in-IsCategory rest event_type h.1)

pub classify-IsCategory : (event_type : Text) → IsCategory (classify_order_event event_type)
unfolding classify_order_event text_fits has_nul contains_utf16_surrogate
classify-IsCategory event_type =
    category_in-IsCategory order_event_category_map event_type (ground arith)

reference-fits :
    (o : Option Text)
    → IsPayment o
    → fits_fields max_json_nesting_depth 2 (payment_reference o) ≡ true
unfolding payment_reference fits has_nul contains_utf16_surrogate
reference-fits none h = refl
reference-fits (some s) h =
    if-result (λ d. fits_fields max_json_nesting_depth 2 d ≡ true) (is_empty s) _ _ (λ p. refl)
      (λ p. rw h.scalars refl)

pub metadata-fits :
    (category : Text) (o : Option Text)
    → IsCategory category
    → IsPayment o
    → fits max_json_nesting_depth 0 (obj (order_metadata category o)) ≡ true
unfolding order_metadata fits has_nul contains_utf16_surrogate
metadata-fits category o h k = rw (h.0, reference-fits o k) refl

reference-size :
    (o : Option Text) → IsPayment o → utf8_size (dumps (obj (payment_reference o))) ≤ 600
unfolding payment_reference dumps utf8_size
reference-size none h = omega arith
reference-size (some s) h =
    if-result (λ d. utf8_size (dumps (obj d)) ≤ 600) (is_empty s) _ _ (λ p. omega arith)
      (λ p. omega (arith, utf8_size-append (escape s) (codes "}"), utf8_size-escape s, h.at_most))

pub metadata-size :
    (category : Text) (o : Option Text)
    → IsCategory category
    → IsPayment o
    → json_size (order_metadata category o) ≤ 16384
unfolding order_metadata json_size dumps utf8_size
metadata-size category o h k =
    let more = dumps (obj (payment_reference o)) ++ codes "}" in
    omega (
      arith,
      utf8_size-append (escape category) (codes ",\"external_references\":" ++ more),
      utf8_size-append (dumps (obj (payment_reference o))) (codes "}"),
      utf8_size-escape category,
      h.1,
      reference-size o k,
    )

pub payment-ok :
    (o : Option Text)
    → IsPayment o
    → optional payment_text (codes "Invalid payment_id") (text_or_null o) ≡ ok o
unfolding payment_text
payment-ok none h = refl
payment-ok (some s) h =
    let long : ltb 80 (length s) ≡ false = ground (arith, h.at_most) in
    rw (long, IsScalar-no_nul s h) refl
