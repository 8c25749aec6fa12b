-- ===== src/Worker/Orders.antt =====
-- portfolio/order_events.py: the categories of the order events.
use cloud_portfolio.Prelude.{◌≡◌, refl, List, [], ◌∷◌, if◌then◌else◌, Text, codes, text_eq, String}

abbrev pub order_event_category_map : List (String × String)
order_event_category_map =
    ("payment_completed", "payment")
    ∷ ("payment_failed", "payment")
    ∷ ("order_created", "order")
    ∷ ("order_cancelled", "order")
    ∷ ("delivery_started", "delivery")
    ∷ ("delivery_delayed", "delivery")
    ∷ ("refund_requested", "refund")
    ∷ ("refund_completed", "refund")
    ∷ ("support_requested", "support")
    ∷ []

unfoldable pub category_in : List (String × String) → Text → Text
unfolding text_eq
category_in [] event_type = codes "needs_review"
category_in ((name, category) ∷ rest) event_type =
    if text_eq (codes name) event_type then codes category else category_in rest event_type

unfoldable pub classify_order_event : Text → Text
unfolding category_in
classify_order_event event_type = category_in order_event_category_map event_type

classify_refund : classify_order_event (codes "refund_requested") ≡ codes "refund"
unfolding classify_order_event
classify_refund = refl
