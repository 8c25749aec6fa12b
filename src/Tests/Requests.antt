-- ===== src/Tests/Requests.antt =====
-- The theorems on the API at concrete inputs: posts and statuses.
use cloud_portfolio.Prelude.{
  ℕ, ◌≡◌, refl, Bool, true, Option, some, ◌==◌, Text, codes, arith, if◌then◌else◌, has_nul,
}
use cloud_portfolio.Errors.{ok}
use cloud_portfolio.Json.{str, Fields, end, field}
use cloud_portfolio.Json.Checks.{short_text}
use cloud_portfolio.Database.Session.{healthy}
use cloud_portfolio.Store.Status.Normal.{IsOwned}
use cloud_portfolio.Worker.Orders.{classify_order_event}
use cloud_portfolio.Worker.Outbox.{acknowledged}
use cloud_portfolio.Worker.Ingress.{iso_text}
use cloud_portfolio.Api.Answer.{done, failed, http}
use cloud_portfolio.Api.Schemas.{
  EventCreate, event_create, OrderEventCreate, order_event_create, GenericEventCreate,
  generic_event_create, is_idempotency_header,
}
use cloud_portfolio.Api.Intake.{Call, create_event, create_order_event, create_generic_event}
use cloud_portfolio.Api.Intake.Accepted.{IsCall, IsId, IsQueued}
use cloud_portfolio.Api.Intake.Accepted.Event.{create_event-IsQueued, accepted_event}
use cloud_portfolio.Api.Intake.Accepted.Order.{create_order_event-IsQueued, accepted_order}
use cloud_portfolio.Api.Intake.Accepted.Generic.{create_generic_event-IsQueued, accepted_generic}
use cloud_portfolio.Api.Status.{get_event_request_status, externalize_request_status}
use cloud_portfolio.Api.Status.Owners.{
  IsAnswered, get_event_request_status-IsAnswered, get_event_request_status-upsert,
}
use cloud_portfolio.Tests.{room, world, with_status, stored_status, status, status_written}

abbrev is_time : Text → Bool
is_time s = true

abbrev call : Call
call = record {
  request_id = codes "r1";
  queued_at = codes "2026-01-01T12:00:00+00:00";
  send = acknowledged;
}

call-IsCall : IsCall is_time call
unfolding short_text iso_text has_nul
call-IsCall = record { request_id = refl; queued_at = refl }

stream-IsId : IsId 1
stream-IsId = record { positive = omega arith; bounded = omega arith }

actor-IsId : IsId 7
actor-IsId = record { positive = omega arith; bounded = omega arith }

abbrev key : Option Text
key = some (codes "k1")

key-header : is_idempotency_header key ≡ true
unfolding is_idempotency_header has_nul
key-header = refl

abbrev post : EventCreate
post = record { body = codes "hello" }

post_passes : event_create (codes "hello") ≡ ok post
unfolding event_create
post_passes = refl

create_event-IsQueued_example :
    IsQueued is_time 1
      (accepted_event call 1 7 (codes "hello") key)
      world
      (create_event call 1 post key 7 world)
create_event-IsQueued_example =
    create_event-IsQueued is_time call 1 7 (codes "hello") post key world call-IsCall stream-IsId
      actor-IsId key-header post_passes

abbrev order : OrderEventCreate
order = record {
  event_type = codes "refund_requested";
  body = codes "late";
  payment_id = some (codes "p1");
}

order_passes :
    order_event_create (codes "refund_requested") (codes "late") (some (codes "p1")) ≡ ok order
unfolding order_event_create
order_passes = refl

create_order_event-IsQueued_example :
    IsQueued is_time 1
      (accepted_order call 1 7 order (classify_order_event (codes "refund_requested")) key)
      world
      (create_order_event call 1 order key 7 world)
create_order_event-IsQueued_example =
    create_order_event-IsQueued is_time call 1 7 (codes "refund_requested") (codes "late")
      (some (codes "p1")) order key world call-IsCall stream-IsId actor-IsId key-header order_passes

abbrev content : Fields
content = field (codes "order") (str (codes "o1")) end

abbrev generic : GenericEventCreate
generic = record { event_type = codes "order.created"; payload = content; metadata = end }

generic_passes : generic_event_create (codes "order.created") content end ≡ ok generic
unfolding generic_event_create
generic_passes = refl

create_generic_event-IsQueued_example :
    IsQueued is_time 1
      (accepted_generic call 1 7 generic key)
      world
      (create_generic_event true call 1 generic key 7 world)
create_generic_event-IsQueued_example =
    create_generic_event-IsQueued is_time call 1 7 (codes "order.created") content end generic key
      world call-IsCall stream-IsId actor-IsId key-header generic_passes

get_event_request_status-IsAnswered_example :
    IsAnswered healthy 7
      (codes "r1")
      with_status
      (get_event_request_status healthy 7 (codes "r1") with_status)
get_event_request_status-IsAnswered_example =
    get_event_request_status-IsAnswered healthy 7 (codes "r1") with_status

get_event_request_status-upsert_example :
    (owner : ℕ) × IsOwned owner stored_status
    × (get_event_request_status healthy 8 (codes "r1") with_status ≡ (
        if owner == 8
        then done (externalize_request_status stored_status)
        else failed (http 403 (codes "Request access denied"))))
get_event_request_status-upsert_example =
    get_event_request_status-upsert (codes "r1") status stored_status room with_status 8
      (λ d k n h. h) status_written

stranger_is_denied :
    get_event_request_status healthy 8 (codes "r1") with_status
    ≡ failed (http 403 (codes "Request access denied"))
unfolding get_event_request_status
stranger_is_denied = refl
