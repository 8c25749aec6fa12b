-- ===== src/Api/Status.antt =====
-- portfolio/api.py: `get_event_request_status` and the functions that it calls.
pub mod Owners
use cloud_portfolio.Prelude.{
  ℕ, Bool, true, false, ◌&&◌, not, Option, none, some, ◌==◌, if◌then◌else◌, Text, codes,
}
use cloud_portfolio.Errors.{
  Error, Result, ok, err, ◌>>=◌, value_error, operational_error, interface_error,
}
use cloud_portfolio.Json.{Value, Fields, get, put, remove, contains}
use cloud_portfolio.Json.Checks.{get_value}
use cloud_portfolio.Database.Tables.{Database}
use cloud_portfolio.Database.Session.{Fault, in_transaction}
use cloud_portfolio.Database.Tx.{gets}
use cloud_portfolio.Store.Status.{load_request_status, owner_field, owner_of}
use cloud_portfolio.Api.Answer.{Answer, done, failed, Failure, http, uncaught, is_unavailable}

-- A key that is renamed where it is present: `d[new] = d.pop(old)`.
renamed : Text → Text → Fields → Fields
unfolding get put remove
renamed old new d = elim (get old d) [ none ↦ d | some v ↦ put new v (remove old d) ]

with_reason : Fields → Fields
unfolding renamed get
with_reason d =
    if contains (codes "reason") d && not (contains (codes "failed_reason") d)
    then renamed (codes "reason") (codes "failed_reason") d
    else d

with_actor : Fields → Fields
unfolding get put
with_actor d = elim (get (codes "actor_id") d) [
  | some v ↦ d
  | none ↦ elim (get (codes "user_id") d) [ none ↦ d | some v ↦ put (codes "actor_id") v d ]
]

-- `_externalize_request_status`
unfoldable pub externalize_request_status : Fields → Fields
unfolding with_reason renamed with_actor
externalize_request_status payload = with_actor (
    renamed (codes "room_seq") (codes "stream_seq") (
      renamed (codes "room_id") (codes "stream_id")
        (renamed (codes "message_id") (codes "event_id") (with_reason payload))))

-- `_request_status_actor_id`, of a dict.
unfoldable pub request_status_actor_id : Fields → Result ℕ
unfolding owner_field owner_of get_value
request_status_actor_id payload = do
  actor ←
      owner_field (codes "Invalid request status actor_id") (get_value (codes "actor_id") payload)
  user ← owner_field (codes "Invalid request status user_id") (get_value (codes "user_id") payload)
  owner_of actor user

access_denied : Answer Fields
access_denied = failed (http 403 (codes "Request access denied"))

owned_answer : ℕ → Fields → Result ℕ → Answer Fields
unfolding access_denied externalize_request_status
owned_answer user_id status (ok owner) =
    if owner == user_id then done (externalize_request_status status) else access_denied
owned_answer user_id status (err e) = access_denied

loaded_answer : ℕ → Option Fields → Answer Fields
unfolding owned_answer request_status_actor_id
loaded_answer user_id none = failed (http 404 (codes "Request not found"))
loaded_answer user_id (some status) = owned_answer user_id status (request_status_actor_id status)

status_answer : ℕ → Result (Option Fields) → Answer Fields
unfolding loaded_answer is_unavailable
status_answer user_id (ok o) = loaded_answer user_id o
status_answer user_id (err e) =
    if is_unavailable e
    then failed (http 503 (codes "Request status unavailable"))
    else failed (uncaught e)

-- `get_event_request_status`; the statement only reads, so the database stays as it is.
unfoldable pub get_event_request_status : Fault → ℕ → Text → Database → Answer Fields
unfolding status_answer in_transaction load_request_status
get_event_request_status fault user_id request_id db =
    status_answer user_id (in_transaction fault (gets (load_request_status request_id)) db).0
