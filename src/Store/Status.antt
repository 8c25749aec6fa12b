-- ===== src/Store/Status.antt =====
-- portfolio/state_store.py: `_normalized_request_status` and `upsert_request_status`.
pub mod Owner
pub mod Normal
use cloud_portfolio.Prelude.{
  ℕ, Bool, true, false, ◌&&◌, ◌||◌, not, Option, none, some, List, [], ◌∷◌, ◌++◌, ◌==◌,
  if◌then◌else◌, Text, codes, text_eq, length, ltb, has_nul, is_empty,
}
use cloud_portfolio.Errors.{
  Error, Result, ok, err, value_error, owner_conflict, ◌>>=◌, ◌>>◌, raise_if,
}
use cloud_portfolio.Json.{Value, null, int, str, obj, Fields, end, field, get, put, value_eq}
use cloud_portfolio.Json.Structure.{validate_json_structure, max_json_wire_nesting_depth}
use cloud_portfolio.Database.Tables.{Database, RequestStatus}
use cloud_portfolio.Database.Find.{find, update_where}
use cloud_portfolio.Database.Tx.{Tx}
use cloud_portfolio.Json.Checks.{short_text, positive_bigint, or_raise, get_or, get_value, number}

-- An owner field: absent or `None`, or an id.
unfoldable pub owner_field : Text → Value → Result (Option ℕ)
unfolding positive_bigint
owner_field message null = ok none
owner_field message v = or_raise (positive_bigint (some v)) message >>= λ n. ok (some n)

-- `actor_id if actor_id is not None else user_id`, which must agree if both are given.
unfoldable pub owner_of : Option ℕ → Option ℕ → Result ℕ
owner_of none none = err (value_error (codes "Request status owner is missing"))
owner_of none (some user) = ok user
owner_of (some actor) none = ok actor
owner_of (some actor) (some user) =
    if actor == user
    then ok actor
    else err (value_error (codes "Conflicting request status actor_id/user_id"))

set_owner : Text → ℕ → Fields → Fields
unfolding put
set_owner request_id owner status =
    put (codes "actor_id") (number owner)
      (put (codes "user_id") (number owner) (put (codes "request_id") (str request_id) status))

-- `_normalized_request_status`
unfoldable pub normalized_request_status : Text → Fields → Result (ℕ × Fields)
unfolding short_text get_or get_value value_eq owner_field owner_of set_owner
    validate_json_structure
normalized_request_status request_id payload = do
  or_raise (short_text 80 (some (str request_id))) (codes "Invalid request status request_id")
      >>= λ _. ok tt
  raise_if (not (value_eq (get_or (codes "request_id") (str request_id) payload) (str request_id)))
      (codes "Request status request_id mismatch")
  actor ←
      owner_field (codes "Invalid request status actor_id") (get_value (codes "actor_id") payload)
  user ← owner_field (codes "Invalid request status user_id") (get_value (codes "user_id") payload)
  owner ← owner_of actor user
  let status = set_owner request_id owner payload
  validate_json_structure max_json_wire_nesting_depth (obj status)
  ok (owner, status)

unfoldable pub is_request : Text → RequestStatus → Bool
unfolding text_eq
is_request request_id row = text_eq row.request_id request_id

-- `request_statuses.user_id IS NULL OR request_statuses.user_id = EXCLUDED.user_id`
may_write : ℕ → Option ℕ → Bool
may_write owner none = true
may_write owner (some user) = user == owner

-- INSERT … ON CONFLICT (request_id) DO UPDATE … WHERE …; `none` where no row is returned.
status_row : Text → ℕ → Fields → RequestStatus
status_row request_id owner status = record {
  request_id = request_id;
  user_id = some owner;
  status_json = status;
}

write_over :
    RequestStatus → ℕ → List RequestStatus → Option RequestStatus → Option (List RequestStatus)
unfolding is_request may_write update_where
write_over row owner rows none = some (rows ++ row ∷ [])
write_over row owner rows (some old) =
    if may_write owner old.user_id
    then some (update_where (is_request row.request_id) (λ r. row) rows)
    else none

write_status : Text → ℕ → Fields → List RequestStatus → Option (List RequestStatus)
unfolding is_request find status_row write_over
write_status request_id owner status rows =
    write_over (status_row request_id owner status) owner rows (find (is_request request_id) rows)

stored : Fields → Database → Option (List RequestStatus) → Result Fields × Database
stored status db none = (err owner_conflict, db)
stored status db (some rows) = (ok status, record db { statuses = rows })

store_normalized : Text → Result (ℕ × Fields) → Tx Fields
unfolding write_status stored
store_normalized request_id (err e) db = (err e, db)
store_normalized request_id (ok (owner, status)) db =
    stored status db (write_status request_id owner status db.statuses)

-- `upsert_request_status`
unfoldable pub upsert_request_status : Text → Fields → Tx Fields
unfolding normalized_request_status store_normalized
upsert_request_status request_id payload =
    store_normalized request_id (normalized_request_status request_id payload)

unfoldable pub status_of : (Fields → Fields) → Option RequestStatus → Option Fields
status_of jsonb none = none
status_of jsonb (some row) = some (jsonb row.status_json)

-- `load_request_status`: the row keeps what was written, and the read gives what the server makes of it.
unfoldable pub load_request_status : Text → Database → Option Fields
unfolding find is_request status_of
load_request_status request_id db = status_of db.jsonb (find (is_request request_id) db.statuses)
