-- ===== src/Worker/Persist.antt =====
-- worker/main.py: `_persist_message_with_cursor`, the statements of one transaction in their order.
pub mod Growth
use cloud_portfolio.Prelude.{
  ℕ, suc, ◌+◌, Bool, true, false, ◌&&◌, ◌||◌, not, Option, none, some, List, [], ◌∷◌, ◌++◌, any,
  ltb, ◌==◌, if◌then◌else◌, Text, codes, text_eq, is_empty, starts_with, decimal,
}
use cloud_portfolio.Errors.{
  Error, Result, ok, err, value_error, authorization_error, sequence_gap, integrity_error,
}
use cloud_portfolio.Json.{Value, null, bool, str, obj, Fields, get, put}
use cloud_portfolio.Json.Checks.{get_value}
use cloud_portfolio.Database.Tables.{Message, CachedResponse, Sequence, Database, Moment}
use cloud_portfolio.Database.Find.{find, update_where}
use cloud_portfolio.Database.Tx.{
  Tx, pure, raise, lift, gets, modify, continue, ◌>>=◌, ◌>>◌, raise_if,
}
use cloud_portfolio.Worker.Envelope.{
  Envelope, event_envelope, legacy_body_preview, compatibility_text,
}
use cloud_portfolio.Worker.Job.{Job, job_fields}
use cloud_portfolio.Worker.Orders.{classify_order_event}
use cloud_portfolio.Worker.Response.{message_row_response, validated_idempotency_response}
use cloud_portfolio.Worker.Cached.{idempotency_route, used_key, upsert_cached, cached_response}

-- What a job says to write, once the reference adapter of orders has had its part.
pub record Draft : Type 0 where
  pub event_type : Text
  pub category : Option Text
  pub payment_id : Option Text
  pub payload : Fields
  pub metadata : Fields
  pub body : Text

job_payment : Option Text → Option Text
unfolding compatibility_text
job_payment none = none
job_payment (some s) = compatibility_text 80 (str s)

reference_payment : Value → Option Text
unfolding compatibility_text get_value
reference_payment (obj references) = compatibility_text 80 (get_value (codes "payment") references)
reference_payment _ = none

or_else : Option Text → Option Text → Option Text
or_else none b = b
or_else (some a) b = some a

-- On a route of `orders` the category is computed anew, and the metadata name it.
unfoldable pub draft_of : Job → Envelope → Draft
unfolding legacy_body_preview starts_with classify_order_event put get_value job_payment
    reference_payment or_else
draft_of job e =
    let category = classify_order_event e.event_type in
    let metadata = put (codes "classification") (str category) e.metadata in
    if starts_with job.route (codes "POST:/v1/orders/")
    then record {
      event_type = e.event_type;
      category = some category;
      payment_id =
          or_else (job_payment job.payment_id)
            (reference_payment (get_value (codes "external_references") metadata));
      payload = e.payload;
      metadata = metadata;
      body = legacy_body_preview e.payload;
    }
    else record {
      event_type = e.event_type;
      category = none;
      payment_id = none;
      payload = e.payload;
      metadata = e.metadata;
      body = legacy_body_preview e.payload;
    }

unfoldable pub is_message : Text → Message → Bool
unfolding text_eq
is_message request_id row = text_eq row.request_id request_id

unfoldable pub is_slot : ℕ → ℕ → Message → Bool
is_slot room_id room_seq row = row.room_id == room_id && row.room_seq == room_seq

unfoldable pub find_message : Text → Database → Option Message
unfolding find is_message
find_message request_id db = find (is_message request_id) db.messages

unfoldable pub find_slot : ℕ → ℕ → Database → Option Message
unfolding find is_slot
find_slot room_id room_seq db = find (is_slot room_id room_seq) db.messages

unfoldable pub contains_id : ℕ → List ℕ → Bool
contains_id n ids = any (λ m. m == n) ids

unfoldable pub contains_member : ℕ → ℕ → List (ℕ × ℕ) → Bool
contains_member room_id user_id rows = any (λ p. p.0 == room_id && p.1 == user_id) rows

-- The reason of the first check that fails, in the order of the checks.
refusal : Job → Database → Option Text
unfolding contains_id contains_member
refusal job db =
    if not (contains_id job.room_id db.rooms)
    then some (codes "stream_not_found")
    else if not (contains_id job.user_id db.users)
    then some (codes "actor_not_found")
    else if not (contains_member job.room_id job.user_id db.members)
    then some (codes "membership_missing")
    else none

unfoldable pub is_sequence : ℕ → Sequence → Bool
is_sequence room_id row = row.room_id == room_id

-- The last number that a room has given out, 0 if it has no row.
unfoldable pub last_seq : ℕ → List Sequence → ℕ
unfolding find is_sequence
last_seq room_id rows = elim (find (is_sequence room_id) rows) [
  | none ↦ 0
  | some row ↦ row.last_seq
]

-- INSERT INTO room_sequences … ON CONFLICT (room_id) DO UPDATE SET last_seq = last_seq + 1
unfoldable pub bump_rows : ℕ → List Sequence → List Sequence
unfolding is_sequence
bump_rows room_id [] = record { room_id = room_id; last_seq = 1 } ∷ []
bump_rows room_id (row ∷ rows) =
    if is_sequence room_id row
    then record row { last_seq = row.last_seq + 1 } ∷ rows
    else row ∷ bump_rows room_id rows

-- An id is used also where an index refuses the row.
use_id : Database → Database
use_id db = record db { next_message_id = suc db.next_message_id }

insert_free : Message → Database → Option Message → Result Message × Database
unfolding use_id
insert_free row db (some old) = (err integrity_error, use_id db)
insert_free row db none = (ok row, record (use_id db) { messages = db.messages ++ row ∷ [] })

insert_absent : Message → Database → Option Message → Result Message × Database
unfolding insert_free use_id find_slot
insert_absent row db (some old) = (err integrity_error, use_id db)
insert_absent row db none = insert_free row db (find_slot row.room_id row.room_seq db)

insert_row : Message → Tx Message
unfolding insert_absent find_message
insert_row row db = insert_absent row db (find_message row.request_id db)

-- INSERT INTO messages … RETURNING …, with its two unique indexes.
insert_message : Job → Draft → ℕ → Text → Tx Message
unfolding insert_row
insert_message job draft room_seq created_at db =
    insert_row
      (record {
        id = db.next_message_id;
        request_id = job.request_id;
        room_id = job.room_id;
        user_id = job.user_id;
        event_type = draft.event_type;
        category = draft.category;
        payment_id = draft.payment_id;
        schema_version = job.schema_version;
        payload = some draft.payload;
        metadata = draft.metadata;
        body = draft.body;
        room_seq = room_seq;
        created_at = created_at;
      })
      db

cache_under : Job → Fields → Option Text → Database → Database
unfolding upsert_cached idempotency_route
cache_under job response none db = db
cache_under job response (some key) db = upsert_cached (idempotency_route job) key response db

cache_response : Job → Fields → Database → Database
unfolding cache_under
cache_response job response = cache_under job response (used_key job.x_idempotency_key)

sequence_message : Text → Job → ℕ → Text
unfolding decimal
sequence_message what job room_seq =
    codes "Room sequence "
    ++ (what
        ++ (codes " room_id=" ++ (decimal job.room_id ++ (codes " room_seq=" ++ decimal room_seq))))

-- A number below the next one: it is taken, by this request or by another, or stale.
behind : Job → ℕ → Option Message → Result Fields
unfolding text_eq message_row_response sequence_message
behind job room_seq (some duplicate) =
    if text_eq duplicate.request_id job.request_id
    then ok (message_row_response duplicate)
    else err (value_error (sequence_message (codes "conflict") job room_seq))
behind job room_seq none = err (value_error (sequence_message (codes "is stale") job room_seq))

answer_row : Job → Result Message × Database → Result Fields × Database
unfolding message_row_response cache_response
answer_row job (err e, db) = (err e, db)
answer_row job (ok row, db) =
    (ok (message_row_response row), cache_response job (message_row_response row) db)

append_message : Job → Draft → ℕ → Text → Tx Fields
unfolding insert_message answer_row
append_message job draft room_seq created_at db =
    answer_row job (insert_message job draft room_seq created_at db)

pub requested_seq : Option ℕ → ℕ → ℕ
requested_seq none expected = expected
requested_seq (some n) expected = n

-- What follows the number that the room has given out.
place : Job → Draft → Text → ℕ → Tx Fields
unfolding requested_seq append_message find_slot behind
place job draft created_at expected db =
    let room_seq = requested_seq job.room_seq expected in
    if ltb room_seq expected
    then (behind job room_seq (find_slot job.room_id room_seq db), db)
    else if ltb expected room_seq
    then (err sequence_gap, db)
    else append_message job draft room_seq created_at db

-- The row of an earlier attempt at the same request.
resume : Job → Message → Result Fields
unfolding message_row_response
resume job row =
    if not (row.room_id == job.room_id) || not (row.user_id == job.user_id)
    then err (authorization_error (codes "request_identity_conflict"))
    else ok (message_row_response row)

-- The next number of the room is drawn, which an error gives back.
place_next : Job → Draft → Text → Tx Fields
unfolding bump_rows last_seq place
place_next job draft created_at db =
    let rows = bump_rows job.room_id db.sequences in
    place job draft created_at (last_seq job.room_id rows) (record db { sequences = rows })

append_allowed : Job → Draft → Text → Database → Option Text → Result Fields × Database
unfolding place_next
append_allowed job draft created_at db (some reason) = (err (authorization_error reason), db)
append_allowed job draft created_at db none = place_next job draft created_at db

append_absent : Job → Draft → Text → Database → Option Message → Result Fields × Database
unfolding resume append_allowed refusal
append_absent job draft created_at db (some row) = (resume job row, db)
append_absent job draft created_at db none = append_allowed job draft created_at db (refusal job db)

persist_uncached : Job → Draft → Text → Tx Fields
unfolding find_message append_absent
persist_uncached job draft created_at db =
    append_absent job draft created_at db (find_message job.request_id db)

or_persist : Job → Draft → Text → Result (Option Fields) × Database → Result Fields × Database
unfolding persist_uncached
or_persist job draft created_at (err e, db) = (err e, db)
or_persist job draft created_at (ok (some response), db) = (ok response, db)
or_persist job draft created_at (ok none, db) = persist_uncached job draft created_at db

persist_envelope : Job → Text → Database → Result Envelope → Result Fields × Database
unfolding cached_response or_persist draft_of
persist_envelope job created_at db (err e) = (err e, db)
persist_envelope job created_at db (ok e) =
    or_persist job (draft_of job e) created_at (cached_response job db)

-- `_persist_message_with_cursor`
unfoldable pub persist_message_with_cursor : Job → Text → Tx Fields
unfolding event_envelope job_fields persist_envelope
persist_message_with_cursor job created_at db =
    persist_envelope job created_at db (event_envelope (job_fields job))
