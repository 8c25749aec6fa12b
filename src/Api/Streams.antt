-- ===== src/Api/Streams.antt =====
-- portfolio/api.py: the endpoints on streams and their events. The name of a stream is only shown, so
-- `rooms` holds ids; the id that a new row of `rooms` gets from its sequence is an argument.
pub mod Pages
pub mod Created
use cloud_portfolio.Prelude.{
  ℕ, zero, suc, Bool, true, false, ◌&&◌, not, Option, none, some, List, [], ◌∷◌, ◌++◌, any, length,
  take, ltb, ◌==◌, if◌then◌else◌, Text, codes, decimal, is_empty,
}
use cloud_portfolio.Errors.{Result, ok, err, http_exception}
use cloud_portfolio.Json.{str, obj, Fields, end, field}
use cloud_portfolio.Json.Checks.{number, text_or_null}
use cloud_portfolio.Database.Tables.{Database, Message}
use cloud_portfolio.Database.Find.{find}
use cloud_portfolio.Database.Tx.{Tx, raise_if, gets, modify, ◌>>=◌, ◌>>◌, pure}
use cloud_portfolio.Database.Session.{Fault, in_transaction}
use cloud_portfolio.Worker.Persist.{contains_id, contains_member}
use cloud_portfolio.Api.Answer.{Answer, failed, http, answer_of}
use cloud_portfolio.Api.Dlq.Counted.{sorted}

-- The elements that pass.
unfoldable pub filter {ℓ} : {A : Type ℓ} → (A → Bool) → List A → List A
filter p [] = []
filter p (x ∷ xs) = let rest = filter p xs in if p x then x ∷ rest else rest

-- `_ensure_room_member`: the join of `rooms` and `room_members`.
unfoldable pub is_room_member : ℕ → ℕ → Database → Bool
unfolding contains_id contains_member
is_room_member room_id user_id db =
    contains_id room_id db.rooms && contains_member room_id user_id db.members

unfoldable pub ensure_room_member : ℕ → ℕ → Tx (Unit {0})
unfolding is_room_member
ensure_room_member room_id user_id db =
    raise_if (not (is_room_member room_id user_id db))
      (http_exception 404 (codes "Stream not found")) db

-- `sorted(set(ids))`
add_id : ℕ → List ℕ → List ℕ
add_id n [] = n ∷ []
add_id n (m ∷ ids) =
    let rest = add_id n ids in if n == m then m ∷ ids else if ltb n m then n ∷ m ∷ ids else m ∷ rest

sorted_ids : List ℕ → List ℕ
unfolding add_id
sorted_ids [] = []
sorted_ids (n ∷ ids) = add_id n (sorted_ids ids)

-- The text of a list of ids, after its first bracket.
ids_text : List ℕ → Text
unfolding decimal
ids_text [] = codes "]"
ids_text (n ∷ []) = decimal n ++ codes "]"
ids_text (n ∷ ids) = decimal n ++ (codes ", " ++ ids_text ids)

unknown_members : List ℕ → Text
unfolding ids_text
unknown_members ids = codes "Unknown member_ids: [" ++ ids_text ids

-- INSERT INTO room_members … ON CONFLICT DO NOTHING
add_members : ℕ → List ℕ → List (ℕ × ℕ) → List (ℕ × ℕ)
unfolding contains_member
add_members room_id [] rows = rows
add_members room_id (n ∷ ids) rows =
    let rest = add_members room_id ids rows in
    if contains_member room_id n rest then rest else rest ++ (room_id, n) ∷ []

pub record Stream : Type 0 where
  pub id : ℕ
  pub name : Text
  pub member_ids : List ℕ

-- The statements of `create_stream`.
create_stream_tx : ℕ → Text → List ℕ → ℕ → Tx Stream
unfolding sorted_ids filter contains_id unknown_members add_members
create_stream_tx room_id name member_ids user_id db =
    let candidates = sorted_ids (user_id ∷ member_ids) in
    let valid = filter (λ n. contains_id n db.users) candidates in
    let missing = filter (λ n. not (contains_id n valid)) candidates in
    let created = record db {
      rooms = db.rooms ++ room_id ∷ [];
      members = add_members room_id valid db.members;
    } in
    if ltb 0 (length missing)
    then (
      err (http_exception 400 (unknown_members missing)),
      record db { rooms = db.rooms ++ room_id ∷ [] },
    )
    else (ok (record { id = room_id; name = name; member_ids = valid }), created)

-- `create_stream`
unfoldable pub create_stream : Fault → ℕ → Text → List ℕ → ℕ → Database → Answer Stream × Database
unfolding create_stream_tx in_transaction answer_of
create_stream fault room_id name member_ids user_id db =
    answer_of (codes "Stream store unavailable")
      (in_transaction fault (create_stream_tx room_id name member_ids user_id) db)

is_below : Option ℕ → Message → Bool
is_below none row = true
is_below (some before_id) row = ltb row.id before_id

pub is_listed : ℕ → Option ℕ → Message → Bool
unfolding is_below
is_listed room_id before_id row = row.room_id == room_id && is_below before_id row

-- ORDER BY id DESC
pub newer : Message → Message → Bool
newer a b = ltb b.id a.id

event_rows : ℕ → ℕ → Option ℕ → Database → List Message
unfolding filter is_listed sorted newer
event_rows room_id limit before_id db =
    take limit (sorted newer (filter (is_listed room_id before_id) db.messages))

-- `list_events`, before `_event_row_to_response`.
unfoldable pub list_events :
    Fault → ℕ → ℕ → Option ℕ → ℕ → Database → Answer (List Message) × Database
unfolding ensure_room_member event_rows in_transaction answer_of
list_events fault room_id limit before_id user_id db = answer_of (codes "Stream read unavailable") (
    in_transaction fault
      (ensure_room_member room_id user_id >> gets (event_rows room_id limit before_id)) db)

text_or : Text → Text → Text
text_or s default = if is_empty s then default else s

payload_or : Text → Option Fields → Fields
payload_or body none = field (codes "text") (str body) end
payload_or body (some payload) = payload

version_or : ℕ → ℕ
version_or n = if n == 0 then 1 else n

-- `_event_row_to_response` of a row of `messages`.
unfoldable pub event_row_to_response : Message → Fields
unfolding text_or payload_or version_or
event_row_to_response row = field (codes "id") (number row.id) (
    field (codes "request_id") (str row.request_id) (
      field (codes "stream_id") (number row.room_id) (
        field (codes "stream_seq") (number row.room_seq) (
          field (codes "user_id") (number row.user_id) (
            field (codes "actor_id") (number row.user_id) (
              field (codes "event_type") (str (text_or row.event_type (codes "legacy.message"))) (
                field (codes "category") (text_or_null row.category) (
                  field (codes "payment_id") (text_or_null row.payment_id) (
                    field (codes "body") (str row.body) (
                      field (codes "schema_version") (number (version_or row.schema_version)) (
                        field (codes "payload") (obj (payload_or row.body row.payload)) (
                          field (codes "metadata") (obj row.metadata)
                            (field (codes "created_at") (str row.created_at) end)))))))))))))

-- `get_stream_persistence_summary`: the count, and the newest row.
unfoldable pub persistence_summary : ℕ → Database → ℕ × Option Message
unfolding filter sorted newer
persistence_summary room_id db =
    let rows = filter (λ (row : Message). row.room_id == room_id) db.messages in
    (length rows, find (λ row. true) (sorted newer rows))

unfoldable pub get_stream_persistence_summary :
    Fault → ℕ → ℕ → Database → Answer (ℕ × Option Message) × Database
unfolding ensure_room_member persistence_summary in_transaction answer_of
get_stream_persistence_summary fault room_id user_id db =
    answer_of (codes "Stream summary unavailable") (
      in_transaction fault
        (ensure_room_member room_id user_id >> gets (persistence_summary room_id)) db)
