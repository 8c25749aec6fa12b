-- ===== src/Api/Reading.antt =====
-- portfolio/api.py: `mark_as_read`, `unread_count` and the functions that they call.
pub mod Unread
use cloud_portfolio.Prelude.{
  ℕ, Bool, true, false, ◌&&◌, not, Option, none, some, List, [], ◌∷◌, ◌++◌, any, length, ◌==◌,
  if◌then◌else◌, codes,
}
use cloud_portfolio.Errors.{Result, ok, err, http_exception}
use cloud_portfolio.Database.Tables.{Database, Message}
use cloud_portfolio.Database.Find.{find}
use cloud_portfolio.Database.Tx.{Tx, gets, modify, ◌>>=◌, ◌>>◌}
use cloud_portfolio.Database.Session.{Fault, in_transaction}
use cloud_portfolio.Worker.Persist.{contains_member}
use cloud_portfolio.Api.Answer.{Answer, failed, http, answer_of}
use cloud_portfolio.Api.Streams.{filter, ensure_room_member}

is_visible : ℕ → ℕ → List (ℕ × ℕ) → Message → Bool
unfolding contains_member
is_visible event_id user_id members row =
    row.id == event_id && contains_member row.room_id user_id members

visible_room : Option Message → Result ℕ
visible_room none = err (http_exception 404 (codes "Event not found"))
visible_room (some row) = ok row.room_id

-- `_message_room_id_for_member`: the join of `messages` and `room_members`.
message_room_id_for_member : ℕ → ℕ → Tx ℕ
unfolding find is_visible visible_room
message_room_id_for_member event_id user_id db =
    (visible_room (find (is_visible event_id user_id db.members) db.messages), db)

-- Whether the user has read the event: the key (message_id, user_id) of `read_receipts`.
unfoldable pub has_receipt : ℕ → ℕ → List (ℕ × ℕ) → Bool
has_receipt event_id user_id rows = any (λ p. p.0 == event_id && p.1 == user_id) rows

-- INSERT INTO read_receipts … ON CONFLICT DO NOTHING
add_receipt : ℕ → ℕ → List (ℕ × ℕ) → List (ℕ × ℕ)
unfolding has_receipt
add_receipt event_id user_id rows =
    if has_receipt event_id user_id rows then rows else rows ++ (event_id, user_id) ∷ []

insert_receipt : ℕ → ℕ → Database → Database
unfolding add_receipt
insert_receipt event_id user_id db = record db {
  receipts = add_receipt event_id user_id db.receipts;
}

mark_tx : ℕ → ℕ → Tx (Unit {0})
unfolding message_room_id_for_member insert_receipt
mark_tx event_id user_id = message_room_id_for_member event_id user_id >>= λ room_id.
    modify (insert_receipt event_id user_id)

-- `mark_as_read`
unfoldable pub mark_as_read : Fault → ℕ → ℕ → Database → Answer (Unit {0}) × Database
unfolding mark_tx in_transaction answer_of
mark_as_read fault event_id user_id db =
    answer_of (codes "Read receipt store unavailable")
      (in_transaction fault (mark_tx event_id user_id) db)

is_unread : ℕ → ℕ → List (ℕ × ℕ) → Message → Bool
unfolding has_receipt
is_unread room_id user_id receipts row =
    row.room_id == room_id && not (has_receipt row.id user_id receipts)

-- The events of a room that a user has not read.
unfoldable pub unread_rows : ℕ → ℕ → Database → List Message
unfolding filter is_unread
unread_rows room_id user_id db = filter (is_unread room_id user_id db.receipts) db.messages

-- `unread_count` of the user `current`.
unfoldable pub unread_count : Fault → ℕ → ℕ → ℕ → Database → Answer ℕ × Database
unfolding ensure_room_member unread_rows in_transaction answer_of
unread_count fault current room_id user_id db =
    if current == user_id
    then answer_of (codes "Unread count unavailable") (
        in_transaction fault
          (ensure_room_member room_id user_id >> gets (λ d. length (unread_rows room_id user_id d)))
          db)
    else (failed (http 403 (codes "Unread count access denied")), db)
