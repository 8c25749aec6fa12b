-- ===== src/Tests/Reads.antt =====
-- The theorems on the API at concrete inputs: streams, receipts, summaries and the reset.
use cloud_portfolio.Prelude.{
  ℕ, ◌≡◌, refl, true, false, not, Option, none, some, [], ◌∷◌, ◌==◌, ◌&&◌, codes,
}
use cloud_portfolio.Errors.{ok}
use cloud_portfolio.Json.{Fields, end}
use cloud_portfolio.Database.Tables.{Database, Message}
use cloud_portfolio.Database.Session.{healthy}
use cloud_portfolio.Worker.Transaction.Invariant.{IsConsistent}
use cloud_portfolio.Api.Answer.{done}
use cloud_portfolio.Api.Dlq.Item.{DlqItem}
use cloud_portfolio.Api.Dlq.Counted.{summarize_dlq_items}
use cloud_portfolio.Api.Dlq.Counted.Sums.{AddsUp, summarize_dlq_items-AddsUp}
use cloud_portfolio.Api.Streams.{filter, Stream, create_stream}
use cloud_portfolio.Api.Streams.Created.{
  IsCreated, create_stream-IsCreated, IsDecided, create_stream-IsDecided,
}
use cloud_portfolio.Api.Reading.{mark_as_read, unread_rows, unread_count}
use cloud_portfolio.Api.Reading.Unread.{mark_as_read-unread, mark_as_read_idem}
use cloud_portfolio.Api.Reset.{reset_demo_events}
use cloud_portfolio.Api.Reset.Topic.{TopicAdmin, deleted, created}
use cloud_portfolio.Api.Reset.Empty.{
  IsReset, reset_demo_events-IsReset, reset_demo_events-IsConsistent,
}
use cloud_portfolio.Tests.{room, room-IsConsistent, room_with_event, world}

abbrev second_stream : Stream
second_stream = record { id = 2; name = codes "two"; member_ids = 7 ∷ [] }

abbrev two_rooms : Database
two_rooms = record room { rooms = 1 ∷ 2 ∷ []; members = (1, 7) ∷ (2, 7) ∷ [] }

stream_is_created :
    create_stream healthy 2 (codes "two") (7 ∷ 7 ∷ []) 7 room ≡ (done second_stream, two_rooms)
unfolding create_stream
stream_is_created = refl

create_stream-IsCreated_example : IsCreated 2 (7 ∷ 7 ∷ []) 7 room second_stream two_rooms
create_stream-IsCreated_example =
    create_stream-IsCreated healthy 2 (codes "two") (7 ∷ 7 ∷ []) 7 second_stream room two_rooms
      stream_is_created

create_stream-IsDecided_example :
    IsDecided (9 ∷ []) 7 room (create_stream healthy 2 (codes "two") (9 ∷ []) 7 room)
create_stream-IsDecided_example = create_stream-IsDecided 2 (codes "two") (9 ∷ []) 7 room

abbrev room_with_receipt : Database
room_with_receipt = record room_with_event { receipts = (1, 7) ∷ [] }

event_is_read : mark_as_read healthy 1 7 room_with_event ≡ (done tt, room_with_receipt)
unfolding mark_as_read
event_is_read = refl

mark_as_read-unread_example :
    unread_rows 1 7 room_with_receipt
    ≡ filter (λ (row : Message). not (1 == row.id && 7 == 7)) (unread_rows 1 7 room_with_event)
mark_as_read-unread_example =
    mark_as_read-unread healthy 1 7 1 7 tt room_with_event room_with_receipt event_is_read

mark_as_read_idem_example :
    mark_as_read healthy 1 7 room_with_receipt ≡ (done tt, room_with_receipt)
mark_as_read_idem_example =
    mark_as_read_idem healthy 1 7 tt room_with_event room_with_receipt event_is_read

nothing_is_unread : unread_count healthy 7 1 7 room_with_receipt ≡ (done 0, room_with_receipt)
unfolding unread_count
nothing_is_unread = refl

abbrev dead_item : DlqItem
dead_item = record {
  topic = none;
  partition = none;
  offset = none;
  timestamp = none;
  key = none;
  request_id = some (codes "r1");
  stream_id = some 1;
  user_id = some 7;
  failed_reason = none;
  retry_count = 0;
  replay_count = 0;
  replayable = true;
  max_replay_count = 3;
  failed_at = none;
  replayed_at = none;
  payload = end;
}

abbrev no_age : DlqItem → Option ℕ
no_age item = none

summarize_dlq_items-AddsUp_example :
    AddsUp (dead_item ∷ []) (summarize_dlq_items no_age 5 (dead_item ∷ []))
summarize_dlq_items-AddsUp_example = summarize_dlq_items-AddsUp no_age 5 (dead_item ∷ [])

-- The topic is gone at the second look, and created anew.
abbrev admin : TopicAdmin (ℕ × Fields)
admin = record {
  connection = none;
  deletion = deleted;
  listings = ok true ∷ ok false ∷ [];
  creation = created;
  closing = none;
}

reset_demo_events-IsReset_example :
    IsReset admin world (reset_demo_events true healthy admin (codes "RESET DEMO DB") world)
reset_demo_events-IsReset_example =
    reset_demo_events-IsReset true healthy admin (codes "RESET DEMO DB") world

reset_demo_events-IsConsistent_example :
    IsConsistent (reset_demo_events true healthy admin (codes "RESET DEMO DB") world).1.database
reset_demo_events-IsConsistent_example =
    reset_demo_events-IsConsistent true healthy admin (codes "RESET DEMO DB") world
      room-IsConsistent
