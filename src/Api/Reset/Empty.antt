-- ===== src/Api/Reset/Empty.antt =====
-- What a reset of the demo leaves.
use cloud_portfolio.Prelude.{
  ℕ, ◌≡◌, refl, ap, Bool, true, false, ◌<◌, All, List, [], length, leb, ◌&&◌, text_eq, Text, codes,
  if-result, arith, ◌⊎◌, inl, inr, ◌+◌, subst, sym,
}
use cloud_portfolio.Errors.{Result, ok, err}
use cloud_portfolio.Database.Tables.{Database, Message}
use cloud_portfolio.Database.Session.{
  Fault, healthy, fails, unacknowledged, finish, finish_unacknowledged, in_transaction,
}
use cloud_portfolio.Worker.Persist.{find_slot, last_seq}
use cloud_portfolio.Worker.Transaction.Invariant.{
  IsConsistent, HasDistinctRequests, ids-IsConsistent,
}
use cloud_portfolio.Worker.Outbox.Intents.{has_intent}
use cloud_portfolio.Worker.World.{World}
use cloud_portfolio.Api.Answer.{Answer, done, failed, answer_of}
use cloud_portfolio.Json.{Fields}
use cloud_portfolio.Api.Reset.Topic.{
  TopicAdmin, reset_topic, IsNew, IsNewTopic, reset_topic-IsNewTopic,
}
use cloud_portfolio.Api.Reset.{
  Counts, after_topic, emptied, reset_demo_event_data, after_data, with_database, reset_demo_events,
}

no_slot : (room_seq : ℕ) → false ≡ (leb 1 room_seq && leb room_seq 0)
no_slot room_seq = ground arith

-- All data of the events is gone, and users and the sequence of the ids are kept.
pub record IsEmptied (db db' : Database) : Type 0 where
  pub messages : db'.messages ≡ []
  pub rooms : db'.rooms ≡ []
  pub members : db'.members ≡ []
  pub sequences : db'.sequences ≡ []
  pub statuses : db'.statuses ≡ []
  pub cached : db'.cached ≡ []
  pub claims : db'.intake ≡ []
  pub outbox : db'.outbox ≡ []
  pub attempts : db'.attempts ≡ []
  pub receipts : db'.receipts ≡ []
  pub users : db'.users ≡ db.users
  pub ids : db'.next_message_id ≡ db.next_message_id

emptied-IsEmptied : (db : Database) → IsEmptied db (emptied db)
unfolding emptied
emptied-IsEmptied db = record {
  messages = refl;
  rooms = refl;
  members = refl;
  sequences = refl;
  statuses = refl;
  cached = refl;
  claims = refl;
  outbox = refl;
  attempts = refl;
  receipts = refl;
  users = refl;
  ids = refl;
}

-- Nothing is changed but that the database may have used up ids.
abbrev pub IsKept : World → World → Type 0
IsKept w w' =
    (w'.dlq ≡ w.dlq)
    × ((n : ℕ) × (w'.database
          ≡ record w.database { next_message_id = w.database.next_message_id + n }))

module _ (admin : TopicAdmin (ℕ × Fields)) where
  -- How a reset ends.
  abbrev pub IsReset : World → Answer Counts × World → Type 0
  IsReset w (done c, w') =
      IsEmptied w.database w'.database
      × IsNew admin.creation w'.dlq
      × (w'.ingress ≡ w.ingress)
      × (c.deleted_messages ≡ length w.database.messages)
      × (c.reset_streams ≡ length w.database.rooms)
      × (c.reset_request_statuses ≡ length w.database.statuses)
  IsReset w (failed f, w') =
      (w'.ingress ≡ w.ingress) × (IsEmptied w.database w'.database ⊎ IsKept w w')

  topic-IsReset :
      (w v : World) (c : Counts) (p : Result (Unit {0}) × List (ℕ × Fields))
      → IsEmptied w.database v.database
      → v.ingress ≡ w.ingress
      → c.deleted_messages ≡ length w.database.messages
      → c.reset_streams ≡ length w.database.rooms
      → c.reset_request_statuses ≡ length w.database.statuses
      → IsNewTopic admin p
      → IsReset w (after_topic c v p)
  unfolding after_topic
  topic-IsReset w v c (ok u, dlq) gone same messages streams statuses new =
      (gone, new, same, messages, streams, statuses)
  topic-IsReset w v c (err e, dlq) gone same messages streams statuses new = (same, inl gone)

  after_data-IsReset :
      (fault : Fault) (w : World)
      → IsReset w (
          after_data admin (
            with_database w (
              answer_of
                (codes "Demo event store unavailable")
                (in_transaction fault reset_demo_event_data w.database))))
  unfolding after_data with_database answer_of in_transaction finish finish_unacknowledged
      reset_demo_event_data
  after_data-IsReset healthy w =
      topic-IsReset w (record w { database = emptied w.database }) _ (reset_topic admin w.dlq)
        (emptied-IsEmptied w.database) refl refl refl refl (reset_topic-IsNewTopic admin w.dlq)
  after_data-IsReset (fails e n) w = (refl, inr (refl, (n, refl)))
  after_data-IsReset (unacknowledged e) w = (refl, inl (emptied-IsEmptied w.database))

kept : (w : World) → IsKept w w
kept w = (refl, (0, ap (λ n. record w.database { next_message_id = n }) (omega arith)))

-- However the database and the calls of the Kafka client fare, `reset_demo_events` empties all tables of
-- the events at once and keeps the users, or it leaves the data of the database and the DLQ alone; it
-- never touches the ingress topic. If it answers with counts, the tables are empty, the counts are those
-- of the rows that were there, and the DLQ is a new topic without records, or the one that the broker
-- reports as there already.
pub reset_demo_events-IsReset :
    (enabled : Bool) (fault : Fault) (admin : TopicAdmin (ℕ × Fields)) (confirmation : Text)
    (w : World)
    → IsReset admin w (reset_demo_events enabled fault admin confirmation w)
unfolding reset_demo_events
reset_demo_events-IsReset false fault admin confirmation w = (refl, inr (kept w))
reset_demo_events-IsReset true fault admin confirmation w =
    if-result (IsReset admin w) (text_eq confirmation (codes "RESET DEMO DB")) _ _
      (λ p. after_data-IsReset admin fault w) (λ p. (refl, inr (kept w)))

IsEmptied-IsConsistent : (db db' : Database) → IsEmptied db db' → IsConsistent db'
unfolding find_slot last_seq
IsEmptied-IsConsistent db db' h = record {
  gapless = λ room_id room_seq. rw (h.messages, h.sequences) (no_slot room_seq);
  ids =
      subst (λ rows. All (λ (row : Message). row.id < db'.next_message_id) rows) (sym h.messages)
        tt;
  announced =
      subst (λ rows. All (λ (row : Message). has_intent row.id db'.outbox ≡ true) rows)
        (sym h.messages) tt;
  requests = subst HasDistinctRequests (sym h.messages) tt;
}

IsReset-IsConsistent :
    (admin : TopicAdmin (ℕ × Fields)) (w : World) (p : Answer Counts × World)
    → IsReset admin w p
    → IsConsistent w.database
    → IsConsistent p.1.database
IsReset-IsConsistent admin w (done c, w') h k = IsEmptied-IsConsistent w.database w'.database h.0
IsReset-IsConsistent admin w (failed f, w') h k = elim h.1 [
  | inl gone ↦ IsEmptied-IsConsistent w.database w'.database gone
  | inr (same, (n, e)) ↦
      subst IsConsistent (sym e)
        (ids-IsConsistent w.database (w.database.next_message_id + n) (omega arith) k)
]

-- A reset keeps a consistent database consistent.
pub reset_demo_events-IsConsistent :
    (enabled : Bool) (fault : Fault) (admin : TopicAdmin (ℕ × Fields)) (confirmation : Text)
    (w : World)
    → IsConsistent w.database
    → IsConsistent (reset_demo_events enabled fault admin confirmation w).1.database
reset_demo_events-IsConsistent enabled fault admin confirmation w h =
    IsReset-IsConsistent admin w (reset_demo_events enabled fault admin confirmation w)
      (reset_demo_events-IsReset enabled fault admin confirmation w) h
