-- ===== src/Database/Untouched.antt =====
-- Two states of the database in which the tables of the event path are the same.
use cloud_portfolio.Prelude.{◌≡◌, refl, ◌∙◌}
use cloud_portfolio.Database.Tables.{Database}

pub record Untouched (db db' : Database) : Type 0 where
  pub rooms : db'.rooms ≡ db.rooms
  pub users : db'.users ≡ db.users
  pub members : db'.members ≡ db.members
  pub next_message_id : db'.next_message_id ≡ db.next_message_id
  pub messages : db'.messages ≡ db.messages
  pub sequences : db'.sequences ≡ db.sequences
  pub outbox : db'.outbox ≡ db.outbox

pub Untouched-refl : (db : Database) → Untouched db db
Untouched-refl db = record {
  rooms = refl;
  users = refl;
  members = refl;
  next_message_id = refl;
  messages = refl;
  sequences = refl;
  outbox = refl;
}

pub Untouched-trans : {a b c : Database} → Untouched a b → Untouched b c → Untouched a c
Untouched-trans h k = record {
  rooms = k.rooms ∙ h.rooms;
  users = k.users ∙ h.users;
  members = k.members ∙ h.members;
  next_message_id = k.next_message_id ∙ h.next_message_id;
  messages = k.messages ∙ h.messages;
  sequences = k.sequences ∙ h.sequences;
  outbox = k.outbox ∙ h.outbox;
}
