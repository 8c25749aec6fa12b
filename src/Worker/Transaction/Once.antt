-- ===== src/Worker/Transaction/Once.antt =====
-- What `persist_ingress_job` may do to the messages: append one of its job, or nothing.
use cloud_portfolio.Prelude.{◌≡◌, refl, sym, ◌∙◌, ap, none, some, [], ◌∷◌, ◌++◌, inl, inr, Text}
use cloud_portfolio.Errors.{Error, Result, ok, err}
use cloud_portfolio.Json.{Fields, str, put}
use cloud_portfolio.Prelude.{codes}
use cloud_portfolio.Database.Tables.{Database, Message, Moment}
use cloud_portfolio.Database.Session.{
  Fault, healthy, fails, unacknowledged, in_transaction, finish, finish_unacknowledged,
}
use cloud_portfolio.Worker.Job.{Job}
use cloud_portfolio.Worker.Persist.{find_message, bump_rows, persist_message_with_cursor}
use cloud_portfolio.Worker.Persist.Growth.{
  IsAuthorized, IsRowOf, Persisted, persist_message_with_cursor-Persisted,
}
use cloud_portfolio.Worker.Transaction.{Times, stamped, persist_body, persist_ingress_job}
use cloud_portfolio.Worker.Transaction.Frame.{record_response-Kept}

-- The event path is the same, or has grown by one row of the job, whose actor is allowed.
pub data Written (job : Job) (db db' : Database) : Type 0 where
  unchanged : db'.messages ≡ db.messages → db'.sequences ≡ db.sequences → Written job db db'
  one_more :
      (row : Message)
      → IsRowOf job db row
      → IsAuthorized job db
      → find_message job.request_id db ≡ none
      → db'.messages ≡ db.messages ++ row ∷ []
      → db'.sequences ≡ bump_rows job.room_id db.sequences
      → Written job db db'

stamped-Written :
    (job : Job) (at : Moment) (time : Text) (db : Database) (r : Result Fields × Database)
    → Persisted job db r
    → (fin : Database) (response : Fields) → stamped job at time r ≡ (ok response, fin)
    → Written job db fin
unfolding stamped
stamped-Written job at time db (err e, mid) p fin response h = cc
stamped-Written job at time db (ok first, mid) (inl u) fin response h =
    let k = record_response-Kept job at (put (codes "persisted_at") (str time) first) mid in
    let last = sym (ap (λ (p : Result Fields × Database). p.1) h) in
    unchanged (ap (λ (d : Database). d.messages) last ∙ k.messages ∙ u.messages)
      (ap (λ (d : Database). d.sequences) last ∙ k.sequences ∙ u.sequences)
stamped-Written job at time db (ok first, mid) (inr a) fin response h =
    let k = record_response-Kept job at (put (codes "persisted_at") (str time) first) mid in
    let last = sym (ap (λ (p : Result Fields × Database). p.1) h) in
    one_more a.row a.of_job a.authorized a.was_absent
      (ap (λ (d : Database). d.messages) last ∙ k.messages ∙ a.messages)
      (ap (λ (d : Database). d.sequences) last ∙ k.sequences ∙ a.sequences)

finish-Written :
    (job : Job) (db : Database) (r : Result Fields × Database)
    → ((fin : Database) (response : Fields) → r ≡ (ok response, fin) → Written job db fin)
    → Written job db (finish db r).1
unfolding finish
finish-Written job db (ok response, fin) h = h fin response refl
finish-Written job db (err e, fin) h = unchanged refl refl

finish_unacknowledged-Written :
    (job : Job) (e : Error) (db : Database) (r : Result Fields × Database)
    → ((fin : Database) (response : Fields) → r ≡ (ok response, fin) → Written job db fin)
    → Written job db (finish_unacknowledged e db r).1
unfolding finish_unacknowledged
finish_unacknowledged-Written job e db (ok response, fin) h = h fin response refl
finish_unacknowledged-Written job e db (err e', fin) h = unchanged refl refl

persist_body-Written :
    (job : Job) (times : Times) (db fin : Database) (response : Fields)
    → persist_body job times.database times.before_commit db ≡ (ok response, fin)
    → Written job db fin
unfolding persist_body
persist_body-Written job times db fin response h =
    stamped-Written job times.database times.before_commit db
      (persist_message_with_cursor job times.database.iso db)
      (persist_message_with_cursor-Persisted job times.database.iso db) fin response h

-- However the database fares, the messages and the numbers of the rooms are as they were, or one row
-- is new: the row of the job, with the next number of its room, only where the stream and the actor
-- exist, the actor is a member, and the request had no row before.
pub persist_ingress_job-Written :
    (fault : Fault) (times : Times) (job : Job) (db : Database)
    → Written job db (persist_ingress_job fault times job db).1
unfolding persist_ingress_job in_transaction
persist_ingress_job-Written healthy times job db =
    finish-Written job db _ (persist_body-Written job times db)
persist_ingress_job-Written (fails e n) times job db = unchanged refl refl
persist_ingress_job-Written (unacknowledged e) times job db =
    finish_unacknowledged-Written job e db _ (persist_body-Written job times db)

Written-again :
    (job : Job) (db db' : Database) (row : Message)
    → find_message job.request_id db ≡ some row
    → Written job db db'
    → (db'.messages ≡ db.messages) × (db'.sequences ≡ db.sequences)
Written-again job db db' row old (unchanged m s) = (m, s)
Written-again job db db' row old (one_more new of_job allowed absent m s) = cc

-- A job whose request has a row already, as after a redelivery or a replay, changes neither the
-- messages nor the numbers of the rooms, whatever else it says and however the database fares.
pub persist_ingress_job-once :
    (fault : Fault) (times : Times) (job : Job) (db : Database) (row : Message)
    → find_message job.request_id db ≡ some row
    → ((persist_ingress_job fault times job db).1.messages ≡ db.messages)
      × ((persist_ingress_job fault times job db).1.sequences ≡ db.sequences)
persist_ingress_job-once fault times job db row old =
    Written-again job db (persist_ingress_job fault times job db).1 row old
      (persist_ingress_job-Written fault times job db)
