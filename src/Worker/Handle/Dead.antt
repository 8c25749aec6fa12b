-- ===== src/Worker/Handle/Dead.antt =====
-- `move_to_dlq` and the status updates: the records they leave in the DLQ, and what they leave alone.
use cloud_portfolio.Prelude.{
  ℕ, suc, ◌+◌, ◌≤◌, ◌≡◌, refl, sym, ap, subst, List, [], ◌∷◌, ◌++◌, Text, arith, length,
  length-append,
}
use cloud_portfolio.Errors.{Error, Result, ok, err}
use cloud_portfolio.Json.{Fields}
use cloud_portfolio.Database.Tables.{Database, RequestStatus}
use cloud_portfolio.Database.Session.{
  Fault, healthy, fails, unacknowledged, in_transaction, finish, finish_unacknowledged,
}
use cloud_portfolio.Store.Status.Owner.{upsert_request_status-frame}
use cloud_portfolio.Worker.Job.{Job}
use cloud_portfolio.Worker.Persist.{find_slot}
use native.Mathlib.Nat.{le_of_eq}
use cloud_portfolio.Worker.Outbox.{Send, acknowledged, refused, unanswered}
use cloud_portfolio.Worker.Transaction.Invariant.{IsConsistent, ids-IsConsistent}
use cloud_portfolio.Worker.World.{
  World, Round, update_request_status, publish_dlq_job, after_publish, move_to_dlq,
  failed_dlq_status,
}

length-snoc {ℓ} : {A : Type ℓ} (xs : List A) (x : A) → length (xs ++ x ∷ []) ≡ suc (length xs)
length-snoc xs x = omega (arith, length-append xs (x ∷ []))

-- A move to the DLQ that returns has added one record.
abbrev pub Moved : World → Result (Unit {0}) × World → Type 0
Moved w (ok u, w') = length w'.dlq ≡ suc (length w.dlq)
Moved w (err e, w') = length w'.dlq ≤ suc (length w.dlq)

publish-Moved :
    (send : Send) (key : ℕ) (payload : Fields) (w : World)
    → Moved w (publish_dlq_job send key payload w)
unfolding publish_dlq_job
publish-Moved acknowledged key payload w = length-snoc w.dlq (key, payload)
publish-Moved (refused e) key payload w = omega arith
publish-Moved (unanswered e) key payload w = omega (arith, length-snoc w.dlq (key, payload))

after_publish-Moved :
    (round : Round) (job : Job) (reason : Text) (w : World) (r : Result (Unit {0}) × World)
    → Moved w r
    → Moved w (after_publish round job reason r)
unfolding after_publish update_request_status
after_publish-Moved round job reason w (ok u, w') h = h
after_publish-Moved round job reason w (err e, w') h = h

pub move_to_dlq-Moved :
    (round : Round) (job : Job) (reason : Text) (w : World)
    → Moved w (move_to_dlq round job reason w)
unfolding move_to_dlq
move_to_dlq-Moved round job reason w =
    after_publish-Moved round job reason w _ (publish-Moved round.send job.room_id _ w)

-- A status written, or not, leaves the event path consistent.
statuses-IsConsistent :
    (db : Database) (rows : List RequestStatus)
    → IsConsistent db
    → IsConsistent (record db { statuses = rows })
unfolding find_slot
statuses-IsConsistent db rows c = record {
  gapless = c.gapless;
  ids = c.ids;
  announced = c.announced;
  requests = c.requests;
}

status_written :
    (db : Database) (db' : Database) (rows : List RequestStatus)
    → db' ≡ record db { statuses = rows }
    → IsConsistent db
    → IsConsistent db'
status_written db db' rows e c = subst IsConsistent (sym e) (statuses-IsConsistent db rows c)

same_ids :
    (db db' : Database) (rows : List RequestStatus)
    → db' ≡ record db { statuses = rows }
    → db.next_message_id ≤ db'.next_message_id
same_ids db db' rows e = le_of_eq (sym (ap (λ (d : Database). d.next_message_id) e))

finish-status :
    (db : Database) (r : Result Fields × Database) (rows : List RequestStatus)
    → r.1 ≡ record db { statuses = rows }
    → IsConsistent db
    → IsConsistent (finish db r).1
unfolding finish
finish-status db (ok status, db') rows e c = status_written db db' rows e c
finish-status db (err x, db') rows e c =
    ids-IsConsistent db db'.next_message_id (same_ids db db' rows e) c

finish_unacknowledged-status :
    (x : Error) (db : Database) (r : Result Fields × Database) (rows : List RequestStatus)
    → r.1 ≡ record db { statuses = rows }
    → IsConsistent db
    → IsConsistent (finish_unacknowledged x db r).1
unfolding finish_unacknowledged
finish_unacknowledged-status x db (ok status, db') rows e c = status_written db db' rows e c
finish_unacknowledged-status x db (err y, db') rows e c =
    ids-IsConsistent db db'.next_message_id (same_ids db db' rows e) c

pub update_request_status-IsConsistent :
    (fault : Fault) (request_id : Text) (payload : Fields) (w : World)
    → IsConsistent w.database
    → IsConsistent (update_request_status fault request_id payload w).database
unfolding update_request_status in_transaction
update_request_status-IsConsistent healthy request_id payload w c =
    let (rows, e) = upsert_request_status-frame request_id payload w.database in
    finish-status w.database _ rows e c
update_request_status-IsConsistent (fails x n) request_id payload w c =
    ids-IsConsistent w.database (w.database.next_message_id + n) (omega arith) c
update_request_status-IsConsistent (unacknowledged x) request_id payload w c =
    let (rows, e) = upsert_request_status-frame request_id payload w.database in
    finish_unacknowledged-status x w.database _ rows e c

abbrev pub Keeps : World → World → Type 0
Keeps w w' = IsConsistent w.database → IsConsistent w'.database

publish-database :
    (send : Send) (key : ℕ) (payload : Fields) (w : World)
    → (publish_dlq_job send key payload w).1.database ≡ w.database
unfolding publish_dlq_job
publish-database acknowledged key payload w = refl
publish-database (refused e) key payload w = refl
publish-database (unanswered e) key payload w = refl

after_publish-Keeps :
    (round : Round) (job : Job) (reason : Text) (r : Result (Unit {0}) × World)
    → Keeps r.1 (after_publish round job reason r).1
unfolding after_publish
after_publish-Keeps round job reason (ok u, w) c =
    update_request_status-IsConsistent round.status_fault job.request_id
      (failed_dlq_status reason round.failed_at job) w c
after_publish-Keeps round job reason (err e, w) c = c

pub move_to_dlq-Keeps :
    (round : Round) (job : Job) (reason : Text) (w : World)
    → Keeps w (move_to_dlq round job reason w).1
unfolding move_to_dlq
move_to_dlq-Keeps round job reason w c =
    after_publish-Keeps round job reason _
      (subst IsConsistent (sym (publish-database round.send job.room_id _ w)) c)
