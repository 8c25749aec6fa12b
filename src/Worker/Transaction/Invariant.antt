-- ===== src/Worker/Transaction/Invariant.antt =====
-- The invariant of the event tables under `persist_ingress_job`.
use cloud_portfolio.Prelude.{
  is_some, ==_iff, text_eq_iff, All-append, ℕ, suc, ◌+◌, ◌≤◌, ◌<◌, ◌≡◌, refl, sym, ◌∙◌, ap, subst,
  Bool, true, false, ◌||◌, ◌&&◌, none, List, [], ◌∷◌, ◌++◌, ◌==◌, if◌then◌else◌, Text, codes, arith,
  Bool-cases, leb, All, inl, inr,
}
use cloud_portfolio.Errors.{Error, Result, ok, err}
use cloud_portfolio.Json.{Fields, str, put}
use cloud_portfolio.Database.Tables.{Database, Message, Moment}
use cloud_portfolio.Database.Find.{find, find-append}
use cloud_portfolio.Database.Session.{
  Fault, healthy, fails, unacknowledged, in_transaction, finish, finish_unacknowledged,
}
use cloud_portfolio.Database.Untouched.{Untouched}
use cloud_portfolio.Worker.Job.{Job}
use cloud_portfolio.Worker.Persist.{
  find_message, find_slot, is_message, is_slot, last_seq, bump_rows, persist_message_with_cursor,
}
use cloud_portfolio.Worker.Persist.Growth.{
  Appended, Persisted, persist_message_with_cursor-Persisted, last_seq-bump_rows,
}
use cloud_portfolio.Worker.Outbox.Intents.{has_intent}
use cloud_portfolio.Worker.Transaction.{
  Times, stamped, record_response, persist_body, persist_ingress_job,
}
use cloud_portfolio.Worker.Transaction.Frame.{
  Kept, Announced, record_response-Kept, record_response-Announced,
}

-- No two rows of one request.
abbrev pub HasDistinctRequests : List Message → Type 0
HasDistinctRequests [] = Unit
HasDistinctRequests (row ∷ rows) =
    (find (is_message row.request_id) rows ≡ none) × HasDistinctRequests rows

-- The numbers of each room are 1 to its last one, each taken once; ids are below the next one; every
-- event has an intent to notify; and no request has two events.
pub record IsConsistent (db : Database) : Type 0 where
  pub gapless :
      (room_id room_seq : ℕ)
      → is_some (find_slot room_id room_seq db)
        ≡ (leb 1 room_seq && leb room_seq (last_seq room_id db.sequences))
  pub ids : All (λ (row : Message). row.id < db.next_message_id) db.messages
  pub announced : All (λ (row : Message). has_intent row.id db.outbox ≡ true) db.messages
  pub requests : HasDistinctRequests db.messages

find_slot-append :
    (room_id room_seq : ℕ) (rows : List Message) (row : Message)
    → is_some (find (is_slot room_id room_seq) (rows ++ row ∷ []))
      ≡ (is_some (find (is_slot room_id room_seq) rows) || is_slot room_id room_seq row)
find_slot-append room_id room_seq rows row =
    rw (find-append (is_slot room_id room_seq) rows row) (ground arith)

-- One more row with the next number of its room closes no gap and leaves none.
slots-append :
    (found : Bool) (room_id room_seq job_room row_seq last bumped : ℕ)
    → found ≡ (leb 1 room_seq && leb room_seq last)
    → bumped ≡ (if job_room == room_id then suc last else last)
    → (job_room ≡ room_id → row_seq ≡ suc last)
    → (found || (job_room == room_id && row_seq == room_seq))
      ≡ (leb 1 room_seq && leb room_seq bumped)
slots-append found room_id room_seq job_room row_seq last bumped h b n =
    elim (Bool-cases (job_room == room_id)) [
      | inl same ↦ rw (h, b, same) (ground (arith, n ((==_iff job_room room_id).0 same)))
      | inr other ↦ rw (h, b, other) (ground arith)
    ]

is_message_comm :
    (a b : Message) → is_message a.request_id b ≡ false → is_message b.request_id a ≡ false
unfolding is_message
is_message_comm a b h =
    ground (arith, text_eq_iff a.request_id b.request_id, text_eq_iff b.request_id a.request_id)

requests-append :
    (rows : List Message) (row : Message)
    → HasDistinctRequests rows
    → find (is_message row.request_id) rows ≡ none
    → HasDistinctRequests (rows ++ row ∷ [])
unfolding find
requests-append [] row h absent = (refl, tt)
requests-append (x ∷ rows) row h absent =
    let other = found_neither (is_message row.request_id) x rows absent in
    (
      rw (find-append (is_message x.request_id) rows row, h.0, is_message_comm row x other.0) refl,
      requests-append rows row h.1 other.1,
    )
  where
    found_neither :
        (p : Message → Bool) (x : Message) (rows : List Message)
        → find p (x ∷ rows) ≡ none
        → (p x ≡ false) × (find p rows ≡ none)
    found_neither p x rows e = ground arith

All-imp :
    (P Q : Message → Type 0) (rows : List Message)
    → ((row : Message) → P row → Q row)
    → All P rows
    → All Q rows
All-imp P Q [] f h = tt
All-imp P Q (x ∷ rows) f h = (f x h.0, All-imp P Q rows f h.1)

-- Nothing new but statuses, idempotency rows and intents.
same-IsConsistent :
    {db mid fin : Database} → Untouched db mid → Kept mid fin → IsConsistent db → IsConsistent fin
unfolding find_slot
same-IsConsistent {db} {mid} {fin} u k c =
    let messages : fin.messages ≡ db.messages = k.messages ∙ u.messages in
    record {
      gapless =
          λ room_id room_seq. rw (messages, k.sequences ∙ u.sequences) (c.gapless room_id room_seq);
      ids = rw (messages, k.next_message_id ∙ u.next_message_id) c.ids;
      announced =
          rw messages
            (All-imp _ _ db.messages (λ row h. k.intents row.id (rw u.outbox h)) c.announced);
      requests = rw messages c.requests;
    }

-- One new row, with its intent.
grown-IsConsistent :
    (job : Job) (db mid fin : Database) (response : Fields)
    → (a : Appended job db mid response) → Kept mid fin
    → has_intent a.row.id fin.outbox ≡ true
    → IsConsistent db
    → IsConsistent fin
unfolding find_slot find_message is_slot
grown-IsConsistent job db mid fin response a k told c =
    let messages : fin.messages ≡ db.messages ++ a.row ∷ [] = k.messages ∙ a.messages in
    let next : fin.next_message_id ≡ suc db.next_message_id =
      k.next_message_id ∙ a.next_message_id in
    record {
      gapless = λ room_id room_seq.
          rw (messages, k.sequences ∙ a.sequences)
            (find_slot-append room_id room_seq db.messages a.row
              ∙ slots-append _ room_id room_seq a.row.room_id a.row.room_seq
                  (last_seq room_id db.sequences) _ (c.gapless room_id room_seq)
                  (subst
                    (λ n. last_seq room_id (bump_rows job.room_id db.sequences) ≡ (
                      if n == room_id
                      then suc (last_seq room_id db.sequences)
                      else last_seq room_id db.sequences))
                    (sym a.of_job.room_id) (last_seq-bump_rows job.room_id room_id db.sequences))
                  (λ e.
                    a.of_job.next_in_room
                    ∙ ap (λ n. suc (last_seq n db.sequences)) (sym a.of_job.room_id ∙ e)));
      ids =
          rw (messages, next)
            (All-append _ db.messages (a.row ∷ [])
              (All-imp _ _ db.messages (λ row h. omega arith) c.ids)
              (omega (arith, a.of_job.id), tt));
      announced = rw messages (
          All-append _ db.messages (a.row ∷ [])
            (All-imp _ _ db.messages (λ row h. k.intents row.id (rw a.outbox h)) c.announced)
            (told, tt));
      requests =
          rw messages
            (requests-append db.messages a.row c.requests (rw a.of_job.request_id a.was_absent));
    }

-- By how the statements end: after an error a rollback restores all but the ids.
abbrev Transacted : Database → Result Fields × Database → Type 0
Transacted db (ok response, db') = IsConsistent db'
Transacted db (err e, db') = db.next_message_id ≤ db'.next_message_id

-- The last part of the transaction, after a message that was found or appended.
recorded-Transacted :
    (db mid : Database) (r : Result Fields × Database)
    → (db.next_message_id ≤ mid.next_message_id)
    → Kept mid r.1
    → ((fin : Database) (response : Fields) → r ≡ (ok response, fin) → IsConsistent fin)
    → Transacted db r
recorded-Transacted db mid (ok response, fin) h k c = c fin response refl
recorded-Transacted db mid (err e, fin) h k c = omega (arith, k.next_message_id)

Announced-ok :
    (n : ℕ) (r : Result Fields × Database) (fin : Database) (response : Fields)
    → Announced n r
    → r ≡ (ok response, fin)
    → has_intent n fin.outbox ≡ true
Announced-ok n r fin response a e = subst (Announced n) e a

Kept-ok :
    (mid : Database) (r : Result Fields × Database) (fin : Database) (response : Fields)
    → Kept mid r.1
    → r ≡ (ok response, fin)
    → Kept mid fin
Kept-ok mid r fin response k e = subst (λ (p : Result Fields × Database). Kept mid p.1) e k

stamped-Transacted :
    (job : Job) (at : Moment) (time : Text) (db : Database) (r : Result Fields × Database)
    → IsConsistent db
    → Persisted job db r
    → Transacted db (stamped job at time r)
unfolding stamped
stamped-Transacted job at time db (err e, mid) c p = p
stamped-Transacted job at time db (ok response, mid) c (inl u) =
    let k = record_response-Kept job at (put (codes "persisted_at") (str time) response) mid in
    recorded-Transacted db mid
      (record_response job at (put (codes "persisted_at") (str time) response) mid)
      (omega (arith, u.next_message_id)) k
      (λ fin answer e. same-IsConsistent u (Kept-ok mid _ fin answer k e) c)
stamped-Transacted job at time db (ok response, mid) c (inr a) =
    let k = record_response-Kept job at (put (codes "persisted_at") (str time) response) mid in
    recorded-Transacted db mid
      (record_response job at (put (codes "persisted_at") (str time) response) mid)
      (omega (arith, a.next_message_id)) k
      (λ fin answer e.
        grown-IsConsistent job db mid fin response a (Kept-ok mid _ fin answer k e)
          (Announced-ok a.row.id _ fin answer
            (subst
              (λ d.
                Announced a.row.id
                  (record_response job at (put (codes "persisted_at") (str time) d) mid))
              (sym a.answer) (record_response-Announced job a.row time at mid))
            e)
          c)

persist_body-Transacted :
    (job : Job) (at : Moment) (time : Text) (db : Database)
    → IsConsistent db
    → Transacted db (persist_body job at time db)
unfolding persist_body
persist_body-Transacted job at time db c =
    stamped-Transacted job at time db (persist_message_with_cursor job at.iso db) c
      (persist_message_with_cursor-Persisted job at.iso db)

-- A use of ids, and nothing else.
pub ids-IsConsistent :
    (db : Database) (n : ℕ)
    → db.next_message_id ≤ n
    → IsConsistent db
    → IsConsistent (record db { next_message_id = n })
unfolding find_slot
ids-IsConsistent db n h c = record {
  gapless = c.gapless;
  ids = All-imp _ _ db.messages (λ row lt. omega arith) c.ids;
  announced = c.announced;
  requests = c.requests;
}

finish-IsConsistent :
    (db : Database) (r : Result Fields × Database)
    → IsConsistent db
    → Transacted db r
    → IsConsistent (finish db r).1
unfolding finish
finish-IsConsistent db (ok response, fin) c t = t
finish-IsConsistent db (err e, fin) c t = ids-IsConsistent db fin.next_message_id t c

finish_unacknowledged-IsConsistent :
    (e : Error) (db : Database) (r : Result Fields × Database)
    → IsConsistent db
    → Transacted db r
    → IsConsistent (finish_unacknowledged e db r).1
unfolding finish_unacknowledged
finish_unacknowledged-IsConsistent e db (ok response, fin) c t = t
finish_unacknowledged-IsConsistent e db (err e', fin) c t =
    ids-IsConsistent db fin.next_message_id t c

-- From a consistent database `persist_ingress_job` leads to a consistent one, for every job and
-- however the database fares: an error rolls back, and a commit whose answer is lost is complete.
pub persist_ingress_job-IsConsistent :
    (fault : Fault) (times : Times) (job : Job) (db : Database)
    → IsConsistent db
    → IsConsistent (persist_ingress_job fault times job db).1
unfolding persist_ingress_job in_transaction
persist_ingress_job-IsConsistent healthy times job db c =
    finish-IsConsistent db _ c (persist_body-Transacted job times.database times.before_commit db c)
persist_ingress_job-IsConsistent (fails e n) times job db c =
    ids-IsConsistent db (db.next_message_id + n) (omega arith) c
persist_ingress_job-IsConsistent (unacknowledged e) times job db c =
    finish_unacknowledged-IsConsistent e db _ c
      (persist_body-Transacted job times.database times.before_commit db c)
