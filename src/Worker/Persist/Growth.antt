-- ===== src/Worker/Persist/Growth.antt =====
-- What a transaction of `_persist_message_with_cursor` that returns has done to the messages.
use cloud_portfolio.Prelude.{
  ℕ, suc, ◌≤◌, ◌≡◌, ◌≢◌, ◌⊎◌, inl, inr, refl, sym, subst, codes, ◌∙◌, ap, Bool, true, false, Option,
  none, some, List, [], ◌∷◌, ◌++◌, Text, arith, text_eq, text_eq_iff, Bool-cases, ltb, ◌==◌,
  if◌then◌else◌,
}
use native.Mathlib.Nat.{le_refl}
use cloud_portfolio.Errors.{Error, Result, ok, err, value_error}
use cloud_portfolio.Json.{Fields}
use cloud_portfolio.Database.Tables.{Message, Sequence, Database}
use cloud_portfolio.Database.Find.{find}
use cloud_portfolio.Worker.Envelope.{Envelope, event_envelope}
use cloud_portfolio.Worker.Job.{Job, job_fields}
use cloud_portfolio.Worker.Response.{message_row_response}
use cloud_portfolio.Database.Untouched.{Untouched, Untouched-refl, Untouched-trans}
use cloud_portfolio.Worker.Cached.{idempotency_route, used_key, cached_response}
use cloud_portfolio.Worker.Cached.Laws.{upsert_cached-Untouched, cached_response-Untouched}
use cloud_portfolio.Worker.Persist.{
  Draft, draft_of, is_message, is_slot, find_message, find_slot, contains_id, contains_member,
  refusal, last_seq, bump_rows, use_id, insert_free, insert_absent, insert_row, insert_message,
  cache_under, cache_response, behind, answer_row, append_message, requested_seq, sequence_message,
  place, resume, place_next, append_allowed, append_absent, persist_uncached, or_persist,
  persist_envelope, persist_message_with_cursor,
}

-- The actor and the stream are known, and the actor is a member.
pub record IsAuthorized (job : Job) (db : Database) : Type 0 where
  pub stream : contains_id job.room_id db.rooms ≡ true
  pub actor : contains_id job.user_id db.users ≡ true
  pub member : contains_member job.room_id job.user_id db.members ≡ true

-- The row that a job has appended, with the next number of its room and the next id.
pub record IsRowOf (job : Job) (db : Database) (row : Message) : Type 0 where
  pub request_id : row.request_id ≡ job.request_id
  pub room_id : row.room_id ≡ job.room_id
  pub user_id : row.user_id ≡ job.user_id
  pub id : row.id ≡ db.next_message_id
  pub next_in_room : row.room_seq ≡ suc (last_seq job.room_id db.sequences)
  pub as_requested : requested_seq job.room_seq row.room_seq ≡ row.room_seq

pub record Appended (job : Job) (db db' : Database) (response : Fields) : Type 0 where
  pub row : Message
  pub of_job : IsRowOf job db row
  pub authorized : IsAuthorized job db
  pub was_absent : find_message job.request_id db ≡ none
  pub messages : db'.messages ≡ db.messages ++ row ∷ []
  pub sequences : db'.sequences ≡ bump_rows job.room_id db.sequences
  pub outbox : db'.outbox ≡ db.outbox
  pub next_message_id : db'.next_message_id ≡ suc db.next_message_id
  pub answer : response ≡ message_row_response row

-- By how the statements end; after an error they are rolled back.
abbrev pub Persisted : Job → Database → Result Fields × Database → Type 0
Persisted job db (ok response, db') = Untouched db db' ⊎ Appended job db db' response
Persisted job db (err e, db') = db.next_message_id ≤ db'.next_message_id

find-ne-none {ℓ} :
    {A : Type ℓ} (p q : A → Bool) (xs : List A) (x : A)
    → find p xs ≡ some x
    → q x ≡ true
    → find q xs ≢ none
unfolding find
find-ne-none p q [] x h e = cc
find-ne-none p q (y ∷ xs) x h e = ground (arith, find-ne-none p q xs x)

-- A row in a slot is found by its request, so a request without a row has none in any slot.
slot-message :
    (room_id room_seq : ℕ) (db : Database) (row : Message)
    → find_slot room_id room_seq db ≡ some row
    → find_message row.request_id db ≢ none
unfolding find_slot find_message is_message
slot-message room_id room_seq db row h =
    find-ne-none (is_slot room_id room_seq) (is_message row.request_id) db.messages row h
      ((text_eq_iff row.request_id row.request_id).1 refl)

pub last_seq-bump_rows :
    (room_id other : ℕ) (rows : List Sequence)
    → last_seq other (bump_rows room_id rows)
      ≡ (if room_id == other then suc (last_seq other rows) else last_seq other rows)
unfolding last_seq bump_rows find
last_seq-bump_rows room_id other [] = ground arith
last_seq-bump_rows room_id other (row ∷ rows) =
    ground (arith, last_seq-bump_rows room_id other rows)

refusal-none : (job : Job) (db : Database) → refusal job db ≡ none → IsAuthorized job db
unfolding refusal
refusal-none job db h = ground arith

-- What an INSERT of a row has done, by how it ends.
abbrev Inserted : Message → Database → Result Message × Database → Type 0
Inserted row db (ok r, db') =
    (r ≡ row)
    × (db'.messages ≡ db.messages ++ row ∷ [])
    × (db'.sequences ≡ db.sequences)
    × (db'.outbox ≡ db.outbox)
    × (db'.next_message_id ≡ suc db.next_message_id)
Inserted row db (err e, db') = db.next_message_id ≤ db'.next_message_id

insert_free-Inserted :
    (row : Message) (db : Database) (o : Option Message) → Inserted row db (insert_free row db o)
unfolding insert_free use_id
insert_free-Inserted row db none = (refl, refl, refl, refl, refl)
insert_free-Inserted row db (some old) = omega arith

insert_absent-Inserted :
    (row : Message) (db : Database) (o : Option Message) → Inserted row db (insert_absent row db o)
unfolding insert_absent use_id
insert_absent-Inserted row db none =
    insert_free-Inserted row db (find_slot row.room_id row.room_seq db)
insert_absent-Inserted row db (some old) = omega arith

insert_row-Inserted : (row : Message) (db : Database) → Inserted row db (insert_row row db)
unfolding insert_row
insert_row-Inserted row db = insert_absent-Inserted row db (find_message row.request_id db)

cache_under-Untouched :
    (job : Job) (response : Fields) (o : Option Text) (db : Database)
    → Untouched db (cache_under job response o db)
unfolding cache_under
cache_under-Untouched job response none db = Untouched-refl db
cache_under-Untouched job response (some key) db =
    upsert_cached-Untouched (idempotency_route job) key response db

-- The state in which the room's number has been drawn.
abbrev drawn : Job → Database → Database
drawn job db = record db { sequences = bump_rows job.room_id db.sequences }

-- An answer built of an insertion is an appended row.
answer-Persisted :
    (job : Job) (db : Database) (row : Message) (r : Result Message × Database)
    → IsRowOf job db row
    → IsAuthorized job db
    → find_message job.request_id db ≡ none
    → Inserted row (drawn job db) r
    → Persisted job db (answer_row job r)
unfolding answer_row cache_response
answer-Persisted job db row (err e, db') of_job allowed absent h = h
answer-Persisted job db row (ok r, db') of_job allowed absent h =
    let u =
      cache_under-Untouched job (message_row_response r) (used_key job.x_idempotency_key) db' in
    inr (record {
      row = row;
      of_job = of_job;
      authorized = allowed;
      was_absent = absent;
      messages = u.messages ∙ h.1;
      sequences = u.sequences ∙ h.2;
      outbox = u.outbox ∙ h.3;
      next_message_id = u.next_message_id ∙ h.4;
      answer = ap message_row_response h.0;
    })

behind_slot-err :
    (job : Job) (seq room_id room_seq : ℕ) (db : Database) (o : Option Message)
    → find_message job.request_id db ≡ none
    → find_slot room_id room_seq db ≡ o
    → (e : Error) × (behind job seq o ≡ err e)
unfolding behind
behind_slot-err job seq room_id room_seq db none absent e = (_, refl)
behind_slot-err job seq room_id room_seq db (some row) absent e =
    elim (Bool-cases (text_eq row.request_id job.request_id)) [
      | inl same ↦ absurd (
          slot-message room_id room_seq db row e
            (rw ((text_eq_iff row.request_id job.request_id).0 same) absent))
      | inr other ↦ (value_error (sequence_message (codes "conflict") job seq), rw other refl)
    ]

if-Persisted :
    (job : Job) (db : Database) (b : Bool) (x y : Result Fields × Database)
    → (b ≡ true → Persisted job db x)
    → (b ≡ false → Persisted job db y)
    → Persisted job db (if b then x else y)
if-Persisted job db true x y hx hy = hx refl
if-Persisted job db false x y hx hy = hy refl

requested_seq_idem :
    (o : Option ℕ) (n : ℕ) → requested_seq o (requested_seq o n) ≡ requested_seq o n
unfolding requested_seq
requested_seq_idem none n = refl
requested_seq_idem (some m) n = refl

last_seq-bump_self :
    (room_id : ℕ) (rows : List Sequence)
    → last_seq room_id (bump_rows room_id rows) ≡ suc (last_seq room_id rows)
last_seq-bump_self room_id rows = ground (arith, last_seq-bump_rows room_id room_id rows)

between_tests : (a b : ℕ) → ltb a b ≡ false → ltb b a ≡ false → a ≡ b
between_tests a b h k = ground arith

place-Persisted :
    (job : Job) (draft : Draft) (at : Text) (db : Database)
    → IsAuthorized job db
    → find_message job.request_id db ≡ none
    → Persisted job db (place_next job draft at db)
unfolding place_next place append_message insert_message
place-Persisted job draft at db allowed absent =
    let expected = last_seq job.room_id (bump_rows job.room_id db.sequences) in
    let seq = requested_seq job.room_seq expected in
    if-Persisted job db (ltb seq expected) _ _
      (λ stale.
        let (e, is_err) =
          behind_slot-err job seq job.room_id seq (drawn job db)
            (find_slot job.room_id seq (drawn job db)) absent refl in
        subst (λ r. Persisted job db (r, drawn job db)) (sym is_err) (le_refl _))
      λ not_stale.
        if-Persisted job db (ltb expected seq) _ _ (λ gap. le_refl _)
          λ no_gap.
            answer-Persisted job db _ _
              (record {
                request_id = refl;
                room_id = refl;
                user_id = refl;
                id = refl;
                next_in_room =
                    between_tests seq expected not_stale no_gap
                    ∙ last_seq-bump_self job.room_id db.sequences;
                as_requested = requested_seq_idem job.room_seq expected;
              })
              allowed absent (insert_row-Inserted _ (drawn job db))

allowed-Persisted :
    (job : Job) (draft : Draft) (at : Text) (db : Database) (o : Option Text)
    → refusal job db ≡ o
    → find_message job.request_id db ≡ none
    → Persisted job db (append_allowed job draft at db o)
unfolding append_allowed
allowed-Persisted job draft at db none e absent =
    place-Persisted job draft at db (refusal-none job db e) absent
allowed-Persisted job draft at db (some reason) e absent = le_refl _

resume-Persisted : (job : Job) (db : Database) (r : Result Fields) → Persisted job db (r, db)
resume-Persisted job db (ok response) = inl (Untouched-refl db)
resume-Persisted job db (err e) = le_refl _

absent-Persisted :
    (job : Job) (draft : Draft) (at : Text) (db : Database) (o : Option Message)
    → find_message job.request_id db ≡ o
    → Persisted job db (append_absent job draft at db o)
unfolding append_absent
absent-Persisted job draft at db none e = allowed-Persisted job draft at db (refusal job db) refl e
absent-Persisted job draft at db (some row) e = resume-Persisted job db (resume job row)

Appended-after :
    (job : Job) (a b c : Database) (response : Fields)
    → Untouched a b
    → Appended job b c response
    → Appended job a c response
unfolding find_message
Appended-after job a b c response u h = record {
  row = h.row;
  of_job = record {
    request_id = h.of_job.request_id;
    room_id = h.of_job.room_id;
    user_id = h.of_job.user_id;
    id = h.of_job.id ∙ u.next_message_id;
    next_in_room = h.of_job.next_in_room ∙ ap (λ rows. suc (last_seq job.room_id rows)) u.sequences;
    as_requested = h.of_job.as_requested;
  };
  authorized = record {
    stream = sym (ap (contains_id job.room_id) u.rooms) ∙ h.authorized.stream;
    actor = sym (ap (contains_id job.user_id) u.users) ∙ h.authorized.actor;
    member = sym (ap (contains_member job.room_id job.user_id) u.members) ∙ h.authorized.member;
  };
  was_absent = sym (ap (find (is_message job.request_id)) u.messages) ∙ h.was_absent;
  messages = h.messages ∙ ap (λ rows. rows ++ h.row ∷ []) u.messages;
  sequences = h.sequences ∙ ap (bump_rows job.room_id) u.sequences;
  outbox = h.outbox ∙ u.outbox;
  next_message_id = h.next_message_id ∙ ap suc u.next_message_id;
  answer = h.answer;
}

-- What grows from a state grows from one with the same event path.
Persisted-after :
    (job : Job) (a b : Database) (r : Result Fields × Database)
    → Untouched a b
    → Persisted job b r
    → Persisted job a r
Persisted-after job a b (err e, c) u h = omega (arith, u.next_message_id)
Persisted-after job a b (ok response, c) u (inl same) = inl (Untouched-trans u same)
Persisted-after job a b (ok response, c) u (inr grown) =
    inr (Appended-after job a b c response u grown)

or_persist-Persisted :
    (job : Job) (draft : Draft) (at : Text) (db : Database) (r : Result (Option Fields) × Database)
    → Untouched db r.1
    → Persisted job db (or_persist job draft at r)
unfolding or_persist persist_uncached
or_persist-Persisted job draft at db (err e, db') u = omega (arith, u.next_message_id)
or_persist-Persisted job draft at db (ok (some response), db') u = inl u
or_persist-Persisted job draft at db (ok none, db') u =
    Persisted-after job db db' _ u
      (absent-Persisted job draft at db' (find_message job.request_id db') refl)

envelope-Persisted :
    (job : Job) (at : Text) (db : Database) (r : Result Envelope)
    → Persisted job db (persist_envelope job at db r)
unfolding persist_envelope
envelope-Persisted job at db (err e) = le_refl _
envelope-Persisted job at db (ok e) =
    or_persist-Persisted job (draft_of job e) at db (cached_response job db)
      (cached_response-Untouched job db)

-- When the statements return, the messages, the numbers of the rooms and the outbox are as they
-- were, or one row is new: a row of the job, with the next number of its room and the next id, of a
-- member of a known stream, for a request that had no row.
pub persist_message_with_cursor-Persisted :
    (job : Job) (at : Text) (db : Database)
    → Persisted job db (persist_message_with_cursor job at db)
unfolding persist_message_with_cursor
persist_message_with_cursor-Persisted job at db =
    envelope-Persisted job at db (event_envelope (job_fields job))
