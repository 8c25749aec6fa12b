-- ===== src/Api/Reading/Unread.antt =====
-- What marking an event as read means to the events that count as unread.
use cloud_portfolio.Prelude.{
  ℕ, ◌≡◌, refl, sym, ap, ◌∙◌, Bool, true, false, ◌&&◌, ◌||◌, not, ◌==◌, ==_iff, Option, none, some,
  List, [], ◌∷◌, ◌++◌, if-result, if-true, Bool-cases, inl, inr, arith, subst, codes,
}
use cloud_portfolio.Errors.{Result, ok}
use cloud_portfolio.Database.Tables.{Database, Message}
use cloud_portfolio.Database.Find.{find}
use cloud_portfolio.Database.Tx.{continue, modify}
use cloud_portfolio.Database.Session.{Fault, healthy, in_transaction, in_transaction-ok, finish}
use cloud_portfolio.Api.Answer.{Answer, done, failed, answer_of, answer_of-done}
use cloud_portfolio.Api.Streams.{filter}
use cloud_portfolio.Api.Reading.{
  is_visible, visible_room, message_room_id_for_member, has_receipt, add_receipt, insert_receipt,
  mark_tx, mark_as_read, is_unread, unread_rows,
}

has_receipt-append :
    (n u event_id user_id : ℕ) (rows : List (ℕ × ℕ))
    → has_receipt n u (rows ++ (event_id, user_id) ∷ [])
      ≡ (has_receipt n u rows || (event_id == n && user_id == u))
unfolding has_receipt
has_receipt-append n u event_id user_id [] = ground arith
has_receipt-append n u event_id user_id (p ∷ rows) =
    ground (arith, has_receipt-append n u event_id user_id rows)

-- A receipt more: of the event for the user, and of nothing else.
has_receipt-add :
    (n u event_id user_id : ℕ) (rows : List (ℕ × ℕ))
    → has_receipt n u (add_receipt event_id user_id rows)
      ≡ (has_receipt n u rows || (event_id == n && user_id == u))
unfolding add_receipt
has_receipt-add n u event_id user_id rows =
    if-result (λ r. has_receipt n u r ≡ (has_receipt n u rows || (event_id == n && user_id == u)))
      (has_receipt event_id user_id rows) _ _
      (λ there. absorbed (event_id == n && user_id == u) refl there)
      (λ absent. has_receipt-append n u event_id user_id rows)
  where
    absorbed :
        (b : Bool)
        → (event_id == n && user_id == u) ≡ b
        → has_receipt event_id user_id rows ≡ true
        → has_receipt n u rows ≡ (has_receipt n u rows || b)
    absorbed false e there = ground arith
    absorbed true e there =
        let same_n : event_id ≡ n = ground (arith, e) in
        let same_u : user_id ≡ u = ground (arith, e) in
        let found : has_receipt n u rows ≡ true =
          ap (λ m. has_receipt m u rows) (sym same_n)
          ∙ ap (λ m. has_receipt event_id m rows) (sym same_u)
          ∙ there in
        ground (arith, found)

filter-filter :
    {A : Type 0} (p q r : A → Bool) (xs : List A)
    → ((x : A) → r x ≡ (p x && q x))
    → filter r xs ≡ filter q (filter p xs)
unfolding filter
filter-filter p q r [] h = refl
filter-filter p q r (x ∷ xs) h = elim (Bool-cases (p x)) [
  | inl passes ↦ elim (Bool-cases (q x)) [
    | inl also ↦ rw (h x, passes, also) (ap (λ ys. x ∷ ys) (filter-filter p q r xs h))
    | inr dropped ↦ rw (h x, passes, dropped) (filter-filter p q r xs h)
  ]
  | inr fails ↦ rw (h x, fails) (filter-filter p q r xs h)
]

-- What the statement of `mark_as_read` leaves unread, for any reader.
insert_receipt-unread :
    (event_id user_id room_id reader : ℕ) (db : Database)
    → unread_rows room_id reader (insert_receipt event_id user_id db)
      ≡ filter
          (λ (row : Message). not (event_id == row.id && user_id == reader))
          (unread_rows room_id reader db)
unfolding unread_rows insert_receipt
insert_receipt-unread event_id user_id room_id reader db =
    filter-filter (is_unread room_id reader db.receipts)
      (λ (row : Message). not (event_id == row.id && user_id == reader))
      (is_unread room_id reader (add_receipt event_id user_id db.receipts)) db.messages
      (λ row.
        unfold is_unread in
        ap (λ b. row.room_id == room_id && not b)
          (has_receipt-add row.id reader event_id user_id db.receipts)
        ∙ spread (row.room_id == room_id) (has_receipt row.id reader db.receipts)
            (event_id == row.id && user_id == reader))
  where
    spread : (a b c : Bool) → (a && not (b || c)) ≡ ((a && not b) && not c)
    spread a b c = ground arith

module _ (event_id user_id : ℕ) where
  -- A call that is answered has found the event in a room of the user, and stored the receipt.
  abbrev IsMarked : Database → Answer (Unit {0}) × Database → Type 0
  IsMarked db (done u, db') =
      (row : Message) × (find (is_visible event_id user_id db.members) db.messages ≡ some row)
      × (db' ≡ insert_receipt event_id user_id db)
  IsMarked db (failed f, db') = Unit

  found_row-IsMarked :
      (o : Option Message) (u : Unit {0}) (db db' : Database)
      → find (is_visible event_id user_id db.members) db.messages ≡ o
      → continue (visible_room o) (λ room_id. modify (insert_receipt event_id user_id)) db
        ≡ (ok u, db')
      → IsMarked db (done u, db')
  unfolding visible_room
  found_row-IsMarked none u db db' e h = cc
  found_row-IsMarked (some row) u db db' e h =
      (row, e, sym (ap (λ (p : Result (Unit {0}) × Database). p.1) h))

  mark_tx-IsMarked :
      (u : Unit {0}) (db db' : Database)
      → mark_tx event_id user_id db ≡ (ok u, db')
      → IsMarked db (done u, db')
  unfolding mark_tx message_room_id_for_member
  mark_tx-IsMarked u db db' h =
      found_row-IsMarked (find (is_visible event_id user_id db.members) db.messages) u db db' refl h

mark_as_read-IsMarked :
    (fault : Fault) (event_id user_id : ℕ) (u : Unit {0}) (db db' : Database)
    → mark_as_read fault event_id user_id db ≡ (done u, db')
    → IsMarked event_id user_id db (done u, db')
unfolding mark_as_read
mark_as_read-IsMarked fault event_id user_id u db db' h =
    mark_tx-IsMarked event_id user_id u db db' (
      in_transaction-ok fault (mark_tx event_id user_id) db db' u (
        answer_of-done (codes "Read receipt store unavailable")
          (in_transaction fault (mark_tx event_id user_id) db) u db' h))

-- Once `mark_as_read` has answered that an event is read, that event no longer counts as unread for the
-- user, and for every room and every reader all other events count as they did.
pub mark_as_read-unread :
    (fault : Fault) (event_id user_id room_id reader : ℕ) (u : Unit {0}) (db db' : Database)
    → mark_as_read fault event_id user_id db ≡ (done u, db')
    → unread_rows room_id reader db'
      ≡ filter
          (λ (row : Message). not (event_id == row.id && user_id == reader))
          (unread_rows room_id reader db)
mark_as_read-unread fault event_id user_id room_id reader u db db' h =
    let (row, found, after) = mark_as_read-IsMarked fault event_id user_id u db db' h in
    ap (unread_rows room_id reader) after ∙ insert_receipt-unread event_id user_id room_id reader db

insert_receipt_idem :
    (event_id user_id : ℕ) (db : Database)
    → insert_receipt event_id user_id (insert_receipt event_id user_id db)
      ≡ insert_receipt event_id user_id db
unfolding insert_receipt
insert_receipt_idem event_id user_id db =
    let there : has_receipt event_id user_id (add_receipt event_id user_id db.receipts) ≡ true =
      has_receipt-add event_id user_id event_id user_id db.receipts
      ∙ ground (arith, (==_iff event_id event_id).1 refl, (==_iff user_id user_id).1 refl) in
    ap (λ rows. record db { receipts = rows })
      (unfold add_receipt in if-true _ _ _ (unfold add_receipt in there))

mark_tx-again :
    (event_id user_id : ℕ) (row : Message) (db : Database)
    → find (is_visible event_id user_id db.members) db.messages ≡ some row
    → mark_tx event_id user_id db ≡ (ok tt, insert_receipt event_id user_id db)
unfolding mark_tx message_room_id_for_member visible_room
mark_tx-again event_id user_id row db e =
    ap (λ o. continue (visible_room o) (λ room_id. modify (insert_receipt event_id user_id)) db) e

-- To mark an event as read once more is answered in the same way, and changes nothing.
pub mark_as_read_idem :
    (fault : Fault) (event_id user_id : ℕ) (u : Unit {0}) (db db' : Database)
    → mark_as_read fault event_id user_id db ≡ (done u, db')
    → mark_as_read healthy event_id user_id db' ≡ (done tt, db')
mark_as_read_idem fault event_id user_id u db db' h =
    let (row, found, after) = mark_as_read-IsMarked fault event_id user_id u db db' h in
    let seen = insert_receipt event_id user_id db in
    let again : mark_tx event_id user_id seen ≡ (ok tt, seen) =
      mark_tx-again event_id user_id row seen (unfold insert_receipt in found)
      ∙ ap (λ d. (ok tt, d)) (insert_receipt_idem event_id user_id db) in
    subst (λ (d : Database). mark_as_read healthy event_id user_id d ≡ (done tt, d)) (sym after)
      (unfold mark_as_read in
        unfold in_transaction in
        ap (λ p. answer_of (codes "Read receipt store unavailable") (finish seen p)) again
        ∙ unfold finish in unfold answer_of in refl)
