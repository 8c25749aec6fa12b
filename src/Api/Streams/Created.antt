-- ===== src/Api/Streams/Created.antt =====
-- What `create_stream` creates.
use cloud_portfolio.Prelude.{
  ℕ, ◌≡◌, refl, sym, ap, ◌∙◌, Bool, true, false, not, ◌&&◌, ◌||◌, ◌==◌, ==_iff, List, [], ◌∷◌, ◌++◌,
  length, ltb, codes, if-result, if◌then◌else◌, arith, subst, Text,
}
use cloud_portfolio.Errors.{Result, ok, err}
use cloud_portfolio.Database.Tables.{Database}
use cloud_portfolio.Database.Session.{Fault, healthy, finish, in_transaction, in_transaction-ok}
use cloud_portfolio.Worker.Persist.{contains_id, contains_member}
use cloud_portfolio.Api.Answer.{Answer, done, failed, http, answer_of, answer_of-done}
use cloud_portfolio.Api.Streams.{
  filter, add_id, sorted_ids, add_members, Stream, create_stream_tx, create_stream, unknown_members,
}

contains_id-add :
    (n m : ℕ) (ids : List ℕ) → contains_id n (add_id m ids) ≡ (m == n || contains_id n ids)
unfolding contains_id add_id
contains_id-add n m [] = refl
contains_id-add n m (k ∷ ids) = ground (arith, contains_id-add n m ids)

contains_id-sorted : (n : ℕ) (ids : List ℕ) → contains_id n (sorted_ids ids) ≡ contains_id n ids
unfolding sorted_ids contains_id
contains_id-sorted n [] = refl
contains_id-sorted n (m ∷ ids) =
    contains_id-add n m (sorted_ids ids) ∙ ap (λ b. m == n || b) (contains_id-sorted n ids)

passing : (b c p r : Bool) → (b ≡ true → p ≡ true) → r ≡ (c && p) → (b || r) ≡ ((b || c) && p)
passing true c p r h e = ground (arith, h refl)
passing false c p r h e = e

failing : (b c p r : Bool) → (b ≡ true → p ≡ false) → r ≡ (c && p) → r ≡ ((b || c) && p)
failing true c p r h e = ground (arith, h refl, e)
failing false c p r h e = e

contains_id-filter :
    (n : ℕ) (p : ℕ → Bool) (ids : List ℕ)
    → contains_id n (filter p ids) ≡ (contains_id n ids && p n)
unfolding contains_id filter
contains_id-filter n p [] = refl
contains_id-filter n p (m ∷ ids) =
    if-result (λ l. contains_id n l ≡ (contains_id n (m ∷ ids) && p n)) (p m) _ _
      (λ passes.
        passing (m == n) (contains_id n ids) (p n) (contains_id n (filter p ids))
          (λ same. ap p (sym ((==_iff m n).0 same)) ∙ passes) (contains_id-filter n p ids))
      (λ fails.
        failing (m == n) (contains_id n ids) (p n) (contains_id n (filter p ids))
          (λ same. ap p (sym ((==_iff m n).0 same)) ∙ fails) (contains_id-filter n p ids))

no_id : (ids : List ℕ) (n : ℕ) → ltb 0 (length ids) ≡ false → contains_id n ids ≡ false
unfolding contains_id
no_id [] n h = refl
no_id (m ∷ ids) n h = ground (arith, h)

contains_member-append :
    (r n room_id m : ℕ) (rows : List (ℕ × ℕ))
    → contains_member r n (rows ++ (room_id, m) ∷ [])
      ≡ (contains_member r n rows || (room_id == r && m == n))
unfolding contains_member
contains_member-append r n room_id m [] = ground arith
contains_member-append r n room_id m (p ∷ rows) =
    ground (arith, contains_member-append r n room_id m rows)

-- A row that is there already, or is added.
contains_member-insert :
    (r n room_id m : ℕ) (rows : List (ℕ × ℕ))
    → contains_member r n
        (if contains_member room_id m rows then rows else rows ++ (room_id, m) ∷ [])
      ≡ (contains_member r n rows || (room_id == r && m == n))
contains_member-insert r n room_id m rows =
    if-result (λ l. contains_member r n l ≡ (contains_member r n rows || (room_id == r && m == n)))
      (contains_member room_id m rows) _ _ (λ there. absorbed (room_id == r && m == n) refl there)
      (λ absent. contains_member-append r n room_id m rows)
  where
    absorbed :
        (b : Bool)
        → (room_id == r && m == n) ≡ b
        → contains_member room_id m rows ≡ true
        → contains_member r n rows ≡ (contains_member r n rows || b)
    absorbed false e there = ground arith
    absorbed true e there =
        let same_r : room_id ≡ r = ground (arith, e) in
        let same_n : m ≡ n = ground (arith, e) in
        let found : contains_member r n rows ≡ true =
          ap (λ k. contains_member k n rows) (sym same_r)
          ∙ ap (λ k. contains_member room_id k rows) (sym same_n)
          ∙ there in
        ground (arith, found)

contains_member-add :
    (r n room_id : ℕ) (ids : List ℕ) (rows : List (ℕ × ℕ))
    → contains_member r n (add_members room_id ids rows)
      ≡ (contains_member r n rows || (room_id == r && contains_id n ids))
unfolding add_members contains_id
contains_member-add r n room_id [] rows = ground arith
contains_member-add r n room_id (m ∷ ids) rows =
    contains_member-insert r n room_id m (add_members room_id ids rows)
    ∙ spread (contains_member r n (add_members room_id ids rows)) (contains_member r n rows)
        (room_id == r) (contains_id n ids) (m == n) (contains_member-add r n room_id ids rows)
  where
    spread : (x a b c d : Bool) → x ≡ (a || (b && c)) → (x || (b && d)) ≡ (a || (b && (d || c)))
    spread x a b c d e = ground (arith, e)

-- A stream with its members: those that were asked for and the caller, all of them users, and no
-- membership more.
pub record IsCreated (room_id : ℕ) (member_ids : List ℕ) (user_id : ℕ) (db : Database) (s : Stream)
    (db' : Database) : Type 0 where
  pub id : s.id ≡ room_id
  pub rooms : db'.rooms ≡ db.rooms ++ room_id ∷ []
  pub asked : (n : ℕ) → contains_id n s.member_ids ≡ (user_id == n || contains_id n member_ids)
  pub known :
      (n : ℕ) → (contains_id n s.member_ids && contains_id n db.users) ≡ contains_id n s.member_ids
  pub members :
      (r n : ℕ)
      → contains_member r n db'.members
        ≡ (contains_member r n db.members || (room_id == r && contains_id n s.member_ids))

module _ (room_id : ℕ) (name : Text) (member_ids : List ℕ) (user_id : ℕ) (db : Database) where
  candidates : List ℕ
  unfolding sorted_ids
  candidates = sorted_ids (user_id ∷ member_ids)

  valid : List ℕ
  unfolding candidates filter
  valid = filter (λ n. contains_id n db.users) candidates

  -- No candidate is missing.
  all_valid :
      (n : ℕ)
      → ltb 0 (length (filter (λ m. not (contains_id m valid)) candidates)) ≡ false
      → contains_id n valid ≡ contains_id n candidates
  all_valid n none_missing =
      let out = no_id (filter (λ m. not (contains_id m valid)) candidates) n none_missing in
      let as_filter = contains_id-filter n (λ m. not (contains_id m valid)) candidates in
      let narrow : contains_id n valid ≡ (contains_id n candidates && contains_id n db.users) =
        unfold valid in contains_id-filter n (λ m. contains_id m db.users) candidates in
      decided (contains_id n candidates) (contains_id n valid) (contains_id n db.users) narrow
        (sym as_filter ∙ out)
    where
      decided : (c v u : Bool) → v ≡ (c && u) → (c && not v) ≡ false → v ≡ c
      decided c v u e h = ground (arith, e, h)

  abbrev IsDone : Result Stream × Database → Type 0
  IsDone (ok s, db') = IsCreated room_id member_ids user_id db s db'
  IsDone (err e, db') = Unit

  valid-known : (n : ℕ) → (contains_id n valid && contains_id n db.users) ≡ contains_id n valid
  unfolding valid
  valid-known n =
      twice (contains_id n candidates) (contains_id n valid) (contains_id n db.users)
        (contains_id-filter n (λ m. contains_id m db.users) candidates)
    where
      twice : (c v u : Bool) → v ≡ (c && u) → (v && u) ≡ v
      twice c v u e = ground (arith, e)

  candidates-asked : (n : ℕ) → contains_id n candidates ≡ (user_id == n || contains_id n member_ids)
  unfolding candidates
  candidates-asked n = contains_id-sorted n (user_id ∷ member_ids) ∙ unfold contains_id in refl

  create_stream_tx-IsDone : IsDone (create_stream_tx room_id name member_ids user_id db)
  unfolding create_stream_tx candidates valid
  create_stream_tx-IsDone =
      if-result IsDone (ltb 0 (length (filter (λ m. not (contains_id m valid)) candidates))) _ _
        (λ p. tt)
        (λ none_missing. record {
          id = refl;
          rooms = refl;
          asked = λ n. all_valid n none_missing ∙ candidates-asked n;
          known = valid-known;
          members = λ r n. contains_member-add r n room_id valid db.members;
        })

-- Where `create_stream` answers with a stream, its room is new in the list of rooms, its members are
-- exactly the caller and those that were asked for, all of them are users, each of them is now a member
-- of the room, and nothing else is changed of the memberships.
pub create_stream-IsCreated :
    (fault : Fault) (room_id : ℕ) (name : Text) (member_ids : List ℕ) (user_id : ℕ) (s : Stream)
    (db db' : Database)
    → create_stream fault room_id name member_ids user_id db ≡ (done s, db')
    → IsCreated room_id member_ids user_id db s db'
unfolding create_stream
create_stream-IsCreated fault room_id name member_ids user_id s db db' h =
    subst (IsDone room_id name member_ids user_id db)
      (in_transaction-ok fault (create_stream_tx room_id name member_ids user_id) db db' s (
        answer_of-done (codes "Stream store unavailable")
          (in_transaction fault (create_stream_tx room_id name member_ids user_id) db) s db' h))
      (create_stream_tx-IsDone room_id name member_ids user_id db)

some_id : (ids : List ℕ) → ltb 0 (length ids) ≡ true → (n : ℕ) × (contains_id n ids ≡ true)
unfolding contains_id
some_id [] h = absurd (ground (arith, h))
some_id (m ∷ ids) h = (m, ground (arith, ==_iff m m))

-- Either all that are asked for, the caller included, are users; or one of them is not, the answer is
-- 400, and nothing is changed.
abbrev pub IsDecided : List ℕ → ℕ → Database → Answer Stream × Database → Type 0
IsDecided member_ids user_id db (done s, db') =
    (n : ℕ)
    → ((user_id == n || contains_id n member_ids) && contains_id n db.users)
      ≡ (user_id == n || contains_id n member_ids)
IsDecided member_ids user_id db (failed f, db') =
    (db' ≡ db)
    × ((n : ℕ) × ((user_id == n || contains_id n member_ids) ≡ true)
        × (contains_id n db.users ≡ false))
    × ((detail : Text) × (f ≡ http 400 detail))

-- One of those that are missing.
missing_id :
    (room_id : ℕ) (name : Text) (member_ids : List ℕ) (user_id n : ℕ) (db : Database)
    → contains_id n (
        filter
          (λ m. not (contains_id m (valid room_id name member_ids user_id db)))
          (candidates room_id name member_ids user_id db))
      ≡ true
    → ((user_id == n || contains_id n member_ids) ≡ true) × (contains_id n db.users ≡ false)
missing_id room_id name member_ids user_id n db h =
    let among = candidates room_id name member_ids user_id db in
    let users = valid room_id name member_ids user_id db in
    let narrow : contains_id n users ≡ (contains_id n among && contains_id n db.users) =
      unfold valid in contains_id-filter n (λ m. contains_id m db.users) among in
    let both : (contains_id n among && not (contains_id n users)) ≡ true =
      sym (contains_id-filter n (λ m. not (contains_id m users)) among) ∙ h in
    let asked : contains_id n among ≡ true = first (contains_id n among) _ both in
    (
      sym (candidates-asked room_id name member_ids user_id db n) ∙ asked,
      decided (contains_id n among) (contains_id n users) (contains_id n db.users) narrow both,
    )
  where
    first : (a b : Bool) → (a && b) ≡ true → a ≡ true
    first true b e = refl
    first false b e = e

    decided : (c v u : Bool) → v ≡ (c && u) → (c && not v) ≡ true → u ≡ false
    decided c v u e h = ground (arith, e, h)

-- Where the database answers, `create_stream` creates a stream only if the caller and all that are asked
-- for are users. Else one of them is not a user, the answer is 400, and the row of the stream that had
-- been inserted is gone: the database is as it was.
pub create_stream-IsDecided :
    (room_id : ℕ) (name : Text) (member_ids : List ℕ) (user_id : ℕ) (db : Database)
    → IsDecided member_ids user_id db (create_stream healthy room_id name member_ids user_id db)
unfolding create_stream create_stream_tx in_transaction candidates valid
create_stream-IsDecided room_id name member_ids user_id db =
    let users = valid room_id name member_ids user_id db in
    let among = candidates room_id name member_ids user_id db in
    let missing = filter (λ m. not (contains_id m users)) among in
    if-result
      (λ (r : Result Stream × Database).
        IsDecided member_ids user_id db
          (answer_of (codes "Stream store unavailable") (finish db r)))
      (ltb 0 (length missing)) _ _
      (λ some_missing.
        let (n, found) = some_id missing some_missing in
        let (asked, stranger) = missing_id room_id name member_ids user_id n db found in
        unfold finish in
        unfold answer_of in (refl, (n, asked, stranger), (unknown_members missing, refl)))
      (λ none_missing.
        unfold finish in
        unfold answer_of in
        λ n.
          let same =
            all_valid room_id name member_ids user_id db n none_missing
            ∙ candidates-asked room_id name member_ids user_id db n in
          subst (λ b. (b && contains_id n db.users) ≡ b) same
            (valid-known room_id name member_ids user_id db n))
